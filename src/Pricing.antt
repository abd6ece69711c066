-- ===== src/Pricing.antt =====
-- Prices and costs: src/inferrail/config/models.py (PriceEntry), receipts/calculator.py and
-- pricing/resolver.py.
pub mod Price
pub mod Cost
pub mod Usage
pub mod Bounds
pub mod Snapshot
pub mod Resolver
pub mod Honesty
