-- ===== src/Receipts.antt =====
-- Receipts and their economics: src/inferrail/receipts/.
pub mod Schema
pub mod Build
pub mod Store
pub mod Economics
pub mod Audit
pub mod Totals
pub mod Reimport
