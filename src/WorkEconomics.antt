-- ===== src/WorkEconomics.antt =====
-- The paid work economics capability: the files of hosted/work_economics/.
pub mod Capability
pub mod Breakdown
pub mod Store
pub mod Lifecycle
pub mod Service
pub mod Counting
pub mod Sales
pub mod Deliveries
pub mod Repeats
pub mod Tests
