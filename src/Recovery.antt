-- ===== src/Recovery.antt =====
-- AP exception recovery: the files of src/inferrail/ap/ that decide, retry, validate and record.
pub mod Models
pub mod Policy
pub mod Validation
pub mod Store
pub mod Engine
pub mod Samples
pub mod Tests
pub mod LeaseTests
