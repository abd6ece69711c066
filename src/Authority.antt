-- ===== src/Authority.antt =====
-- hosted/a2a_economic_authority/core.py: the durable ledger of delegated spending ceilings.
pub mod State
pub mod Tables
pub mod Walks
pub mod Events
pub mod Opening
pub mod Spending
pub mod Closing
pub mod Api
pub mod Calls
pub mod Invariant
pub mod Report
pub mod Revocation
mod Tests
mod Recorded
pub mod Lasting
pub mod Idempotence
