-- ===== src/Budgets.antt =====
-- Spending limits for requests: src/inferrail/budgets/.
pub mod Schema
pub mod Clock
pub mod Store
pub mod Estimate
pub mod Spending
pub mod Enforcer
pub mod Overrun
pub mod Limits
pub mod Outcome
pub mod Declaration
pub mod Crud
pub mod Worst
pub mod Cover
pub mod Run
