-- ===== src/Gateway.antt =====
-- The request path of the gateway: src/inferrail/gateway/.
pub mod Admission
pub mod Execution
mod Admitting
pub mod Attributed
pub mod Settlement
pub mod Counts
pub mod Sse
pub mod Stream
pub mod AnthropicUsage
pub mod Anthropic
mod Samples
mod Tests
mod StreamTests
mod AnthropicTests
mod Examples
