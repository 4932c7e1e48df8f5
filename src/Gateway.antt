-- ===== src/Gateway.antt =====
-- The one path to a model (src/agents/gateway.ts): `run`, the body of `call`.
pub mod Types
pub mod Preparing
pub mod Rows
pub mod Running
pub mod Cases
pub mod Message
pub mod Ceiling
pub mod Overshoot
mod Examples
pub mod Calling
pub mod Filing
pub mod Admitting
pub mod Egress
pub mod Persisting
pub mod Reserving
