-- ===== src/Console.antt =====
-- src/console: the management node, which hands the tokens of the clients to the edge nodes.
pub mod Tokens
pub mod Registry
pub mod Alerts
mod Examples
mod RegistryExamples
mod AlertsExamples
