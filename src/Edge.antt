-- ===== src/Edge.antt =====
-- src/edge: the node that fans the broadcast frames out to its clients.
pub mod Ring
pub mod Channel
pub mod Hub
pub mod Auth
pub mod Heartbeat
pub mod Drain
pub mod Parse
mod Sample
mod Examples
mod TokenExamples
mod DrainExamples
mod ParseExamples
