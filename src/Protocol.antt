-- ===== src/Protocol.antt =====
-- The sidecar protocol: protocol/.
pub mod Frame
pub mod Heartbeat
pub mod Lifecycle
pub mod Rpc
pub mod StaleResponses
