-- ===== src/Server/Hub.antt =====
-- rust/apps/server/src/realtime/hub.rs: the table of the open WebSocket connections.
pub mod State
pub mod Mappings
pub mod Operations
pub mod Sending
pub mod Routes
pub mod Invariant
pub mod Detached
pub mod Eviction
pub mod Entering
pub mod Attaching
pub mod Reachable
pub mod Delivery
pub mod Takeover
