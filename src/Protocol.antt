-- ===== src/Protocol.antt =====
-- rust/crates/protocol: versions, limits and validation, control messages, binary chunk frames, and the
-- messages of the server.
pub mod Limits
pub mod Version
pub mod Bytes
pub mod Frame
pub mod Control
pub mod Realtime
pub mod Http
