-- ===== src/Server.antt =====
-- The rate limits, the connection hub and the storage of rooms of rust/apps/server.
pub mod RateLimit
pub mod Hub
pub mod Storage
