-- ===== src/Domain.antt =====
-- rust/crates/domain: identifiers, time, sessions and rooms.
pub mod Time
pub mod Ids
pub mod Session
pub mod Room
