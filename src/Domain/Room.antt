-- ===== src/Domain/Room.antt =====
-- rust/crates/domain/src/room.rs: a room with its members and join requests. `State` has the data,
-- `Commands` the state machine behind `Room::handle`, `Restore` the checks on a stored room.
pub mod State
pub mod Commands
pub mod Restore
pub mod Effect
pub mod Cases
pub mod Invariant
pub mod Preservation
pub mod Replies
pub mod Access
pub mod Requests
pub mod Exclusion
pub mod Storage
pub mod Leaving
