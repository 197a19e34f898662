-- ===== src/Web.antt =====
-- The state machines of the browser client, rust/apps/web/src.
pub mod State
pub mod Model
pub mod App
pub mod Work
pub mod Aggregate
pub mod Rtc
pub mod Connection
pub mod Retry
pub mod Attempts
pub mod Tokens
pub mod Events
pub mod Progress
pub mod Planning
pub mod Texts
pub mod Handling
pub mod Reducer
pub mod Snapshots
pub mod Target
pub mod Effects
pub mod Waiting
pub mod Session
pub mod Advance
pub mod Kept
pub mod Stays
pub mod Mirror
pub mod Received
pub mod Bounds
