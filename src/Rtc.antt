-- ===== src/Rtc.antt =====
-- The pure parts of rust/crates/browser-platform/src/rtc.
pub mod Checkpoint
pub mod BinaryId
pub mod Wire
pub mod Finalization
pub mod Manifest
pub mod Plans
