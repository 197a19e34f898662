-- ===== src/Tests.antt =====
-- Runs on concrete input, and instances of the results at it.
mod RoomRuns
mod Rooms
mod Wire
mod Control
mod Realtime
mod Hub
mod Web
mod Storage
mod Plans
mod Resume
mod Server
mod Ids
