-- ===== src/Service.antt =====
-- server/src/room-service.ts: the operations that a connection asks of the server, over the persisted
-- rooms, the live rooms and the authority windows.
pub mod State
pub mod Resolve
pub mod Access
pub mod Playback
pub mod Share
pub mod Join
pub mod Admission
pub mod Leave
pub mod Profile
pub mod Lock
pub mod Create
