-- ===== src/Tests.antt =====
-- The theorems at concrete inputs.
mod Values
mod Decisions
mod Stores
mod Handlers
mod Traffic
mod Rooms
mod Texts
mod Page
