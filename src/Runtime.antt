-- ===== src/Runtime.antt =====
-- The live side of a room: who sits in it, whose tokens reclaim a seat, and what is held under its
-- code. server/src/runtime-store-state.ts and the in-memory store of server/src/runtime-store.ts.
pub mod Rooms
pub mod Slots
pub mod Store
pub mod Sessions
