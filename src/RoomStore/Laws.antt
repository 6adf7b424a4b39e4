-- ===== src/RoomStore/Laws.antt =====
-- Guarded writes: theorems on RoomStore.antt.
use bili_sync_play.Prelude.{
  Option, Option-cases, String, arith, inl, inr, some, ℕ, ◌+◌, ◌≡◌, ◌≢◌, ◌⊎◌,
}
use bili_sync_play.Prelude.Dict
use bili_sync_play.RoomStore.{
  PersistedRoom, PersistedRoomPatch, RoomUpdateGuard, Rooms, at_instance, at_version, delete_room,
  get_room, not_found, patch_room, superseded, update_room, updated, version_conflict,
}

-- An update that succeeds found a room, moved its version on by one, kept its identity (code, join
-- token, creation), and stored exactly what it returns; the rooms under other codes are as before.
pub update_room_updated :
    (now : ℕ) (code : String) (guard : RoomUpdateGuard) (patch : PersistedRoomPatch) (rooms : Rooms)
    (next : PersistedRoom)
    → (update_room now code guard patch rooms).1 ≡ updated next
    → (room : PersistedRoom) × (get_room code rooms ≡ some room)
      × (next.version ≡ room.version + 1)
      × (next.join_token ≡ room.join_token)
      × (next.created_at ≡ room.created_at)
      × (get_room code (update_room now code guard patch rooms).0 ≡ some next)
      × ((other : String)
          → code ≢ other
          → get_room other (update_room now code guard patch rooms).0 ≡ get_room other rooms)
unfolding update_room
update_room_updated now code guard patch rooms next h = elim (Option-cases (get_room code rooms)) [
  | inl e ↦ absurd (ground arith)
  | inr (room, e) ↦ (
    room,
    e,
    ground arith,
    ground arith,
    ground arith,
    ground (arith, Dict.get-put_self code (patch_room now patch room) rooms),
    λ other ne. ground (arith, Dict.get-put_ne code other (patch_room now patch room) rooms ne),
  )
]

-- A refused update writes nothing.
update_room_refused :
    (now : ℕ) (code : String) (guard : RoomUpdateGuard) (patch : PersistedRoomPatch) (rooms : Rooms)
    → ((update_room now code guard patch rooms).1 ≡ not_found)
      ⊎ ((update_room now code guard patch rooms).1 ≡ version_conflict)
    → (update_room now code guard patch rooms).0 ≡ rooms
unfolding update_room
update_room_refused now code guard patch rooms h = ground arith

-- No lost update: of two writes against the same version, the second is a version conflict, and
-- leaves the first one's room in place.
pub update_room_twice :
    (now now' : ℕ) (code : String) (v : ℕ) (patch patch' : PersistedRoomPatch) (rooms : Rooms)
    (next : PersistedRoom)
    → (update_room now code (at_version v) patch rooms).1 ≡ updated next
    → let rooms' = (update_room now code (at_version v) patch rooms).0 in
      update_room now' code (at_version v) patch' rooms' ≡ (rooms', version_conflict)
unfolding update_room
update_room_twice now now' code v patch patch' rooms next h =
    elim (Option-cases (get_room code rooms)) [
      | inl e ↦ absurd (ground arith)
      | inr (room, e) ↦ ground (arith, Dict.get-put_self code (patch_room now patch room) rooms)
    ]

-- A code that changed hands: neither a delete nor an update that names the old instance touches the
-- room that holds the code now, whatever its version.
pub stale_instance_is_harmless :
    (now : ℕ) (old new : PersistedRoom) (version : Option ℕ) (patch : PersistedRoomPatch)
    (rooms : Rooms)
    → get_room old.code rooms ≡ some new
    → new.join_token ≢ old.join_token
    → (delete_room old rooms ≡ (rooms, superseded))
      × (update_room now old.code (at_instance old.join_token version) patch rooms
          ≡ (rooms, not_found))
unfolding delete_room update_room
stale_instance_is_harmless now old new version patch rooms h ne = (ground arith, ground arith)
