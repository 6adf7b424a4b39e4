-- ===== src/RoomStore.antt =====
-- server/src/room-store.ts: the persisted rooms, as the in-memory store keeps them. Every write is
-- guarded by the version or by the room instance (its join token) that the caller acts on.
use bili_sync_play.Prelude.{
  Bool, List, Option, String, [], false, if◌then◌else◌, leb, none, not, or_else, same, some, true,
  ℕ, ◌+◌, ◌==◌, ◌∷◌,
}
use bili_sync_play.Prelude.Dict
use bili_sync_play.Prelude.Dict.{Dict}
use bili_sync_play.Protocol.{PlaybackState, SharedVideo}
pub mod Laws
pub mod Expiry
pub mod View

pub record PersistedRoom : Type 0 where
  pub code : String
  pub join_token : String
  pub created_at : ℕ
  pub owner_member_id : Option String
  pub owner_display_name : Option String
  pub shared_video : Option SharedVideo
  pub playback : Option PlaybackState
  pub version : ℕ
  pub last_active_at : ℕ
  pub expires_at : Option ℕ

pub record CreatePersistedRoomInput : Type 0 where
  pub code : String
  pub join_token : String
  pub created_at : ℕ
  pub owner_member_id : Option String
  pub owner_display_name : Option String

-- A field that the patch leaves out is none; `some none` writes null.
pub record PersistedRoomPatch : Type 0 where
  pub owner_display_name : Option (Option String)
  pub shared_video : Option (Option SharedVideo)
  pub playback : Option (Option PlaybackState)
  pub last_active_at : Option ℕ
  pub expires_at : Option (Option ℕ)

abbrev pub empty_patch : PersistedRoomPatch
empty_patch = record {
  owner_display_name = none;
  shared_video = none;
  playback = none;
  last_active_at = none;
  expires_at = none;
}

-- A version, or a room instance with or without a version.
pub data RoomUpdateGuard : Type 0 where
  at_version : ℕ → RoomUpdateGuard
  at_instance : String → Option ℕ → RoomUpdateGuard

pub data RoomUpdateResult : Type 0 where
  updated : PersistedRoom → RoomUpdateResult
  not_found version_conflict : RoomUpdateResult

pub data RoomDeleteOutcome : Type 0 where
  deleted already_deleted superseded : RoomDeleteOutcome

pub record ExpiredRoomSweep : Type 0 where
  pub deleted_room_codes : List String
  pub orphaned_index_codes : List String

abbrev pub Rooms : Type 0
Rooms = Dict PersistedRoom

unfoldable pub create_persisted_room : CreatePersistedRoomInput → PersistedRoom
create_persisted_room input = record {
  code = input.code;
  join_token = input.join_token;
  created_at = input.created_at;
  owner_member_id = input.owner_member_id;
  owner_display_name = input.owner_display_name;
  shared_video = none;
  playback = none;
  version = 0;
  last_active_at = input.created_at;
  expires_at = none;
}

-- none: the code is taken, and the call throws.
unfoldable pub create_room : CreatePersistedRoomInput → Rooms → Option (Rooms × PersistedRoom)
create_room input rooms =
    if Dict.has input.code rooms
    then none
    else let room = create_persisted_room input in some (Dict.put room.code room rooms, room)

abbrev pub get_room : String → Rooms → Option PersistedRoom
get_room code rooms = Dict.get code rooms

-- `{ ...currentRoom, ...patch, version, lastActiveAt }`
unfoldable pub patch_room : ℕ → PersistedRoomPatch → PersistedRoom → PersistedRoom
patch_room now patch room = record room {
  owner_display_name = or_else patch.owner_display_name room.owner_display_name;
  shared_video = or_else patch.shared_video room.shared_video;
  playback = or_else patch.playback room.playback;
  version = room.version + 1;
  last_active_at = or_else patch.last_active_at now;
  expires_at = or_else patch.expires_at room.expires_at;
}

abbrev pub same_version : Option ℕ → ℕ → Bool
same_version none v = true
same_version (some expected) v = v == expected

-- none: the guard holds.
abbrev pub declines : RoomUpdateGuard → PersistedRoom → Option RoomUpdateResult
declines (at_version expected) room =
    if room.version == expected then none else some version_conflict
declines (at_instance token version) room =
    if same room.join_token token
    then if same_version version room.version then none else some version_conflict
    else some not_found

-- `now` is read only where the patch leaves `lastActiveAt` out.
unfoldable pub update_room :
    ℕ → String → RoomUpdateGuard → PersistedRoomPatch → Rooms → Rooms × RoomUpdateResult
unfolding patch_room
update_room now code expected patch rooms = elim (Dict.get code rooms) [
  | none ↦ (rooms, not_found)
  | some room ↦ elim (declines expected room) [
    | some refusal ↦ (rooms, refusal)
    | none ↦ let next = patch_room now patch room in (Dict.put code next rooms, updated next)
  ]
]

unfoldable pub delete_room : PersistedRoom → Rooms → Rooms × RoomDeleteOutcome
delete_room expected rooms = elim (Dict.get expected.code rooms) [
  | none ↦ (rooms, already_deleted)
  | some room ↦
      if same room.join_token expected.join_token
      then (Dict.remove expected.code rooms, deleted)
      else (rooms, superseded)
]

-- `expiresAt !== null && expiresAt <= now`
abbrev pub has_expired : ℕ → PersistedRoom → Bool
has_expired now room = elim room.expires_at [ none ↦ false | some at ↦ leb at now ]

unfoldable pub delete_expired_room : String → ℕ → Rooms → Rooms × RoomDeleteOutcome
delete_expired_room code now rooms = elim (Dict.get code rooms) [
  | none ↦ (rooms, already_deleted)
  | some room ↦
      if has_expired now room then (Dict.remove code rooms, deleted) else (rooms, superseded)
]

-- the codes that the loop of `deleteExpiredRooms` collects
unfoldable pub expired_codes : ℕ → Rooms → List String
expired_codes now [] = []
expired_codes now ((code, room) ∷ rooms) =
    let rest = expired_codes now rooms in if has_expired now room then code ∷ rest else rest

unfoldable pub delete_expired_rooms : ℕ → Rooms → Rooms × ExpiredRoomSweep
unfolding expired_codes
delete_expired_rooms now rooms = (
  Dict.keep_values (λ room. not (has_expired now room)) rooms,
  record { deleted_room_codes = expired_codes now rooms; orphaned_index_codes = [] },
)
