-- ===== src/Service/Profile.antt =====
-- server/src/room-service.ts: setSessionDisplayName, updateProfileForSession, the reads of a room's
-- state (getRoomStateForSession, getRoomStateByCode), and deleteExpiredRooms, the pass of the reaper.
-- `display_name` is the trimmed name. The in-memory stores answer every call, so that no teardown is
-- owed from an earlier pass.
use bili_sync_play.Prelude.{
  Bool, List, Option, String, [], false, if◌then◌else◌, length, none, same, same_option, some, true,
  truthy, ℕ, ◌&&◌, ◌+◌, ◌∷◌,
}
use bili_sync_play.Protocol.{RoomState}
use bili_sync_play.Session.{Session, member_or_id}
use bili_sync_play.RoomStore as Rooms
use bili_sync_play.RoomStore.{
  PersistedRoom, at_version, empty_patch, not_found, update_room, updated, version_conflict,
}
use bili_sync_play.RoomStore.View.{room_state_from_sessions}
use bili_sync_play.Runtime.Sessions.{list_sessions_by_room, register_session}
use bili_sync_play.Service.State.{Env, Result, Service, err, later, ok, with_rooms, with_runtime}
use bili_sync_play.Service.Resolve.{
  collect_runtime_state, max_version_retries, resolve_room, with_version_retry,
}
use bili_sync_play.Service.Access.{require_joined_room_session}

-- The session, and whether its name changed; a session that is renamed is registered anew.
unfoldable pub set_session_display_name :
    Session → Option String → Service → Service × Session × Bool
set_session_display_name session display_name s = elim (truthy display_name) [
  | none ↦ (s, session, false)
  | some name ↦
      if same name session.display_name
      then (s, session, false)
      else let renamed = record session { display_name = name } in
        (with_runtime s (register_session renamed s.runtime), renamed, true)
]

-- One attempt to write the owner's name on the room.
unfoldable pub rename_owner :
    Session → Env → PersistedRoom → Service → Service × Result (Option PersistedRoom)
rename_owner session env room before =
    let s = env.others 4 before in
    let (rooms, result) =
      update_room (env.at 5) room.code (at_version room.version)
        (record empty_patch {
          owner_display_name = some (some session.display_name);
          last_active_at = some (env.at 4);
        })
        s.rooms in
    let s' = with_rooms s rooms in
    elim result [
      | updated next ↦ (s', ok (some next))
      | version_conflict ↦ (s', ok none)
      | not_found ↦ (s', ok none)
    ]

-- What follows the access: the name of the session, and that of the room's owner.
unfoldable pub update_profile_after_access :
    Env
    → PersistedRoom
    → Session
    → Option String
    → Service
    → Service × Session × Result PersistedRoom
unfolding set_session_display_name rename_owner
update_profile_after_access env room session display_name s =
    let (named, session', changed) = set_session_display_name session display_name s in
    let (s', answer) =
      with_version_retry max_version_retries (later 10 env) room.code (rename_owner session')
        named in
    if changed && same_option (some (member_or_id session')) room.owner_member_id
    then elim answer [
      | err e ↦ (s', session', err e)
      | ok outcome ↦ elim outcome [
        | none ↦ (s', session', ok room)
        | some next ↦ (s', session', ok next)
      ]
    ]
    else (named, session', ok room)

unfoldable pub update_profile_for_session :
    Env → Session → String → Option String → Service → Service × Session × Result PersistedRoom
unfolding update_profile_after_access
update_profile_for_session env session member_token display_name s =
    let (s', session', access) = require_joined_room_session env session member_token s in
    elim access [
      | err e ↦ (s', session', err e)
      | ok granted ↦ update_profile_after_access env granted.persisted_room session' display_name s'
    ]

-- The state is that of the room which the access found.
unfoldable pub get_room_state_for_session :
    Env → Session → String → Service → Service × Session × Result RoomState
get_room_state_for_session env session member_token s =
    let (s', session', access) = require_joined_room_session env session member_token s in
    elim access [
      | err e ↦ (s', session', err e)
      | ok granted ↦ (
        s',
        session',
        ok (
            room_state_from_sessions granted.persisted_room
              (list_sessions_by_room granted.persisted_room.code s'.runtime)),
      )
    ]

unfoldable pub get_room_state_by_code : Env → String → Service → Service × Result (Option RoomState)
get_room_state_by_code env code s =
    let (s', resolved) = resolve_room env code s in
    elim resolved [
      | err e ↦ (s', err e)
      | ok found ↦ elim found [
        | none ↦ (s', ok none)
        | some room ↦
            (s', ok (some (room_state_from_sessions room (list_sessions_by_room code s'.runtime))))
      ]
    ]

-- The teardown of one code after the other; each has waits of its own.
unfoldable pub collect_all : Env → ℕ → List String → Service → Service
collect_all env n [] s = s
collect_all env n (code ∷ codes) s =
    collect_all env (n + 3) codes (collect_runtime_state (later n env).others code s)

-- The pass, and how many rooms and how many orphaned entries it removed.
unfoldable pub delete_expired_rooms : Env → ℕ → Service → Service × ℕ × ℕ
unfolding collect_all
delete_expired_rooms env current_time s =
    let (rooms, swept) = Rooms.delete_expired_rooms current_time s.rooms in
    let counted : Service = record s {
      rooms = rooms;
      rooms_expired_deleted = s.rooms_expired_deleted + length swept.deleted_room_codes;
    } in
    (
      collect_all env 0 swept.deleted_room_codes counted,
      length swept.deleted_room_codes,
      length swept.orphaned_index_codes,
    )
