-- ===== src/Service/Access.antt =====
-- server/src/room-service.ts, requireJoinedRoomSession and requireMemberToken: who may act in a room.
use bili_sync_play.Prelude.{
  Bool, Option, String, false, if◌then◌else◌, none, not, same, some, truthy, ◌&&◌,
}
use bili_sync_play.Prelude.Dict
use bili_sync_play.Session.{Session}
use bili_sync_play.RoomStore.{PersistedRoom}
use bili_sync_play.Runtime.Rooms.{ActiveRoom}
use bili_sync_play.Runtime.Store as Live
use bili_sync_play.Service.State.{
  Env, Result, Service, clear_session_room, err, member_token_invalid, not_in_room, ok,
  room_not_found, with_runtime,
}
use bili_sync_play.Service.Resolve.{resolve_room}
pub mod Laws
pub mod Granted

pub record JoinedRoomAccess : Type 0 where
  pub persisted_room : PersistedRoom
  pub active_room : ActiveRoom

abbrev pub is_text : Option String → String → Bool
is_text none s = false
is_text (some t) s = same t s

-- The room's seat of the member is bound to this very session.
abbrev pub is_seated : Option ActiveRoom → Session → Bool
is_seated none session = false
is_seated (some active) session = elim (truthy session.member_id) [
  | none ↦ false
  | some member_id ↦ is_text (Dict.get member_id active.members) session.id
]

-- requireMemberToken: the token given, the session's and the room's for the member are one.
abbrev pub has_member_token : ActiveRoom → Session → String → Bool
has_member_token active session member_token = elim (truthy session.member_id) [
  | none ↦ false
  | some member_id ↦ elim (truthy session.member_token) [
    | none ↦ false
    | some held ↦ same member_token held && is_text (Dict.get member_id active.member_tokens) held
  ]
]

-- The checks on the live room; a session that holds no seat is cleared.
unfoldable pub require_seat :
    PersistedRoom → Option ActiveRoom → Session → String → Session × Result JoinedRoomAccess
require_seat room active session member_token = elim active [
  | none ↦ (clear_session_room session, err member_token_invalid)
  | some live ↦
      if not (is_seated (some live) session)
      then (clear_session_room session, err member_token_invalid)
      else if has_member_token live session member_token
      then (session, ok (record { persisted_room = room; active_room = live }))
      else (session, err member_token_invalid)
]

unfoldable pub require_joined_room_session :
    Env → Session → String → Service → Service × Session × Result JoinedRoomAccess
unfolding require_seat
require_joined_room_session env session member_token s = elim (truthy session.room_code) [
  | none ↦ (s, session, err not_in_room)
  | some code ↦
      let (s', resolved) = resolve_room env code s in
      elim resolved [
        | err e ↦ (s', session, err e)
        | ok found ↦ elim found [
          | none ↦ (s', clear_session_room session, err room_not_found)
          | some room ↦
              let (runtime, active) = Live.get_room (env.at 3) room.code s'.runtime in
              let (session', access) = require_seat room active session member_token in
              (with_runtime s' runtime, session', access)
        ]
      ]
]
