-- ===== src/Service/Access/Laws.antt =====
-- Authentication: theorems on Service/Access.antt.
use bili_sync_play.Prelude.{
  Option, Option-cases, String, arith, inl, inr, none, refl, some, truthy, ◌≡◌,
}
use bili_sync_play.Prelude.Dict
use bili_sync_play.Session.{Session}
use bili_sync_play.RoomStore.{PersistedRoom, get_room}
use bili_sync_play.Runtime.Rooms.{ActiveRoom}
use bili_sync_play.Runtime.Store as Live
use bili_sync_play.Service.State.{Env, Result, Service, err, ok}
use bili_sync_play.Service.Resolve.{resolve_room}
use bili_sync_play.Service.Resolve.Laws.{resolve_room-live}
use bili_sync_play.Service.Access.{JoinedRoomAccess, require_joined_room_session, require_seat}

-- What the guard establishes of the state that the handler goes on with.
pub record IsAuthenticated (s : Service) (session : Session) (member_token : String)
    (access : JoinedRoomAccess) : Type 0 where
  pub code : String
  pub member_id : String
  pub names : session.room_code ≡ some code
  pub member : session.member_id ≡ some member_id
  pub stored : get_room code s.rooms ≡ some access.persisted_room
  pub live : Dict.get access.persisted_room.code s.runtime.rooms ≡ some access.active_room
  pub seat : Dict.get member_id access.active_room.members ≡ some session.id
  pub token : Dict.get member_id access.active_room.member_tokens ≡ some member_token
  own_token : session.member_token ≡ some member_token

truthy-eq-some : (o : Option String) (t : String) → truthy o ≡ some t → o ≡ some t
truthy-eq-some o t h = ground arith

require_seat-ok :
    (room : PersistedRoom) (active : Option ActiveRoom) (session : Session) (member_token : String)
    (access : JoinedRoomAccess)
    → (require_seat room active session member_token).1 ≡ ok access
    → (member_id : String) × ((require_seat room active session member_token).0 ≡ session)
      × (access.persisted_room ≡ room)
      × (active ≡ some access.active_room)
      × (session.member_id ≡ some member_id)
      × (Dict.get member_id access.active_room.members ≡ some session.id)
      × (Dict.get member_id access.active_room.member_tokens ≡ some member_token)
      × (session.member_token ≡ some member_token)
unfolding require_seat
require_seat-ok room none session member_token access h = cc
require_seat-ok room (some live) session member_token access h =
    elim (Option-cases (truthy session.member_id)) [
      | inl e ↦ absurd (ground arith)
      | inr (m, e) ↦ (
        m,
        ground arith,
        ground arith,
        ground arith,
        truthy-eq-some session.member_id m e,
        ground arith,
        ground arith,
        ground arith,
      )
    ]

-- Access is given only to a session that names a stored room, holds the member's seat in the live room
-- under that room's code, and shows the token that the live room keeps for the member and the
-- session for itself; the rooms that are handed on are the stored one and the live one.
pub require_joined_room_session-IsAuthenticated :
    (env : Env) (session : Session) (member_token : String) (s : Service)
    (access : JoinedRoomAccess)
    → (require_joined_room_session env session member_token s).2 ≡ ok access
    → let (s', session', _) = require_joined_room_session env session member_token s in
      (session' ≡ session) × IsAuthenticated s' session member_token access
unfolding require_joined_room_session Live.get_room
require_joined_room_session-IsAuthenticated env session member_token s access h =
    elim (Option-cases (truthy session.room_code)) [
      | inl e ↦ absurd (ground arith)
      | inr (code, e) ↦ go code e (resolve_room env code s).1 refl
    ]
  where
    go :
        (code : String)
        → truthy session.room_code ≡ some code
        → (r : Result (Option PersistedRoom)) → (resolve_room env code s).1 ≡ r
        → let (s', session', _) = require_joined_room_session env session member_token s in
          (session' ≡ session) × IsAuthenticated s' session member_token access
    go code e (err x) q = absurd (ground arith)
    go code e (ok none) q = absurd (ground arith)
    go code e (ok (some room)) q =
        let s' = (resolve_room env code s).0 in
        let active = (Live.get_room (env.at 3) room.code s'.runtime).1 in
        let (m, same_session, same_room, same_live, member, seat, token, own) =
          require_seat-ok room active session member_token access (ground arith) in
        (
          ground arith,
          record {
            code = code;
            member_id = m;
            names = truthy-eq-some session.room_code code e;
            member = member;
            stored = ground (arith, resolve_room-live env code s room q);
            live = ground (arith, same_room, same_live);
            seat = seat;
            token = token;
            own_token = own;
          },
        )
