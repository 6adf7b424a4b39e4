-- ===== src/Service/Admission.antt =====
-- server/src/room-service.ts, joinRoomForSession: what runs under the room's join lock. The close of
-- the replaced session's socket is an effect on another connection, whose disconnect is then a
-- request of its own.
use bili_sync_play.Prelude.{
  Bool, Option, String, if◌then◌else◌, is_some, leb, none, same, some, true, ℕ,
}
use bili_sync_play.Prelude.Dict
use bili_sync_play.Session.{Session}
use bili_sync_play.RoomStore.{PersistedRoom}
use bili_sync_play.Runtime.Rooms.{ActiveRoom}
use bili_sync_play.Runtime.Store as Live
use bili_sync_play.Service.State.{
  Env, Result, Service, err, internal_error, ok, room_not_found, with_runtime,
}
use bili_sync_play.Service.Join.{
  JoinIdentity, JoinRequest, PersistedJoin, apply_joined_session_state, build_join_identity,
  persist_joined_room,
}
pub mod Laws
pub mod Presence
pub mod Places
pub mod Rounds
pub mod Capacity

-- The constants of a join: config.maxMembersPerRoom, the store's retention of tokens, the end of
-- the lock and what generateToken returns.
pub record JoinContext : Type 0 where
  pub max_members : ℕ
  pub retention_ms : ℕ
  pub lock_expires_at : ℕ
  pub fresh_token : String

pub record JoinAnswer : Type 0 where
  pub room : PersistedRoom
  pub member_token : String

abbrev pub seat_in : Option ActiveRoom → Option String → Option String
seat_in (some room) (some member_id) = Dict.get member_id room.members
seat_in _ _ = none

-- `currentRuntimeSession === null || currentRuntimeSession === session`
abbrev pub is_free_for : Option String → Session → Bool
is_free_for none session = true
is_free_for (some current) session = same current session.id

-- The lock ended while the join was on its way: the seat is given up, and the session that held it
-- before has it back unless somebody else took it.
unfoldable pub undo_admission :
    JoinContext → Env → Session → String → JoinIdentity → Option String → Service → Service
undo_admission ctx env session code identity previous s =
    let (removed, _) =
      Live.remove_member ctx.retention_ms (env.at 45) (env.at 46) code identity.member_id
        (some session.id) s.runtime in
    let s' = env.others 41 (with_runtime s removed) in
    let (runtime, active) = Live.get_room (env.at 47) code s'.runtime in
    let vacant = with_runtime s' runtime in
    elim previous [
      | none ↦ vacant
      | some earlier ↦
          if is_free_for (seat_in active (some identity.member_id)) session
          then env.others 42 (
              with_runtime vacant
                (Live.add_member (env.at 48) code identity.member_id earlier identity.member_token
                  runtime).0)
          else vacant
    ]

-- The session takes its seat, if the lock still holds before and after.
unfoldable pub admit :
    JoinContext
    → Env
    → Session
    → Option String
    → PersistedJoin
    → Service
    → Service × Session × Result JoinAnswer
unfolding undo_admission
admit ctx env session previous_token joined s =
    let code = joined.room.code in
    let target = joined.target in
    let identity =
      build_join_identity session ctx.fresh_token target.reconnect_member_id previous_token in
    let (runtime, active) =
      if is_some target.reconnect_member_id
      then Live.get_room (env.at 40) code s.runtime
      else (s.runtime, none) in
    let previous_local = seat_in active target.reconnect_member_id in
    let previous =
      if is_some (seat_in target.active_room target.reconnect_member_id)
      then seat_in target.active_room target.reconnect_member_id
      else previous_local in
    let (seated, _) =
      Live.add_member (env.at 42) code identity.member_id session.id identity.member_token
        runtime in
    let s' = env.others 40 (with_runtime s seated) in
    if leb ctx.lock_expires_at (env.at 41)
    then (with_runtime s runtime, session, err internal_error)
    else if leb ctx.lock_expires_at (env.at 43)
    then (undo_admission ctx env session code identity previous s', session, err internal_error)
    else (
      s',
      apply_joined_session_state session code (env.at 44) identity,
      ok (record { room = joined.room; member_token = identity.member_token }),
    )

unfoldable pub join_under_lock :
    JoinContext → Env → Session → JoinRequest → Service → Service × Session × Result JoinAnswer
join_under_lock ctx env session request s =
    let (s', joined) = persist_joined_room ctx.max_members env request s in
    elim joined [
      | err e ↦ (s', session, err e)
      | ok found ↦ elim found [
        | none ↦ (s', session, err room_not_found)
        | some persisted ↦ admit ctx env session request.previous_member_token persisted s'
      ]
    ]
