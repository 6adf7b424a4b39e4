-- ===== src/Service/Leave.antt =====
-- server/src/room-service.ts, leaveCurrentRoom with snapshotJoinedSession, restoreJoinedSession and
-- restoreLeaveState: a session leaves its room, by request or since its socket closed. The in-memory
-- stores answer every call, so that the shared member view is readable and a removal is durable.
use bili_sync_play.Prelude.{
  Bool, List, Option, String, [], false, if◌then◌else◌, none, not, or_else, same, some, true,
  truthy, ℕ, ◌&&◌, ◌+◌, ◌∷◌,
}
use bili_sync_play.Prelude.Dict
use bili_sync_play.Prelude.Dict.{Dict}
use bili_sync_play.Owner.{Candidate, shared_video_owner_changed_on_leave}
use bili_sync_play.Session.{Session, member_or_id}
use bili_sync_play.RoomStore.{
  PersistedRoom, at_instance, empty_patch, not_found, update_room, updated, version_conflict,
}
use bili_sync_play.Runtime.Rooms.{ActiveRoom, Removal, is_empty}
use bili_sync_play.Runtime.Store as Live
use bili_sync_play.Service.State.{
  Env, Result, Service, ServiceError, clear_session_room, err, later, ok, with_rooms, with_runtime,
}
use bili_sync_play.Service.Resolve.{resolve_room}
use bili_sync_play.Service.Join.{by_now}
pub mod Seats
pub mod Laws

pub data LeaveRoomReason : Type 0 where
  client_request disconnect : LeaveRoomReason

-- What is answered; a flag that the source leaves out is false.
pub record LeaveAnswer : Type 0 where
  pub room : Option PersistedRoom
  pub notify_room : Bool
  pub member_removed : Bool
  pub needs_room_state_resync : Bool

abbrev pub no_room : LeaveAnswer
no_room = record {
  room = none;
  notify_room = false;
  member_removed = false;
  needs_room_state_resync = false;
}

-- config: the retention of tokens and persistence.emptyRoomTtlMs
pub record LeaveContext : Type 0 where
  pub retention_ms : ℕ
  pub empty_room_ttl_ms : ℕ

pub record JoinedSessionSnapshot : Type 0 where
  pub room_code : String
  pub member_id : String
  pub member_token : String
  pub joined_at : Option ℕ

abbrev pub snapshot_joined_session : Session → Option JoinedSessionSnapshot
snapshot_joined_session session = elim (truthy session.room_code) [
  | none ↦ none
  | some code ↦ elim (truthy session.member_id) [
    | none ↦ none
    | some member_id ↦ elim (truthy session.member_token) [
      | none ↦ none
      | some token ↦ some (record {
        room_code = code;
        member_id = member_id;
        member_token = token;
        joined_at = session.joined_at;
      })
    ]
  ]
]

abbrev pub restore_joined_session : Session → JoinedSessionSnapshot → Session
restore_joined_session session snapshot = record session {
  room_code = some snapshot.room_code;
  member_id = some snapshot.member_id;
  member_token = some snapshot.member_token;
  joined_at = snapshot.joined_at;
}

unfoldable pub restore_leave_state :
    Env → Session → Option JoinedSessionSnapshot → Service → Service × Session
restore_leave_state env session none s = (s, session)
restore_leave_state env session (some snapshot) s =
    let (runtime, _) =
      Live.add_member (env.at 6) snapshot.room_code snapshot.member_id session.id
        snapshot.member_token s.runtime in
    (env.others 5 (with_runtime s runtime), restore_joined_session session snapshot)

-- The revocation, before the seat is given up; the store judges whether the session still owns it.
abbrev pub revoke_first : Env → LeaveRoomReason → String → Session → Service → Service
revoke_first env disconnect code session s = s
revoke_first env client_request code session s = elim (truthy session.member_id) [
  | none ↦ s
  | some member_id ↦
      env.others 0
        (with_runtime s (Live.revoke_member_token code member_id (some session.id) s.runtime))
]

abbrev pub give_up_seat :
    LeaveContext → Env → String → Session → Option ActiveRoom → Service → Service × Removal
give_up_seat ctx env code session before s = elim (truthy session.member_id) [
  | none ↦ (s, record { room = before; room_empty = false; removed = false })
  | some member_id ↦
      let (runtime, removal) =
        Live.remove_member ctx.retention_ms (env.at 1) (env.at 2) code member_id (some session.id)
          s.runtime in
      (with_runtime s runtime, removal)
]

-- The entry that this leave may have left behind.
abbrev pub is_own_entry : String → String → String × String → Bool
is_own_entry member_id session_id (m, held_by) = same m member_id && same held_by session_id

unfoldable pub remaining_members : String → String → Dict String → Dict String
remaining_members member_id session_id [] = []
remaining_members member_id session_id (entry ∷ members) =
    let rest = remaining_members member_id session_id members in
    if is_own_entry member_id session_id entry then rest else entry ∷ rest

abbrev pub members_in : Option ActiveRoom → Dict String
members_in none = []
members_in (some room) = room.members

-- The time at which the session of a seat joined.
abbrev pub joined_at_of : Dict Session → String → Option ℕ
joined_at_of sessions id = elim (Dict.get id sessions) [ none ↦ none | some s ↦ s.joined_at ]

unfoldable pub candidates_of : Dict Session → Dict String → List Candidate
candidates_of sessions [] = []
candidates_of sessions ((member_id, session_id) ∷ members) =
    record { id = member_id; joined_at = joined_at_of sessions session_id }
    ∷ candidates_of sessions members

-- The guarded write: only on the very room, at the very version, that was judged to be empty.
unfoldable pub schedule_expiry :
    LeaveContext → Env → PersistedRoom → Service → Service × Option PersistedRoom
schedule_expiry ctx env room before =
    let s = env.others 3 before in
    let (rooms, result) =
      update_room (env.at 5) room.code (at_instance room.join_token (some room.version))
        (record empty_patch {
          expires_at = some (some (env.at 4 + ctx.empty_room_ttl_ms));
          last_active_at = some (env.at 5);
        })
        s.rooms in
    (
      with_rooms s rooms,
      elim result [ updated next ↦ some next | version_conflict ↦ none | not_found ↦ none ],
    )

abbrev pub sharer_of : PersistedRoom → Option String
sharer_of room = elim room.shared_video [ none ↦ none | some video ↦ video.shared_by_member_id ]

-- What follows once the room was read: the members who remain decide.
unfoldable pub settle_leave :
    LeaveContext → Env → Session → PersistedRoom → Bool → Service → Service × LeaveAnswer
unfolding schedule_expiry
settle_leave ctx env session room removed s =
    let (runtime, active) = Live.get_room (env.at 3) room.code s.runtime in
    let s' = env.others 2 (with_runtime s runtime) in
    let shared = by_now room.code active s'.runtime.rooms in
    let leaving_id = member_or_id session in
    let remaining = remaining_members leaving_id session.id (members_in shared) in
    if is_empty remaining
    then (if s'.closing
        then (s', record no_room { room = some room; member_removed = removed })
        else let (s'', scheduled) = schedule_expiry ctx env room s' in
          (s'', record no_room { room = some (or_else scheduled room); member_removed = removed }))
    else (
      s',
      record {
        room = some room;
        notify_room = false;
        member_removed = removed;
        needs_room_state_resync =
            shared_video_owner_changed_on_leave (sharer_of room)
              (candidates_of s'.runtime.sessions_by_id remaining)
              (record { id = leaving_id; joined_at = session.joined_at });
      },
    )

-- The catch of a leave whose room could not be read: a session that is still connected has its seat
-- back as long as the room exists, and of one that is not the room is told.
unfoldable pub recover_leave :
    Env
    → Session
    → String
    → ServiceError
    → Removal
    → Service
    → Service × Session × Result LeaveAnswer
unfolding restore_leave_state
recover_leave env session code error removal s =
    let cleared = clear_session_room session in
    if not removal.removed
    then (s, cleared, err error)
    else if not session.socket_open
    then if removal.room_empty then (s, cleared, err error) else (
      s,
      cleared,
      ok (record {
        room = none;
        notify_room = true;
        member_removed = true;
        needs_room_state_resync = true;
      }),
    )
    else let s' = env.others 4 s in
      if Dict.has code s'.rooms
      then (let (s'', restored) =
            restore_leave_state env cleared (snapshot_joined_session session) s' in
          (s'', restored, err error))
      else (s', cleared, err error)

unfoldable pub leave_current_room :
    LeaveContext
    → Env
    → LeaveRoomReason
    → Session
    → Service
    → Service × Session × Result LeaveAnswer
unfolding settle_leave recover_leave
leave_current_room ctx env reason session s = elim (truthy session.room_code) [
  | none ↦ (s, session, ok no_room)
  | some code ↦
      let (runtime, before) = Live.get_room (env.at 0) code s.runtime in
      let s1 = revoke_first env reason code session (with_runtime s runtime) in
      let (s2, removal) = give_up_seat ctx env code session before s1 in
      let (s3, resolved) = resolve_room (later 10 env) code (env.others 1 s2) in
      elim resolved [
        | err e ↦ recover_leave env session code e removal s3
        | ok found ↦ elim found [
          | none ↦ (s3, clear_session_room session, ok no_room)
          | some room ↦
              let (s4, answer) = settle_leave ctx env session room removal.removed s3 in
              (s4, clear_session_room session, ok answer)
        ]
      ]
]
