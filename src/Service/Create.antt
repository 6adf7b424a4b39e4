-- ===== src/Service/Create.antt =====
-- server/src/room-service.ts, createRoomForSession with expireOrphanedRoom and runOrphanExpiry. Parameters: `codes` and `tokens` are what nextRoomCode and generateToken return
-- on each attempt, `generation` the random generation and `display_name` the trimmed name. The
-- in-memory store answers every call, and a code that is taken is what it throws about.
use bili_sync_play.Prelude.{
  Bool, Option, String, false, if◌then◌else◌, none, same, some, suc, true, truthy, zero, ℕ, ◌+◌,
}
use bili_sync_play.Prelude.Dict
use bili_sync_play.Session.{Session}
use bili_sync_play.RoomStore.{
  CreatePersistedRoomInput, PersistedRoom, at_instance, create_room, empty_patch, not_found,
  update_room, updated, version_conflict,
}
use bili_sync_play.Runtime.Rooms.{}
use bili_sync_play.Runtime.Store as Live
use bili_sync_play.Service.State.{
  Env, Result, Service, err, internal_error, later, ok, with_rooms, with_runtime,
}
use bili_sync_play.Service.Profile.{set_session_display_name}
use bili_sync_play.Service.Leave.{LeaveContext, client_request, leave_current_room}
pub mod Laws

pub record CreateContext : Type 0 where
  pub leave : LeaveContext
  pub codes : ℕ → String
  pub tokens : ℕ → String
  pub generation : String
  pub member_token : String

pub record CreateAnswer : Type 0 where
  pub room : PersistedRoom
  pub member_token : String

abbrev pub max_create_attempts : ℕ
max_create_attempts = 5

-- The attempts from the number `n` on: a code is taken only if nothing is left under it in the
-- runtime, and no room in the store.
unfoldable pub claim_code :
    CreateContext → Env → Session → ℕ → ℕ → ℕ → Service → Service × Option PersistedRoom
claim_code ctx env session created_at zero n s = (s, none)
claim_code ctx env session created_at (suc attempts) n s =
    let code = ctx.codes n in
    let (runtime, dirty) = Live.has_room_residue (env.at n) code s.runtime in
    let s' = env.others n (with_runtime s runtime) in
    let input : CreatePersistedRoomInput = record {
      code = code;
      join_token = ctx.tokens n;
      created_at = created_at;
      owner_member_id = some session.id;
      owner_display_name = some session.display_name;
    } in
    let next = claim_code ctx env session created_at attempts (n + 1) s' in
    if dirty then next else elim (create_room input s'.rooms) [
      | none ↦ next
      | some (rooms, room) ↦ (with_rooms s' rooms, some room)
    ]

abbrev pub room_rollback_max_attempts : ℕ
room_rollback_max_attempts = 3

-- The rollback is pinned to the room instance, so that only a concurrent change makes it try again.
unfoldable pub run_orphan_expiry : Env → PersistedRoom → ℕ → Service → Service
run_orphan_expiry env target zero s = s
run_orphan_expiry env target (suc attempts) before =
    let s = env.others (attempts + 20) before in
    let (rooms, result) =
      update_room (env.at (attempts + 20)) target.code (at_instance target.join_token none)
        (record empty_patch { expires_at = some (some (env.at (attempts + 20))) }) s.rooms in
    let again = run_orphan_expiry env target attempts (with_rooms s rooms) in
    elim result [
      | updated _ ↦ with_rooms s rooms
      | not_found ↦ with_rooms s rooms
      | version_conflict ↦ again
    ]

unfoldable pub expire_orphaned_room : Env → PersistedRoom → Service → Service
unfolding run_orphan_expiry
expire_orphaned_room env target s =
    if s.closing then s else run_orphan_expiry env target room_rollback_max_attempts s

-- The session that created the room takes its first seat.
abbrev pub seated_creator : CreateContext → ℕ → PersistedRoom → Session → Session
seated_creator ctx created_at room session = record session {
  member_id = some session.id;
  room_code = some room.code;
  member_token = some ctx.member_token;
  joined_at = some created_at;
}

-- The stamp of the new generation, on the one that was read, and the seat.
unfoldable pub stamp_and_seat :
    CreateContext
    → Env
    → Session
    → ℕ
    → PersistedRoom
    → Service
    → Service × Session × Result CreateAnswer
unfolding expire_orphaned_room
stamp_and_seat ctx env session created_at room s =
    let pinned = Live.get_room_generation room.code s.runtime in
    let s' = env.others 10 s in
    let (runtime, stamped) = Live.mark_room_generation room.code ctx.generation pinned s'.runtime in
    let s'' = env.others 11 (with_runtime s' runtime) in
    if stamped
    then (
      with_runtime s''
          (Live.add_member (env.at 10) room.code session.id session.id ctx.member_token
            s''.runtime).0,
      seated_creator ctx created_at room session,
      ok (record { room = room; member_token = ctx.member_token }),
    )
    else (expire_orphaned_room env room s'', session, err internal_error)

-- What follows the leave.
unfoldable pub create_and_seat :
    CreateContext → Env → Session → Service → Service × Session × Result CreateAnswer
unfolding claim_code stamp_and_seat
create_and_seat ctx env session s =
    let created_at = env.at 11 in
    let (s', claimed) = claim_code ctx env session created_at max_create_attempts 0 s in
    elim claimed [
      | none ↦ (s', session, err internal_error)
      | some room ↦ stamp_and_seat ctx env session created_at room s'
    ]

unfoldable pub create_room_for_session :
    CreateContext
    → Env
    → Session
    → Option String
    → Service
    → Service × Session × Result CreateAnswer
create_room_for_session ctx env session display_name s =
    let (s0, named, _) = set_session_display_name session display_name s in
    let (s', left, answer) = leave_current_room ctx.leave (later 40 env) client_request named s0 in
    elim answer [ err e ↦ (s', left, err e) | ok _ ↦ create_and_seat ctx env left s' ]
