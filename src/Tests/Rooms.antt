-- ===== src/Tests/Rooms.antt =====
-- Rooms that are created, joined and left, and the messages about them, at concrete inputs.
use bili_sync_play.Prelude.{
  [], arith, false, none, refl, some, true, ℕ, ◌*◌, ◌++◌, ◌+◌, ◌∷◌, ◌≡◌, ◌≢◌,
}
use bili_sync_play.Prelude.Tests.{text_discrete}
use bili_sync_play.Prelude.Dict
use bili_sync_play.Protocol.Messages.{room_create, sync_ping}
use bili_sync_play.Session.{Session}
use bili_sync_play.RateLimit.{create_session_rate_limit_state}
use bili_sync_play.RoomStore.{create_persisted_room, create_room, get_room}
use bili_sync_play.Service.State.{clear_session_room}
use bili_sync_play.Runtime.Slots.{Slot}
use bili_sync_play.Runtime.Store.{Runtime}
use bili_sync_play.Runtime.Store as Live
use bili_sync_play.Runtime.Store.Generations.{IsCleared}
use bili_sync_play.Runtime.Sessions.{mark_session_joined_room, register_session}
use bili_sync_play.Runtime.Sessions.Laws.{seated}
use bili_sync_play.Runtime.Sessions.Reach.{
  IsSeatedOnce, Reaches-IsSeatedOnce, here, joined, onward, registered,
}
use bili_sync_play.Service.State.{Service, alone, err, internal_error, ok}
use bili_sync_play.Service.Resolve.{resolve_room}
use bili_sync_play.Service.Leave.{LeaveContext, client_request, leave_current_room}
use bili_sync_play.Service.Leave.Laws.{
  IsSettled, abandoned_room_is_collected, leave_current_room-IsSettled,
}
use bili_sync_play.Service.Create.{CreateAnswer, CreateContext, create_and_seat}
use bili_sync_play.Service.Create.Laws.{MayAct, creator-MayAct}
use bili_sync_play.Service.Join.{JoinRequest}
use bili_sync_play.Service.Admission.{JoinContext}
use bili_sync_play.Service.Lock.{acquire_distributed_join_lock, with_room_join_lock}
use bili_sync_play.Service.Lock.Laws.{
  IsLockedOut, acquire_distributed_join_lock_ends, enough_rounds, with_room_join_lock-held,
}
use bili_sync_play.Messages.{Context, Turn}
use bili_sync_play.Messages.Handle.{handle_client_message}
use bili_sync_play.Messages.Answers.{entry_is_answered_once}
use bili_sync_play.Messages.Answers.Steps.{verdicts}
use bili_sync_play.Messages.Limits.{notice, over_limit_is_harmless}
use bili_sync_play.Messages.App.{Wiring, app_hooks, app_service}
use bili_sync_play.Tests.Values.{clock, room, runtime, service, session_of}

abbrev ann : Session
ann = session_of "a"

abbrev leaving : LeaveContext
leaving = record { retention_ms = 1800000; empty_room_ttl_ms = 600000 }

leave_current_room-IsSettled_example :
    let (s', session', _) = leave_current_room leaving (alone clock) client_request ann service in
    (session' ≡ clear_session_room ann) × IsSettled leaving clock room [] service s'
unfolding Dict.get text_discrete Dict.remove
leave_current_room-IsSettled_example =
    leave_current_room-IsSettled leaving clock client_request "a" ann room service refl refl refl
      refl refl

-- A clock that shows an hour later.
abbrev late : ℕ → ℕ
late n = n + 3602000

abandoned_room_is_collected_example :
    let s1 = (leave_current_room leaving (alone clock) client_request ann service).0 in
    let (s2, found) = resolve_room (alone late) "R" s1 in
    (found ≡ ok none)
    × (get_room "R" s2.rooms ≡ none)
    × ((Live.has_room_residue 3700000 "R" s2.runtime).1 ≡ false)
    × IsCleared "R" s2.runtime
unfolding Dict.get text_discrete Dict.remove
abandoned_room_is_collected_example =
    abandoned_room_is_collected leaving clock late client_request "a" ann room service 3700000 refl
      refl refl refl refl refl refl (ground arith) (ground arith)

abbrev creating : CreateContext
creating = record {
  leave = leaving;
  codes = λ _. "S";
  tokens = λ _. "J2";
  generation = "g2";
  member_token = "new";
}

abbrev bob : Session
bob = record (session_of "b") {
  room_code = none;
  member_id = none;
  member_token = none;
  joined_at = none;
}

abbrev created : CreateAnswer
created = record {
  room = record {
    code = "S";
    join_token = "J2";
    created_at = 2011;
    owner_member_id = some "b";
    owner_display_name = some "b";
    shared_video = none;
    playback = none;
    version = 0;
    last_active_at = 2011;
    expires_at = none;
  };
  member_token = "new";
}

creator-MayAct_example :
    let (s', seated, _) = create_and_seat creating (alone clock) bob service in
    MayAct creating late service created s' seated
unfolding create_and_seat text_discrete Dict.get Live.has_room_residue
    Live.prune_expired_member_tokens create_room Live.mark_room_generation create_persisted_room
creator-MayAct_example =
    creator-MayAct creating clock late bob service created (λ _. refl) refl refl refl

abbrev empty : Runtime
empty = record runtime { rooms = []; room_generations = [] }

abbrev moved : Runtime
moved =
    mark_session_joined_room "b" "S"
      (register_session bob (mark_session_joined_room "b" "R" (register_session bob empty)))

Reaches-IsSeatedOnce_example : IsSeatedOnce moved
unfolding Dict.get
Reaches-IsSeatedOnce_example =
    Reaches-IsSeatedOnce empty moved (λ code other id h k. absurd (ground arith))
      (onward
        (onward
          (onward (onward here (registered empty bob))
            (joined (register_session bob empty) "b" "R"))
          (registered (mark_session_joined_room "b" "R" (register_session bob empty)) bob))
        (joined
          (register_session bob (mark_session_joined_room "b" "R" (register_session bob empty))) "b"
          "S"))

-- A clock that moves on by a second with each reading.
abbrev slow : ℕ → ℕ
slow n = n * 1000

acquire_distributed_join_lock_ends_example :
    (acquire_distributed_join_lock (alone slow) "R" (λ _. "x") enough_rounds service).1 ≢ none
acquire_distributed_join_lock_ends_example =
    acquire_distributed_join_lock_ends (alone slow) "R" (λ _. "x") service (λ n. ground arith)

abbrev held : Slot
held = record { token = "y"; expires_at = 9000000 }

abbrev locked : Service
locked = record service {
  runtime = record runtime { owned_room_locks = ("R", ("join-admission", held) ∷ []) ∷ [] };
}

abbrev joining : JoinContext
joining = record {
  max_members = 2;
  retention_ms = 1800000;
  lock_expires_at = 9000;
  fresh_token = "new";
}

abbrev request : JoinRequest
request = record { room_code = "R"; join_token = "J"; previous_member_token = none }

with_room_join_lock-held_example :
    let (s', session', answer) =
      with_room_join_lock joining
        (alone slow)
        (alone clock)
        (λ _. "x")
        enough_rounds
        bob
        request
        locked in
    (answer ≡ some (err internal_error)) × (session' ≡ bob) × IsLockedOut "R" held locked s'
unfolding Dict.get text_discrete
with_room_join_lock-held_example =
    with_room_join_lock-held joining slow (alone clock) (λ _. "x") bob request held locked
      (λ n. ground arith) (λ n h. ground (arith, h)) (refl, tt) refl

abbrev wiring : Wiring
wiring = record {
  create = creating;
  join = joining;
  leave = leaving;
  env = alone clock;
  leave_env = alone clock;
  lock_env = alone slow;
  lock_tokens = λ _. "x";
  fuel = enough_rounds;
  dedup_token = "slot";
  trim = λ name. name;
  normalize = λ url. some url;
}

-- The handler as the application wires it, with a limit of ten for everything.
abbrev handling : Context
handling = record {
  rate_limits = record {
    room_create_per_minute = 10;
    room_join_per_minute = 10;
    video_share_per_10_seconds = 10;
    playback_update_per_second = 10;
    playback_update_burst = 10;
    sync_request_per_10_seconds = 10;
    sync_ping_per_second = 10;
    sync_ping_burst = 10;
  };
  service = app_service wiring;
  hooks = app_hooks;
  admits = λ _. true;
  rollback_in_time = true;
  at = clock;
}

abbrev turn : Turn
turn = record { state = service; session = bob; outputs = [] }

entry_is_answered_once_example :
    verdicts (handle_client_message handling (room_create none) turn).outputs ≡ verdicts [] + 1
entry_is_answered_once_example = entry_is_answered_once handling (room_create none) turn refl

-- One who pinged ten times in the same moment.
abbrev exhausted : Turn
exhausted = record turn {
  session = record bob { rate_limit_state = create_session_rate_limit_state 10 0 2000 };
}

over_limit_is_harmless_example :
    let after = handle_client_message handling (sync_ping 7) exhausted in
    (after.state ≡ service)
    × (after.outputs ≡ [] ++ notice (sync_ping 7))
    × (after.session
        ≡ record exhausted.session { rate_limit_state = after.session.rate_limit_state })
over_limit_is_harmless_example =
    over_limit_is_harmless handling (sync_ping 7) exhausted (ground arith)
