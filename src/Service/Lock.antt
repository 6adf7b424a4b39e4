-- ===== src/Service/Lock.antt =====
-- server/src/room-service.ts: acquireDistributedJoinLock, withRoomJoinLock and the whole of
-- joinRoomForSession. The queue of joins inside one process is a wait, in which anything may happen.
-- `tokens` are the random tokens of the rounds. A round that finds the lock taken sleeps and tries
-- again until the deadline; the loop runs on fuel, and the answer is `none` if that runs out.
use bili_sync_play.Prelude.{
  Option, String, if◌then◌else◌, leb, ltb, none, some, suc, zero, ℕ, ◌*◌, ◌+◌,
}
use bili_sync_play.Session.{Session}
use bili_sync_play.Runtime.Slots.{acquire_room_lock, release_room_lock}
use bili_sync_play.Service.State.{
  Env, Result, Service, err, internal_error, later, ok, with_runtime,
}
use bili_sync_play.Service.Leave.{LeaveContext, client_request, leave_current_room}
use bili_sync_play.Service.Profile.{set_session_display_name}
use bili_sync_play.Service.Join.{JoinRequest}
use bili_sync_play.Service.Admission.{JoinAnswer, JoinContext, join_under_lock}
pub mod Laws

abbrev pub join_admission_lock_key : String
join_admission_lock_key = "join-admission"

abbrev pub join_admission_lock_ttl_ms : ℕ
join_admission_lock_ttl_ms = 30000

abbrev pub join_admission_lock_max_wait_ms : ℕ
join_admission_lock_max_wait_ms = 5000

abbrev pub join_admission_lock_retry_interval_ms : ℕ
join_admission_lock_retry_interval_ms = 25

pub record JoinAdmissionLock : Type 0 where
  pub token : String
  pub expires_at : ℕ

-- The rounds from the number `k` on, with the three readings of each: what the lock lasts from, the
-- store's clock, and the test of the deadline.
unfoldable pub acquire_from :
    Env → String → (ℕ → String) → ℕ → ℕ → ℕ → Service → Service × Option (Option JoinAdmissionLock)
acquire_from env code tokens deadline zero k s = (s, none)
acquire_from env code tokens deadline (suc fuel) k s =
    let expires_at = env.at (3 * k) + join_admission_lock_ttl_ms in
    let (locks, acquired) =
      acquire_room_lock (env.at (3 * k + 1)) code join_admission_lock_key (tokens k) expires_at
        s.runtime.owned_room_locks in
    let s' = with_runtime s (record s.runtime { owned_room_locks = locks }) in
    let rest = acquire_from env code tokens deadline fuel (k + 1) (env.others k s') in
    if acquired
    then (s', some (some (record { token = tokens k; expires_at = expires_at })))
    else if leb deadline (env.at (3 * k + 2))
    then (s', some none)
    else rest

unfoldable pub acquire_distributed_join_lock :
    Env → String → (ℕ → String) → ℕ → Service → Service × Option (Option JoinAdmissionLock)
unfolding acquire_from
acquire_distributed_join_lock env code tokens fuel s =
    acquire_from (later 1 env) code tokens (env.at 0 + join_admission_lock_max_wait_ms) fuel 0 s

-- The finally: a lock that has not ended by then is given back.
unfoldable pub release_join_lock : ℕ → String → JoinAdmissionLock → Service → Service
release_join_lock t code lock s =
    if ltb t lock.expires_at
    then with_runtime s (record s.runtime {
      owned_room_locks =
          (release_room_lock code join_admission_lock_key lock.token s.runtime.owned_room_locks).0;
    })
    else s

-- The join itself runs under the lock, with the lock's end; `env` has the readings of the lock, the
-- one with the number 0 at its release, and
-- `inner` those of the join.
unfoldable pub with_room_join_lock :
    JoinContext
    → Env
    → Env
    → (ℕ → String)
    → ℕ
    → Session
    → JoinRequest
    → Service
    → Service × Session × Option (Result JoinAnswer)
unfolding acquire_distributed_join_lock release_join_lock
with_room_join_lock ctx env inner tokens fuel session request before =
    let code = request.room_code in
    let (s, acquired) =
      acquire_distributed_join_lock (later 1 env) code tokens fuel (env.others 0 before) in
    elim acquired [
      | none ↦ (s, session, none)
      | some outcome ↦ elim outcome [
        | none ↦ (s, session, some (err internal_error))
        | some lock ↦
            let (s', joined, answer) =
              join_under_lock (record ctx { lock_expires_at = lock.expires_at }) inner session
                request s in
            (release_join_lock (env.at 0) code lock s', joined, some answer)
      ]
    ]

-- `lock_env`, `leave_env` and `env` are the readings and waits of the lock, of the leave and of the
-- join under the lock.
unfoldable pub join_room_for_session :
    JoinContext
    → LeaveContext
    → Env
    → Env
    → Env
    → (ℕ → String)
    → ℕ
    → Session
    → JoinRequest
    → Option String
    → Service
    → Service × Session × Option (Result JoinAnswer)
unfolding with_room_join_lock
join_room_for_session ctx leave lock_env leave_env env tokens fuel session request display_name s =
    let (named, session', _) = set_session_display_name session display_name s in
    let (s', left, answer) = leave_current_room leave leave_env client_request session' named in
    elim answer [
      | err e ↦ (s', left, some (err e))
      | ok _ ↦ with_room_join_lock ctx lock_env env tokens fuel left request s'
    ]
