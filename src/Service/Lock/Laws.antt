-- ===== src/Service/Lock/Laws.antt =====
-- How long a join waits for its turn: theorems on Service/Lock.antt.
use bili_sync_play.Prelude.{
  Bool-cases, String, arith, inl, inr, leb, none, refl, some, suc, zero, ℕ, ◌*◌, ◌+◌, ◌<◌, ◌≡◌, ◌≢◌,
  ◌≤◌,
}
use bili_sync_play.Prelude.Dict
use bili_sync_play.Session.{Session}
use bili_sync_play.Runtime.Slots.{Slot, acquire_room_lock, room_slots}
use bili_sync_play.Runtime.Slots.Laws.{acquire_room_lock-refused, slot_of}
use bili_sync_play.Service.State.{Env, Service, alone, err, internal_error, later, with_runtime}
use bili_sync_play.Service.Join.{JoinRequest}
use bili_sync_play.Service.Admission.{JoinContext}
use bili_sync_play.Service.Lock.{
  acquire_distributed_join_lock, acquire_from, join_admission_lock_key,
  join_admission_lock_max_wait_ms, join_admission_lock_retry_interval_ms,
  join_admission_lock_ttl_ms, with_room_join_lock,
}

-- The rounds that the wait has at most, with one at its start.
abbrev pub enough_rounds : ℕ
enough_rounds = 201

acquire_from-ends :
    (env : Env) (code : String) (tokens : ℕ → String) (start fuel k : ℕ) (s : Service)
    → ((n : ℕ) → start + join_admission_lock_retry_interval_ms * n ≤ env.at (3 * n + 2))
    → enough_rounds ≤ k + fuel
    → k < enough_rounds
    → (acquire_from env code tokens (start + join_admission_lock_max_wait_ms) fuel k s).1 ≢ none
unfolding acquire_from
acquire_from-ends env code tokens start zero k s clock enough low = absurd (omega arith)
acquire_from-ends env code tokens start (suc fuel) k s clock enough low =
    let (locks, _) =
      acquire_room_lock (env.at (3 * k + 1)) code join_admission_lock_key (tokens k)
        (env.at (3 * k) + join_admission_lock_ttl_ms) s.runtime.owned_room_locks in
    let s' = env.others k (with_runtime s (record s.runtime { owned_room_locks = locks })) in
    ground (arith, clock k, acquire_from-ends env code tokens start fuel (k + 1) s' clock)

-- A join does not wait for ever: whatever others do meanwhile, and whoever holds the lock, if the
-- test of the deadline in round `n` comes no earlier than `n` pauses after the start, the wait ends
-- within 201 rounds, with the lock or without it.
pub acquire_distributed_join_lock_ends :
    (env : Env) (code : String) (tokens : ℕ → String) (s : Service)
    → ((n : ℕ) → env.at 0 + join_admission_lock_retry_interval_ms * n ≤ env.at (3 * n + 2 + 1))
    → (acquire_distributed_join_lock env code tokens enough_rounds s).1 ≢ none
unfolding acquire_distributed_join_lock
acquire_distributed_join_lock_ends env code tokens s clock =
    acquire_from-ends (later 1 env) code tokens (env.at 0) enough_rounds 0 s clock (omega arith)
      (omega arith)

-- What a wait at a held lock leaves: the lock itself, and everything else but other locks' rests.
pub record IsLockedOut (code : String) (held : Slot) (s s' : Service) : Type 0 where
  pub rooms : s'.rooms ≡ s.rooms
  pub live : s'.runtime.rooms ≡ s.runtime.rooms
  pub lock : slot_of s'.runtime.owned_room_locks code join_admission_lock_key ≡ some held

acquire_from-held :
    (at : ℕ → ℕ) (code : String) (tokens : ℕ → String) (held : Slot) (start fuel k : ℕ)
    (s : Service)
    → ((n : ℕ) → start + join_admission_lock_retry_interval_ms * n ≤ at (3 * n + 2))
    → ((n : ℕ) → n < enough_rounds → at (3 * n + 1) < held.expires_at)
    → enough_rounds ≤ k + fuel
    → k < enough_rounds
    → Dict.IsDistinct (room_slots code s.runtime.owned_room_locks)
    → slot_of s.runtime.owned_room_locks code join_admission_lock_key ≡ some held
    → let (s', outcome) =
        acquire_from (alone at) code tokens (start + join_admission_lock_max_wait_ms) fuel k s in
      (outcome ≡ some none) × IsLockedOut code held s s'
unfolding acquire_from
acquire_from-held at code tokens held start zero k s clock lasts enough low d h =
    absurd (omega arith)
acquire_from-held at code tokens held start (suc fuel) k s clock lasts enough low d h =
    let (locks, _) =
      acquire_room_lock (at (3 * k + 1)) code join_admission_lock_key (tokens k)
        (at (3 * k) + join_admission_lock_ttl_ms) s.runtime.owned_room_locks in
    let s' = with_runtime s (record s.runtime { owned_room_locks = locks }) in
    let (refused, kept, distinct) =
      acquire_room_lock-refused (at (3 * k + 1)) code join_admission_lock_key (tokens k)
        (at (3 * k) + join_admission_lock_ttl_ms) s.runtime.owned_room_locks held d h
        (lasts k low) in
    let deadline = start + join_admission_lock_max_wait_ms in
    elim (Bool-cases (leb deadline (at (3 * k + 2)))) [
      | inl over ↦ (
        ground (arith, refused, over),
        record {
          rooms = ground (arith, refused, over);
          live = ground (arith, refused, over);
          lock = ground (arith, refused, over, kept);
        },
      )
      | inr early ↦
          let on : k + 1 < enough_rounds = ground (arith, clock k, early) in
          let (ended, out) =
            acquire_from-held at code tokens held start fuel (k + 1) s' clock lasts (omega arith) on
              distinct kept in
          (
            ground (arith, refused, early, ended),
            record {
              rooms = ground (arith, refused, early, out.rooms);
              live = ground (arith, refused, early, out.live);
              lock = ground (arith, refused, early, out.lock);
            },
          )
    ]

acquire_distributed_join_lock-held :
    (at : ℕ → ℕ) (code : String) (tokens : ℕ → String) (held : Slot) (s : Service)
    → ((n : ℕ) → at 1 + join_admission_lock_retry_interval_ms * n ≤ at (3 * n + 2 + 1 + 1))
    → ((n : ℕ) → n < enough_rounds → at (3 * n + 1 + 1 + 1) < held.expires_at)
    → Dict.IsDistinct (room_slots code s.runtime.owned_room_locks)
    → slot_of s.runtime.owned_room_locks code join_admission_lock_key ≡ some held
    → let (s', outcome) =
        acquire_distributed_join_lock (later 1 (alone at)) code tokens enough_rounds s in
      (outcome ≡ some none) × IsLockedOut code held s s'
unfolding acquire_distributed_join_lock
acquire_distributed_join_lock-held at code tokens held s clock lasts d h =
    acquire_from-held (λ n. at (n + 1 + 1)) code tokens held (at 1) enough_rounds 0 s clock lasts
      (omega arith) (omega arith) d h

-- A join is one at a time: while somebody holds the room's lock for as long as a join may wait for
-- it, and nobody else acts, the join that waits is refused with an internal error, and the stored
-- rooms, the seats and tokens, and the lock are as they were; the keys of the room's locks are
-- distinct, and the deadline is tested no earlier in round `n` than `n` pauses after the start.
pub with_room_join_lock-held :
    (ctx : JoinContext) (at : ℕ → ℕ) (inner : Env) (tokens : ℕ → String) (session : Session)
    (request : JoinRequest) (held : Slot) (s : Service)
    → ((n : ℕ) → at 1 + join_admission_lock_retry_interval_ms * n ≤ at (3 * n + 2 + 1 + 1))
    → ((n : ℕ) → n < enough_rounds → at (3 * n + 1 + 1 + 1) < held.expires_at)
    → Dict.IsDistinct (room_slots request.room_code s.runtime.owned_room_locks)
    → slot_of s.runtime.owned_room_locks request.room_code join_admission_lock_key ≡ some held
    → let (s', session', answer) =
        with_room_join_lock ctx (alone at) inner tokens enough_rounds session request s in
      (answer ≡ some (err internal_error))
      × (session' ≡ session)
      × IsLockedOut request.room_code held s s'
unfolding with_room_join_lock
with_room_join_lock-held ctx at inner tokens session request held s clock lasts d h =
    let (ended, out) =
      acquire_distributed_join_lock-held at request.room_code tokens held s clock lasts d h in
    (
      rw (with_room_join_lock, ended) refl,
      rw (with_room_join_lock, ended) refl,
      rw (with_room_join_lock, ended) out,
    )
