-- ===== src/Queues/Durable/Retries.antt =====
-- How often a write is tried, and what its answer means: theorems on Queues/Durable.antt.
use bili_sync_play.Prelude.{
  All, Bool-cases, arith, false, inl, inr, length, refl, subst, suc, sym, zero, ℕ, ◌+◌, ◌<◌, ◌↔◌,
  ◌∷◌, ◌≡◌, ◌≢◌, ◌≤◌, ◌⊎◌,
}
use bili_sync_play.Queues.Durable.{
  Attempt, Options, Report, World, attempts_from, confirmed, delay_for, dropped, failed, landed,
  non_retryable, retry, run_with_retries,
}

delay_for-le :
    (initial_delay_ms max_delay_ms attempt : ℕ)
    → delay_for initial_delay_ms max_delay_ms attempt ≤ max_delay_ms
unfolding delay_for
delay_for-le initial_delay_ms max_delay_ms attempt = omega arith

-- The write was tried, and its report is about the attempts from `first` on.
pub record IsHonest (o : Options) (w : World) (left first : ℕ) (r : Report) : Type 0 where
  pub tried : first ≤ r.attempts
  pub few : r.attempts ≤ first + left
  pub kept : r.outcome ≢ dropped
  pub landing : (r.outcome ≡ confirmed) ↔ (w.answer r.attempts ≡ landed)
  pub failures : (n : ℕ) → first ≤ n → n < r.attempts → w.answer n ≡ failed
  pub paced : All (λ d. d ≤ o.max_retry_delay_ms) r.delays
  pub waits : length r.delays ≤ left

-- The write ends with the attempt that it is at.
ended-IsHonest :
    (o : Options) (w : World) (left attempt : ℕ) (r : Report)
    → r.attempts ≡ attempt
    → r.outcome ≢ dropped
    → ((r.outcome ≡ confirmed) ↔ (w.answer attempt ≡ landed))
    → All (λ d. d ≤ o.max_retry_delay_ms) r.delays
    → length r.delays ≤ left
    → IsHonest o w left attempt r
ended-IsHonest o w left attempt r here kept landing paced waits = record {
  tried = omega arith;
  few = omega arith;
  kept = kept;
  landing = rw here landing;
  failures = λ n a b. absurd (omega arith);
  paced = paced;
  waits = waits;
}

-- The attempt failed, and after a delay the write goes on with the next one.
onward-IsHonest :
    (o : Options) (w : World) (left attempt d : ℕ) (r : Report)
    → w.answer attempt ≡ failed
    → d ≤ o.max_retry_delay_ms
    → IsHonest o w left (attempt + 1) r
    → IsHonest o w (suc left) attempt (record r { delays = d ∷ r.delays })
onward-IsHonest o w left attempt d r e low h = record {
  tried = let t = h.tried in omega arith;
  few = let t = h.few in omega arith;
  kept = h.kept;
  landing = h.landing;
  failures = λ n a b. elim (Nat_cases attempt n a) [
    | inl here ↦ rw (← here) e
    | inr more ↦ h.failures n more b
  ];
  paced = (low, h.paced);
  waits = let t = h.waits in omega arith;
}
  where
    Nat_cases : (a n : ℕ) → a ≤ n → (a ≡ n) ⊎ (a + 1 ≤ n)
    Nat_cases a n l = ground arith

retry-IsHonest :
    (o : Options) (w : World) (left attempt : ℕ) (rest : Report)
    → w.answer attempt ≡ failed
    → IsHonest o w left (attempt + 1) rest
    → IsHonest o w (suc left) attempt (retry o w attempt rest)
unfolding retry
retry-IsHonest o w left attempt rest e h =
    let d = delay_for o.initial_retry_delay_ms o.max_retry_delay_ms attempt in
    let low = delay_for-le o.initial_retry_delay_ms o.max_retry_delay_ms attempt in
    let ended = λ (r : Report). ended-IsHonest o w (suc left) attempt r in
    elim (Bool-cases (w.stopped_after attempt)) [
      | inl a ↦ rw a (ended _ refl (ground arith) (ground (arith, e)) tt (omega arith))
      | inr a ↦ elim (Bool-cases (w.superseded_after attempt)) [
        | inl b ↦ rw (a, b) (ended _ refl (ground arith) (ground (arith, e)) tt (omega arith))
        | inr b ↦ elim (Bool-cases (w.superseded_once_waited attempt)) [
          | inl c ↦
              rw (a, b, c) (ended _ refl (ground arith) (ground (arith, e)) (low, tt) (omega arith))
          | inr c ↦ elim (Bool-cases (w.stopped_once_waited attempt)) [
            | inl s ↦
                rw (a, b, c, s)
                  (ended _ refl (ground arith) (ground (arith, e)) (low, tt) (omega arith))
            | inr s ↦ rw (a, b, c, s) (onward-IsHonest o w left attempt d rest e low h)
          ]
        ]
      ]
    ]

attempts_from-IsHonest :
    (o : Options) (w : World) (left attempt : ℕ)
    → IsHonest o w left attempt (attempts_from o w left attempt)
unfolding attempts_from retry
attempts_from-IsHonest o w zero attempt = go (w.answer attempt) refl
  where
    go :
        (a : Attempt)
        → w.answer attempt ≡ a
        → IsHonest o w zero attempt (attempts_from o w zero attempt)
    go landed e =
        ended-IsHonest o w zero attempt _ (ground (arith, e)) (ground (arith, e))
          (ground (arith, e)) (ground (arith, e)) (ground (arith, e))
    go non_retryable e =
        ended-IsHonest o w zero attempt _ (ground (arith, e)) (ground (arith, e))
          (ground (arith, e)) (ground (arith, e)) (ground (arith, e))
    go failed e =
        ended-IsHonest o w zero attempt _ (ground (arith, e)) (ground (arith, e))
          (ground (arith, e)) (ground (arith, e)) (ground (arith, e))
attempts_from-IsHonest o w (suc left) attempt =
    go (attempts_from-IsHonest o w left (attempt + 1)) (w.answer attempt) refl
  where
    go :
        IsHonest o w left (attempt + 1) (attempts_from o w left (attempt + 1))
        → (a : Attempt) → w.answer attempt ≡ a
        → IsHonest o w (suc left) attempt (attempts_from o w (suc left) attempt)
    go h landed e =
        ended-IsHonest o w (suc left) attempt _ (ground (arith, e)) (ground (arith, e))
          (ground (arith, e)) (ground (arith, e)) (ground (arith, e))
    go h non_retryable e =
        ended-IsHonest o w (suc left) attempt _ (ground (arith, e)) (ground (arith, e))
          (ground (arith, e)) (ground (arith, e)) (ground (arith, e))
    go h failed e =
        rw (attempts_from, e)
          (retry-IsHonest o w left attempt (attempts_from o w left (attempt + 1)) e h)

-- A write that the queue has not been told to stop is tried once at least and `retries` times again
-- at most. It is confirmed exactly if its last attempt landed; every attempt before the last one
-- failed in a way that may be retried; and each delay between attempts is within the ceiling.
pub run_with_retries-IsHonest :
    (o : Options) (w : World)
    → w.stopped_at_start ≡ false
    → IsHonest o w o.retries 1 (run_with_retries o w)
unfolding run_with_retries
run_with_retries-IsHonest o w running =
    let whole : run_with_retries o w ≡ attempts_from o w o.retries 1 = ground (arith, running) in
    subst (IsHonest o w o.retries 1) (sym whole) (attempts_from-IsHonest o w o.retries 1)
