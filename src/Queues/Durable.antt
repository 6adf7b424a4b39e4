-- ===== src/Queues/Durable.antt =====
-- server/src/retry-pacer.ts, delayFor, and server/src/durable-write-queue.ts, runWithRetries: one
-- write of the queue. What an attempt answers, and whether the queue is stopped or the write
-- superseded when that is looked at, is a parameter.
use bili_sync_play.Prelude.{
  Bool, List, [], if◌then◌else◌, min, suc, zero, ℕ, ◌*◌, ◌+◌, ◌-◌, ◌^◌, ◌∷◌,
}
pub mod Retries

unfoldable pub delay_for : ℕ → ℕ → ℕ → ℕ
delay_for initial_delay_ms max_delay_ms attempt =
    min (initial_delay_ms * 2 ^ (attempt - 1)) max_delay_ms

pub data Attempt : Type 0 where
  landed failed non_retryable : Attempt

-- What one write meets; the attempts count from 1.
pub record World : Type 0 where
  pub answer : ℕ → Attempt
  pub stopped_at_start : Bool
  pub stopped_after : ℕ → Bool
  pub superseded_after : ℕ → Bool
  pub superseded_once_waited : ℕ → Bool
  pub stopped_once_waited : ℕ → Bool

pub record Options : Type 0 where
  pub retries : ℕ  -- maxAttempts less the first one
  pub initial_retry_delay_ms : ℕ
  pub max_retry_delay_ms : ℕ

pub data Outcome : Type 0 where
  confirmed dropped superseded refused gave_up : Outcome

-- How the write ended, the attempts that were made, and the delays that were scheduled.
pub record Report : Type 0 where
  pub outcome : Outcome
  pub attempts : ℕ
  pub delays : List ℕ

-- What follows a failed attempt that is not the last one; `rest` is the turn after it.
unfoldable pub retry : Options → World → ℕ → Report → Report
unfolding delay_for
retry o w attempt rest =
    let delay_ms = delay_for o.initial_retry_delay_ms o.max_retry_delay_ms attempt in
    if w.stopped_after attempt
    then record { outcome = gave_up; attempts = attempt; delays = [] }
    else if w.superseded_after attempt
    then record { outcome = superseded; attempts = attempt; delays = [] }
    else if w.superseded_once_waited attempt
    then record { outcome = superseded; attempts = attempt; delays = delay_ms ∷ [] }
    else if w.stopped_once_waited attempt
    then record { outcome = gave_up; attempts = attempt; delays = delay_ms ∷ [] }
    else record rest { delays = delay_ms ∷ rest.delays }

-- The loop from the attempt with the number `attempt` on, with `left` attempts after it.
unfoldable pub attempts_from : Options → World → ℕ → ℕ → Report
unfolding retry
attempts_from o w zero attempt = elim (w.answer attempt) [
  | landed ↦ record { outcome = confirmed; attempts = attempt; delays = [] }
  | non_retryable ↦ record { outcome = refused; attempts = attempt; delays = [] }
  | failed ↦ record { outcome = gave_up; attempts = attempt; delays = [] }
]
attempts_from o w (suc left) attempt =
    let rest = attempts_from o w left (attempt + 1) in
    elim (w.answer attempt) [
      | landed ↦ record { outcome = confirmed; attempts = attempt; delays = [] }
      | non_retryable ↦ record { outcome = refused; attempts = attempt; delays = [] }
      | failed ↦ retry o w attempt rest
    ]

unfoldable pub run_with_retries : Options → World → Report
unfolding attempts_from
run_with_retries o w =
    if w.stopped_at_start
    then record { outcome = dropped; attempts = 0; delays = [] }
    else attempts_from o w o.retries 1
