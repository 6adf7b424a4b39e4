-- ===== src/RateLimit/Laws.antt =====
-- How many requests the limiters of RateLimit.antt let through.
use bili_sync_play.Prelude.{
  All, List, [], arith, if◌then◌else◌, leb, ℕ, ◌*◌, ◌+◌, ◌-◌, ◌<◌, ◌∷◌, ◌≡◌, ◌≤◌,
}
use bili_sync_play.RateLimit.{
  TokenBucket, WindowCounter, consume_fixed_window, consume_token_bucket,
}

-- The requests at the given times, in order: how many are admitted.
abbrev pub admitted_by_window : ℕ → ℕ → WindowCounter → List ℕ → ℕ
admitted_by_window limit window_ms c [] = 0
admitted_by_window limit window_ms c (t ∷ ts) =
    let (c', ok) = consume_fixed_window c limit window_ms t in
    (if ok then 1 else 0) + admitted_by_window limit window_ms c' ts

abbrev pub admitted_by_bucket : ℕ → ℕ → TokenBucket → List ℕ → ℕ
admitted_by_bucket rate capacity b [] = 0
admitted_by_bucket rate capacity b (t ∷ ts) =
    let (b', ok) = consume_token_bucket b rate capacity t in
    (if ok then 1 else 0) + admitted_by_bucket rate capacity b' ts

-- The times do not fall, and lie between the first number and the second.
abbrev pub IsAscending : ℕ → ℕ → List ℕ → Type 0
IsAscending from to [] = from ≤ to
IsAscending from to (t ∷ ts) = (from ≤ t) × IsAscending t to ts

module _ (limit window_ms s : ℕ) where
  -- what is left of the current window, and a whole further one if it can still begin in time
  abbrev pub allowance : WindowCounter → ℕ
  allowance c = (limit - c.count) + (if leb s c.window_start then 0 else limit)

  admitted-le-allowance :
      (c : WindowCounter) (ts : List ℕ)
      → All (λ t. (s ≤ t) × (t < s + window_ms)) ts
      → admitted_by_window limit window_ms c ts ≤ allowance c
  unfolding consume_fixed_window
  admitted-le-allowance c [] h = omega arith
  admitted-le-allowance c (t ∷ ts) h =
      ground (arith, admitted-le-allowance (consume_fixed_window c limit window_ms t).0 ts h.1)

-- In no span of `window_ms` are more than twice `limit` requests admitted, whatever the counter
-- held before and in whatever order the clock gives the times.
pub admitted_by_window-le :
    (limit window_ms s : ℕ) (c : WindowCounter) (ts : List ℕ)
    → All (λ t. (s ≤ t) × (t < s + window_ms)) ts
    → admitted_by_window limit window_ms c ts ≤ 2 * limit
admitted_by_window-le limit window_ms s c ts h =
    ground (arith, admitted-le-allowance limit window_ms s c ts h)

split_product : (rate a b c : ℕ) → c ≡ a + b → c * rate ≡ a * rate + b * rate
split_product rate a b c e = rw e (omega arith)

bucket_step :
    (rate capacity t to : ℕ) (b : TokenBucket)
    → b.last_refill_at ≤ t
    → t ≤ to
    → (if (consume_token_bucket b rate capacity t).1 then 1000 else 0)
        + ((consume_token_bucket b rate capacity t).0.tokens + (to - t) * rate)
      ≤ b.tokens + (to - b.last_refill_at) * rate
unfolding consume_token_bucket
bucket_step rate capacity t to b h k =
    let e : (to - b.last_refill_at) * rate ≡ (t - b.last_refill_at) * rate + (to - t) * rate =
      split_product rate (t - b.last_refill_at) (to - t) (to - b.last_refill_at) (omega arith) in
    ground arith

consume-last_refill_at :
    (rate capacity t : ℕ) (b : TokenBucket)
    → (consume_token_bucket b rate capacity t).0.last_refill_at ≡ t
unfolding consume_token_bucket
consume-last_refill_at rate capacity t b = ground arith

IsAscending-le : (from to : ℕ) (ts : List ℕ) → IsAscending from to ts → from ≤ to
IsAscending-le from to [] h = h
IsAscending-le from to (t ∷ ts) h = omega (arith, IsAscending-le t to ts h.1)

-- Of requests at times that do not fall, up to time `to`, a bucket admits at most what it held, and
-- the refill of the time that passed.
pub admitted_by_bucket-le :
    (rate capacity to : ℕ) (b : TokenBucket) (ts : List ℕ)
    → IsAscending b.last_refill_at to ts
    → 1000 * admitted_by_bucket rate capacity b ts ≤ b.tokens + (to - b.last_refill_at) * rate
admitted_by_bucket-le rate capacity to b [] h = omega arith
admitted_by_bucket-le rate capacity to b (t ∷ ts) h =
    let (b', ok) = consume_token_bucket b rate capacity t in
    ground (
      arith,
      bucket_step rate capacity t to b h.0 (IsAscending-le t to ts h.1),
      consume-last_refill_at rate capacity t b,
      admitted_by_bucket-le rate capacity to b' ts (rw consume-last_refill_at h.1),
    )
