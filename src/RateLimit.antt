-- ===== src/RateLimit.antt =====
-- server/src/rate-limit.ts: the fixed-window counters and token buckets that bound what a session
-- or an address may send. Tokens are counted in thousandths, so that a refill of
-- (elapsedMs / 1000) * refillPerSecond tokens is elapsedMs * refillPerSecond of them.
use bili_sync_play.Prelude.{Bool, false, if◌then◌else◌, leb, ltb, min, true, ℕ, ◌*◌, ◌+◌, ◌-◌}
pub mod Laws

pub record WindowCounter : Type 0 where
  pub window_start : ℕ
  pub count : ℕ

pub record TokenBucket : Type 0 where
  pub tokens : ℕ  -- thousandths
  pub last_refill_at : ℕ

pub record SessionRateLimitState : Type 0 where
  pub room_create : WindowCounter
  pub room_join : WindowCounter
  pub video_share : WindowCounter
  pub sync_request : WindowCounter
  pub playback_update : TokenBucket
  pub sync_ping : TokenBucket

abbrev pub create_window_counter : ℕ → WindowCounter
create_window_counter now = record { window_start = now; count = 0 }

abbrev pub create_token_bucket : ℕ → ℕ → TokenBucket
create_token_bucket capacity now = record { tokens = 1000 * capacity; last_refill_at = now }

-- The two capacities are the configuration's playbackUpdateBurst and syncPingBurst.
abbrev pub create_session_rate_limit_state : ℕ → ℕ → ℕ → SessionRateLimitState
create_session_rate_limit_state playback_update_burst sync_ping_burst now = record {
  room_create = create_window_counter now;
  room_join = create_window_counter now;
  video_share = create_window_counter now;
  sync_request = create_window_counter now;
  playback_update = create_token_bucket playback_update_burst now;
  sync_ping = create_token_bucket sync_ping_burst now;
}

-- `now - windowStart >= windowMs` on signed numbers
abbrev pub roll_window : WindowCounter → ℕ → ℕ → WindowCounter
roll_window c window_ms now =
    if leb (c.window_start + window_ms) now then record { window_start = now; count = 0 } else c

unfoldable pub consume_fixed_window : WindowCounter → ℕ → ℕ → ℕ → WindowCounter × Bool
consume_fixed_window counter limit window_ms now =
    let c = roll_window counter window_ms now in
    if leb limit c.count then (c, false) else (record c { count = c.count + 1 }, true)

abbrev pub refilled : TokenBucket → ℕ → ℕ → ℕ → ℕ
refilled b refill_per_second capacity now =
    min (1000 * capacity) (b.tokens + (now - b.last_refill_at) * refill_per_second)

unfoldable pub consume_token_bucket : TokenBucket → ℕ → ℕ → ℕ → TokenBucket × Bool
consume_token_bucket bucket refill_per_second capacity now =
    let tokens = refilled bucket refill_per_second capacity now in
    if ltb tokens 1000
    then (record { tokens = tokens; last_refill_at = now }, false)
    else (record { tokens = tokens - 1000; last_refill_at = now }, true)
