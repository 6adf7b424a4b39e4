-- ===== src/Messages/Limits.antt =====
-- What a message beyond its limit does: theorems on Messages/Handle.antt.
use bili_sync_play.Prelude.{
  List, [], ap, arith, false, refl, ℕ, ◌*◌, ◌++◌, ◌+◌, ◌-◌, ◌<◌, ◌∷◌, ◌≡◌, ◌≤◌,
}
use bili_sync_play.Protocol.Messages.{
  ClientMessage, error, playback_update, profile_update, rate_limited, room_create, room_join,
  room_leave, sync_ping, sync_request, video_share,
}
use bili_sync_play.RateLimit.{
  TokenBucket, WindowCounter, consume_fixed_window, consume_token_bucket,
}
use bili_sync_play.Messages.{Context, Output, Turn, sends}
use bili_sync_play.Messages.Handle.{
  handle_client_message, handle_playback_update, handle_room_create, handle_room_join,
  handle_sync_ping, handle_sync_request, handle_video_share, window_10_seconds_ms, window_minute_ms,
}

-- The window has not passed and is full.
abbrev pub IsFull : WindowCounter → ℕ → ℕ → ℕ → Type 0
IsFull c limit window_ms t = (limit ≤ c.count) × (t < c.window_start + window_ms)

-- There is less than one token, counted in thousandths, also with those that came since.
abbrev pub IsEmpty : TokenBucket → ℕ → ℕ → Type 0
IsEmpty b per_second t = b.tokens + (t - b.last_refill_at) * per_second < 1000

-- The message comes when its limit is used up; leaves and renames have none.
abbrev pub IsOver : Context → Turn → ClientMessage → Type 0
IsOver ctx turn (room_create _) =
    IsFull turn.session.rate_limit_state.room_create ctx.rate_limits.room_create_per_minute
      window_minute_ms (ctx.at 0)
IsOver ctx turn (room_join _) =
    IsFull turn.session.rate_limit_state.room_join ctx.rate_limits.room_join_per_minute
      window_minute_ms (ctx.at 0)
IsOver ctx turn (video_share _ _ _) =
    IsFull turn.session.rate_limit_state.video_share ctx.rate_limits.video_share_per_10_seconds
      window_10_seconds_ms (ctx.at 0)
IsOver ctx turn (sync_request _) =
    IsFull turn.session.rate_limit_state.sync_request ctx.rate_limits.sync_request_per_10_seconds
      window_10_seconds_ms (ctx.at 0)
IsOver ctx turn (playback_update _ _) =
    IsEmpty turn.session.rate_limit_state.playback_update ctx.rate_limits.playback_update_per_second
      (ctx.at 0)
IsOver ctx turn (sync_ping _) =
    IsEmpty turn.session.rate_limit_state.sync_ping ctx.rate_limits.sync_ping_per_second (ctx.at 0)
IsOver ctx turn (profile_update _ _) = ⊥
IsOver ctx turn (room_leave _) = ⊥

-- Frames and pings are dropped without a word.
abbrev pub notice : ClientMessage → List Output
notice (playback_update _ _) = []
notice (sync_ping _) = []
notice _ = sends (error rate_limited) ∷ []

full-refused :
    (c : WindowCounter) (limit window_ms t : ℕ)
    → IsFull c limit window_ms t
    → (consume_fixed_window c limit window_ms t).1 ≡ false
unfolding consume_fixed_window
full-refused c limit window_ms t h = ground arith

empty-refused :
    (b : TokenBucket) (per_second capacity t : ℕ)
    → IsEmpty b per_second t
    → (consume_token_bucket b per_second capacity t).1 ≡ false
unfolding consume_token_bucket
empty-refused b per_second capacity t h = ground arith

append-nil : (outputs : List Output) → outputs ≡ outputs ++ []
append-nil [] = refl
append-nil (o ∷ outputs) = ap (λ xs. o ∷ xs) (append-nil outputs)

-- A message beyond its limit reaches nothing: no room, no live state and no event changes, the
-- session keeps everything but its counters, and the sender is told that it was too much, or
-- nothing if it is a frame or a ping.
pub over_limit_is_harmless :
    (ctx : Context) (message : ClientMessage) (turn : Turn)
    → IsOver ctx turn message
    → let after = handle_client_message ctx message turn in
      (after.state ≡ turn.state)
      × (after.outputs ≡ turn.outputs ++ notice message)
      × (after.session ≡ record turn.session { rate_limit_state = after.session.rate_limit_state })
unfolding handle_client_message
over_limit_is_harmless ctx (room_create hello) turn h =
    let e =
      full-refused turn.session.rate_limit_state.room_create ctx.rate_limits.room_create_per_minute
        window_minute_ms (ctx.at 0) h in
    unfold handle_room_create in (rw e refl, rw e refl, rw e refl)
over_limit_is_harmless ctx (room_join payload) turn h =
    let e =
      full-refused turn.session.rate_limit_state.room_join ctx.rate_limits.room_join_per_minute
        window_minute_ms (ctx.at 0) h in
    unfold handle_room_join in (rw e refl, rw e refl, rw e refl)
over_limit_is_harmless ctx (profile_update token name) turn h = absurd h
over_limit_is_harmless ctx (room_leave token) turn h = absurd h
over_limit_is_harmless ctx (video_share token video playback) turn h =
    let e =
      full-refused turn.session.rate_limit_state.video_share
        ctx.rate_limits.video_share_per_10_seconds window_10_seconds_ms (ctx.at 0) h in
    unfold handle_video_share in (rw e refl, rw e refl, rw e refl)
over_limit_is_harmless ctx (playback_update token playback) turn h =
    let e =
      empty-refused turn.session.rate_limit_state.playback_update
        ctx.rate_limits.playback_update_per_second ctx.rate_limits.playback_update_burst (ctx.at 0)
        h in
    unfold handle_playback_update in (rw e refl, rw e (append-nil turn.outputs), rw e refl)
over_limit_is_harmless ctx (sync_request token) turn h =
    let e =
      full-refused turn.session.rate_limit_state.sync_request
        ctx.rate_limits.sync_request_per_10_seconds window_10_seconds_ms (ctx.at 0) h in
    unfold handle_sync_request in (rw e refl, rw e refl, rw e refl)
over_limit_is_harmless ctx (sync_ping client_send_time) turn h =
    let e =
      empty-refused turn.session.rate_limit_state.sync_ping ctx.rate_limits.sync_ping_per_second
        ctx.rate_limits.sync_ping_burst (ctx.at 0) h in
    unfold handle_sync_ping in (rw e refl, rw e (append-nil turn.outputs), rw e refl)
