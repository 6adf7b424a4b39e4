-- ===== src/Content/Reconcile.antt =====
-- extension/src/content/playback-reconcile.ts: how a video is brought to the room's position. A
-- position is in milliseconds and a rate in thousandths; the thresholds, products of the source's
-- decimal constants, are in hundred-thousandths of a millisecond, which makes them whole numbers.
use bili_sync_play.Prelude.{
  Bool, Option, dist, if◌then◌else◌, leb, ltb, max, or_else, ℕ, ◌&&◌, ◌*◌, ◌+◌, ◌-◌,
}
use bili_sync_play.Protocol.{
  PlayState, SyncIntent, buffering, is_playing, is_seek_intent, paused, playing,
}
pub mod Laws

pub data ReconcileMode : Type 0 where
  ignore rate_only soft_apply hard_seek : ReconcileMode

pub data ReconcileReason : Type 0 where
  within_threshold paused_or_buffering buffering_not_authoritative playing_rate_adjust
        playing_soft_drift playing_hard_drift explicit_seek_reason :
      ReconcileReason

pub record ReconcileDecision : Type 0 where
  pub mode : ReconcileMode
  delta : ℕ
  pub reason : ReconcileReason

-- `getPlaybackRateMultiplier(playbackRate) - 1`, in thousandths
abbrev pub extra_rate : Option ℕ → ℕ
extra_rate rate = max 1000 (or_else rate 1000) - 1000

pub record Thresholds : Type 0 where
  ignore_threshold : ℕ
  rate_only_threshold : ℕ
  soft_apply_threshold : ℕ

unfoldable pub get_adaptive_playing_thresholds : Option ℕ → Bool → Thresholds
get_adaptive_playing_thresholds rate has_active_catch_up =
    let extra = extra_rate rate in
    let base = if has_active_catch_up then 50 else 450 in
    record {
      ignore_threshold = base * (100000 + extra * 35);
      rate_only_threshold = 900 * (100000 + extra * 70);
      soft_apply_threshold = 1200 * (100000 + extra * 55);
    }

unfoldable pub should_treat_as_explicit_seek : Option SyncIntent → PlayState → Bool
should_treat_as_explicit_seek sync_intent play_state =
    is_playing play_state && is_seek_intent sync_intent

unfoldable pub reconcile_playing : Thresholds → ℕ → ReconcileDecision
reconcile_playing thresholds delta =
    let scaled = 100000 * delta in
    if leb scaled thresholds.ignore_threshold
    then record { mode = ignore; delta = delta; reason = within_threshold }
    else if leb scaled thresholds.rate_only_threshold
    then record { mode = rate_only; delta = delta; reason = playing_rate_adjust }
    else if leb scaled thresholds.soft_apply_threshold
    then record { mode = soft_apply; delta = delta; reason = playing_soft_drift }
    else record { mode = hard_seek; delta = delta; reason = playing_hard_drift }

abbrev pub reconcile_stopped : ℕ → ReconcileDecision
reconcile_stopped delta =
    if ltb 150 delta
    then record { mode = hard_seek; delta = delta; reason = paused_or_buffering }
    else record { mode = ignore; delta = delta; reason = within_threshold }

unfoldable pub decide_playback_reconcile_mode :
    ℕ → ℕ → PlayState → Bool → Option ℕ → Bool → ReconcileDecision
decide_playback_reconcile_mode here target buffering is_explicit_seek rate has_active_catch_up =
    if ltb target here
    then record { mode = ignore; delta = dist target here; reason = buffering_not_authoritative }
    else reconcile_stopped (dist target here)
decide_playback_reconcile_mode here target paused is_explicit_seek rate has_active_catch_up =
    reconcile_stopped (dist target here)
decide_playback_reconcile_mode here target playing is_explicit_seek rate has_active_catch_up =
    if is_explicit_seek
    then record { mode = hard_seek; delta = dist target here; reason = explicit_seek_reason }
    else reconcile_playing (get_adaptive_playing_thresholds rate has_active_catch_up)
        (dist target here)
