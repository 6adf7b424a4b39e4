-- ===== src/Content/Reconcile/Laws.antt =====
-- Corrections grow with the drift: theorems on Content/Reconcile.antt.
use bili_sync_play.Prelude.{
  Bool, Option, arith, dist, false, none, some, true, ℕ, ◌+◌, ◌<◌, ◌≢◌, ◌≤◌,
}
use bili_sync_play.Protocol.{buffering, playing}
use bili_sync_play.Content.Reconcile.{
  ReconcileMode, Thresholds, decide_playback_reconcile_mode, get_adaptive_playing_thresholds,
  hard_seek, ignore, rate_only, reconcile_playing, soft_apply,
}

-- How strong a correction is.
abbrev pub strength : ReconcileMode → ℕ
strength ignore = 0
strength rate_only = 1
strength soft_apply = 2
strength hard_seek = 3

-- The three thresholds are in order at every rate, with or without a catch-up, so that each
-- correction has a range of drifts.
thresholds_in_order :
    (rate : Option ℕ) (has_active_catch_up : Bool)
    → let thresholds = get_adaptive_playing_thresholds rate has_active_catch_up in
      (thresholds.ignore_threshold < thresholds.rate_only_threshold)
      × (thresholds.rate_only_threshold < thresholds.soft_apply_threshold)
unfolding get_adaptive_playing_thresholds
thresholds_in_order none true = (ground arith, ground arith)
thresholds_in_order none false = (ground arith, ground arith)
thresholds_in_order (some rate) true = (ground arith, ground arith)
thresholds_in_order (some rate) false = (ground arith, ground arith)

reconcile_playing-monotone :
    (thresholds : Thresholds) (near far : ℕ)
    → thresholds.ignore_threshold < thresholds.rate_only_threshold
    → thresholds.rate_only_threshold < thresholds.soft_apply_threshold
    → near ≤ far
    → strength (reconcile_playing thresholds near).mode
      ≤ strength (reconcile_playing thresholds far).mode
unfolding reconcile_playing
reconcile_playing-monotone thresholds near far a b h = ground arith

-- Of two videos that play with the room, the one farther from the room's position is never
-- corrected more weakly.
pub correction_grows_with_drift :
    (near far target : ℕ) (is_explicit_seek : Bool) (rate : Option ℕ) (has_active_catch_up : Bool)
    → dist target near ≤ dist target far
    → strength
        (decide_playback_reconcile_mode near target playing is_explicit_seek rate
          has_active_catch_up).mode
      ≤ strength
          (decide_playback_reconcile_mode far target playing is_explicit_seek rate
            has_active_catch_up).mode
unfolding decide_playback_reconcile_mode
correction_grows_with_drift near far target true rate has_active_catch_up h = ground arith
correction_grows_with_drift near far target false rate has_active_catch_up h =
    let (a, b) = thresholds_in_order rate has_active_catch_up in
    reconcile_playing-monotone (get_adaptive_playing_thresholds rate has_active_catch_up)
      (dist target near) (dist target far) a b h

-- A peer that buffers pulls nobody back: whoever the decision moves stood before the peer's
-- position, and by more than 0.15 s.
pub buffering_pulls_forward :
    (here target : ℕ) (is_explicit_seek : Bool) (rate : Option ℕ) (has_active_catch_up : Bool)
    → (decide_playback_reconcile_mode here target buffering is_explicit_seek rate
        has_active_catch_up).mode
      ≢ ignore
    → here + 150 < target
unfolding decide_playback_reconcile_mode
buffering_pulls_forward here target is_explicit_seek rate has_active_catch_up h = ground arith
