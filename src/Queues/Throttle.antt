-- ===== src/Queues/Throttle.antt =====
-- server/src/diagnosis-throttle.ts, createDiagnosisThrottle. `at` is the reading of the clock, and
-- `at - last >= interval` is taken on signed numbers.
use bili_sync_play.Prelude.{
  Bool, Option, String, false, if◌then◌else◌, leb, length, ltb, none, not, some, true, ℕ, ◌+◌, ◌||◌,
}
use bili_sync_play.Prelude.Dict
use bili_sync_play.Prelude.Dict.{Dict}
pub mod Laws

pub record Options : Type 0 where
  pub interval_ms : ℕ
  pub max_tracked_diagnoses : ℕ

pub record Throttle : Type 0 where
  pub last_reported_at : Dict ℕ
  pub last_untracked_report_at : Option ℕ

unfoldable pub allow : Options → ℕ → String → Throttle → Throttle × Bool
allow o at diagnosis s =
    let kept = Dict.keep_values (λ last. not (leb (last + o.interval_ms) at)) s.last_reported_at in
    let s' = record s { last_reported_at = kept } in
    let cooling : Bool = elim s.last_untracked_report_at [
      | none ↦ false
      | some last ↦ ltb at (last + o.interval_ms)
    ] in
    if Dict.has diagnosis kept || cooling
    then (s', false)
    else if leb o.max_tracked_diagnoses (length kept)
    then (record s' { last_untracked_report_at = some at }, true)
    else (record s' { last_reported_at = Dict.put diagnosis at kept }, true)
