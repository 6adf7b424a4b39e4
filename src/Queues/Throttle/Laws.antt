-- ===== src/Queues/Throttle/Laws.antt =====
-- A diagnosis is printed once an interval: theorems on Queues/Throttle.antt.
use bili_sync_play.Prelude.{
  All, Bool, Bool-cases, List, String, [], any, arith, dist, false, if◌then◌else◌, inl, inr, leb,
  length, not, refl, same, some, true, ℕ, ◌+◌, ◌<◌, ◌∷◌, ◌≡◌, ◌≤◌, ◌⊎◌,
}
use bili_sync_play.Prelude.Dict
use bili_sync_play.Prelude.Dict.{Dict, put}
use bili_sync_play.Queues.Throttle.{Options, Throttle, allow}

-- The diagnosis was reported at the time `t`: it is tracked, or it went to the shared bucket.
abbrev pub IsReported : ℕ → String → Throttle → Type 0
IsReported t d s = (Dict.get d s.last_reported_at ≡ some t) ⊎ (s.last_untracked_report_at ≡ some t)

-- A call of `allow` with its time, and the calls of a run that were let through.
pub record Call : Type 0 where
  pub at : ℕ
  pub diagnosis : String

unfoldable pub allowed : Options → List Call → Throttle → List Call
unfolding allow
allowed o [] s = []
allowed o (c ∷ calls) s =
    let (s', ok) = allow o c.at c.diagnosis s in
    let rest = allowed o calls s' in if ok then c ∷ rest else rest

allow-IsReported :
    (o : Options) (t at : ℕ) (d other : String) (s : Throttle)
    → Dict.IsDistinct s.last_reported_at
    → IsReported t d s
    → at < t + o.interval_ms
    → let (s', ok) = allow o at other s in IsReported t d s' × ((other ≡ d) → ok ≡ false)
unfolding allow
allow-IsReported o t at d other s dist (inl h) until =
    let fresh = λ (last : ℕ). not (leb (last + o.interval_ms) at) in
    let kept : Dict.get d (Dict.keep_values fresh s.last_reported_at) ≡ some t =
      ground (arith, h, until, Dict.get-keep_values fresh d s.last_reported_at dist) in
    let put = Dict.get-put other d at (Dict.keep_values fresh s.last_reported_at) in
    (inl (ground (arith, kept, put)), λ e. ground (arith, e, kept))
allow-IsReported o t at d other s dist (inr h) until =
    (inr (ground (arith, h, until)), λ e. ground (arith, h, until))

allow-IsDistinct :
    (o : Options) (at : ℕ) (d : String) (s : Throttle)
    → Dict.IsDistinct s.last_reported_at
    → Dict.IsDistinct (allow o at d s).0.last_reported_at
unfolding allow
allow-IsDistinct o at d s dist =
    let fresh = λ (last : ℕ). not (leb (last + o.interval_ms) at) in
    let kept = Dict.keep_values fresh s.last_reported_at in
    let distinct = Dict.keep_values-IsDistinct fresh s.last_reported_at dist in
    ground (arith, distinct, Dict.put-IsDistinct d at kept distinct)

quiet_while_reported :
    (o : Options) (t : ℕ) (d : String) (calls : List Call) (s : Throttle)
    → Dict.IsDistinct s.last_reported_at
    → IsReported t d s
    → All (λ c. c.at < t + o.interval_ms) calls
    → any (λ c. same c.diagnosis d) (allowed o calls s) ≡ false
unfolding allowed
quiet_while_reported o t d [] s dist reported soon = refl
quiet_while_reported o t d (c ∷ calls) s dist reported (now, soon) =
    let (still, denied) = allow-IsReported o t c.at d c.diagnosis s dist reported now in
    let rest =
      quiet_while_reported o t d calls (allow o c.at c.diagnosis s).0
        (allow-IsDistinct o c.at c.diagnosis s dist) still soon in
    ground (arith, rest, denied)

-- A diagnosis that is let through at a time is not let through again before the interval is over,
-- whatever else is reported meanwhile, in whatever order, and also if the table of diagnoses was full.
pub allowed_once :
    (o : Options) (t : ℕ) (d : String) (calls : List Call) (s : Throttle)
    → Dict.IsDistinct s.last_reported_at
    → (allow o t d s).1 ≡ true
    → All (λ c. c.at < t + o.interval_ms) calls
    → any (λ c. same c.diagnosis d) (allowed o calls (allow o t d s).0) ≡ false
unfolding allow
allowed_once o t d calls s dist ok soon =
    let fresh = λ (last : ℕ). not (leb (last + o.interval_ms) t) in
    let kept = Dict.keep_values fresh s.last_reported_at in
    let reported : IsReported t d (allow o t d s).0 =
      elim (Bool-cases (leb o.max_tracked_diagnoses (length kept))) [
        | inl full ↦ inr (ground (arith, full, ok))
        | inr free ↦ inl (ground (arith, free, ok, Dict.get-put_self d t kept))
      ] in
    quiet_while_reported o t d calls (allow o t d s).0 (allow-IsDistinct o t d s dist) reported soon

length-keep_values : (p : ℕ → Bool) (m : Dict ℕ) → length (Dict.keep_values p m) ≤ length m
unfolding Dict.keep_values
length-keep_values p [] = omega arith
length-keep_values p ((k, v) ∷ m) = ground (arith, length-keep_values p m)

length-put : (k : String) (v : ℕ) (m : Dict ℕ) → length (Dict.put k v m) ≤ length m + 1
unfolding Dict.put
length-put k v [] = ground arith
length-put k v ((j, w) ∷ m) = ground (arith, length-put k v m)

-- The table never grows beyond its bound.
pub allow-bounded :
    (o : Options) (at : ℕ) (d : String) (s : Throttle)
    → length s.last_reported_at ≤ o.max_tracked_diagnoses
    → length (allow o at d s).0.last_reported_at ≤ o.max_tracked_diagnoses
unfolding allow
allow-bounded o at d s small =
    let fresh = λ (last : ℕ). not (leb (last + o.interval_ms) at) in
    let kept = Dict.keep_values fresh s.last_reported_at in
    ground (arith, small, length-keep_values fresh s.last_reported_at, length-put d at kept)
