-- ===== src/Queues/Limiter/Fair.antt =====
-- The callers of `run` as the steps of a system: theorems on Queues/Limiter.antt.
use bili_sync_play.Prelude.{
  Bool-cases, List, [], ap, arith, false, if◌then◌else◌, inl, inr, is_nil, length, length-append,
  ltb, none, refl, some, sym, true, ℕ, ◌++◌, ◌+◌, ◌<◌, ◌∙◌, ◌∷◌, ◌≡◌, ◌≤◌,
}
use bili_sync_play.Queues.Limiter.{Limiter, acquire, release}

-- Who has arrived, who was given a slot, in order, and how many of those have finished.
pub record System : Type 0 where
  pub limiter : Limiter
  pub arrived : List ℕ
  pub granted : List ℕ
  pub finished : ℕ

abbrev pub start : System
start = record {
  limiter = record { active = 0; waiters = [] };
  arrived = [];
  granted = [];
  finished = 0;
}

unfoldable pub arrive : ℕ → ℕ → System → System
unfolding acquire
arrive max_concurrent caller s =
    let (l, at_once) = acquire max_concurrent caller s.limiter in
    record {
      limiter = l;
      arrived = s.arrived ++ (caller ∷ []);
      granted = if at_once then s.granted ++ (caller ∷ []) else s.granted;
      finished = s.finished;
    }

unfoldable pub finish : System → System
unfolding release
finish s =
    let (l, next) = release s.limiter in
    record {
      limiter = l;
      arrived = s.arrived;
      granted = elim next [ none ↦ s.granted | some caller ↦ s.granted ++ (caller ∷ []) ];
      finished = s.finished + 1;
    }

-- A caller arrives, or one that was given a slot finishes its work.
pub data Step (max_concurrent : ℕ) : System → System → Type 0 where
  arrives : {s : System} (caller : ℕ) → Step max_concurrent s (arrive max_concurrent caller s)
  finishes : {s : System} → s.finished < length s.granted → Step max_concurrent s (finish s)

pub data Reaches (max_concurrent : ℕ) : System → Type 0 where
  here : Reaches max_concurrent start
  onward :
      {s s' : System}
      → Reaches max_concurrent s
      → Step max_concurrent s s'
      → Reaches max_concurrent s'

-- The slots in use are those of the callers that run, at most as many as there are; nobody waits
-- while a slot is free; and slots are given in the order of arrival, with nobody lost.
pub record IsFair (max_concurrent : ℕ) (s : System) : Type 0 where
  pub counted : length s.granted ≡ s.limiter.active + s.finished
  pub bounded : s.limiter.active ≤ max_concurrent
  pub busy : is_nil s.limiter.waiters ≡ false → s.limiter.active ≡ max_concurrent
  pub in_order : s.granted ++ s.limiter.waiters ≡ s.arrived

append-nil : (xs : List ℕ) → xs ++ [] ≡ xs
append-nil [] = refl
append-nil (x ∷ xs) = ground (arith, append-nil xs)

append_assoc : (xs ys zs : List ℕ) → (xs ++ ys) ++ zs ≡ xs ++ (ys ++ zs)
append_assoc [] ys zs = refl
append_assoc (x ∷ xs) ys zs = ground (arith, append_assoc xs ys zs)

nil_of : (ws : List ℕ) → (is_nil ws ≡ true) → ws ≡ []
nil_of [] h = refl
nil_of (w ∷ ws) h = absurd (ground (arith, h))

arrive-IsFair :
    (max_concurrent caller : ℕ) (s : System)
    → IsFair max_concurrent s
    → IsFair max_concurrent (arrive max_concurrent caller s)
unfolding arrive acquire
arrive-IsFair max_concurrent caller s fair =
    let counted = fair.counted in
    let bounded = fair.bounded in
    let last = length-append s.granted (caller ∷ []) in
    elim (Bool-cases (ltb s.limiter.active max_concurrent)) [
      | inl free ↦
          let idle : s.limiter.waiters ≡ [] =
            nil_of s.limiter.waiters (ground (arith, free, fair.busy)) in
          let order : s.granted ≡ s.arrived =
            sym (append-nil s.granted) ∙ ap (λ ws. s.granted ++ ws) (sym idle) ∙ fair.in_order in
          record {
            counted = ground (arith, free, last, counted);
            bounded = ground (arith, free);
            busy = λ h. absurd (ground (arith, free, idle, h));
            in_order = ground (arith, free, idle, order, append-nil (s.granted ++ (caller ∷ [])));
          }
      | inr full ↦
          let assoc = append_assoc s.granted s.limiter.waiters (caller ∷ []) in
          let order = fair.in_order in
          record {
            counted = ground (arith, full, counted);
            bounded = ground (arith, full, bounded);
            busy = λ h. ground (arith, full, bounded);
            in_order = ground (arith, full, assoc, order);
          }
    ]

finish-IsFair :
    (max_concurrent : ℕ) (s : System)
    → IsFair max_concurrent s
    → s.finished < length s.granted
    → IsFair max_concurrent (finish s)
unfolding finish release
finish-IsFair max_concurrent s fair some_run = go s.limiter.waiters refl
  where
    go : (ws : List ℕ) → s.limiter.waiters ≡ ws → IsFair max_concurrent (finish s)
    go [] e =
        let counted = fair.counted in
        let bounded = fair.bounded in
        let order = fair.in_order in
        record {
          counted = ground (arith, e, counted, some_run);
          bounded = ground (arith, e, bounded);
          busy = λ h. absurd (ground (arith, e, h));
          in_order = ground (arith, e, order);
        }
    go (w ∷ ws) e =
        let counted = fair.counted in
        let bounded = fair.bounded in
        let order = fair.in_order in
        let full = fair.busy (ground (arith, e)) in
        let last = length-append s.granted (w ∷ []) in
        let assoc = append_assoc s.granted (w ∷ []) ws in
        record {
          counted = ground (arith, e, counted, last);
          bounded = ground (arith, e, bounded);
          busy = λ h. ground (arith, e, full);
          in_order = ground (arith, e, order, assoc);
        }

-- However callers arrive and finish: at most the limit have a slot, no caller waits while a slot is
-- free, slots are given in the order of arrival, and every caller that arrived has been given a slot
-- or waits.
pub Reaches-IsFair :
    (max_concurrent : ℕ) (s : System) → Reaches max_concurrent s → IsFair max_concurrent s
Reaches-IsFair max_concurrent s here = record {
  counted = ground arith;
  bounded = ground arith;
  busy = λ h. absurd (ground (arith, h));
  in_order = refl;
}
Reaches-IsFair max_concurrent s (onward run (arrives caller)) =
    arrive-IsFair max_concurrent caller _ (Reaches-IsFair max_concurrent _ run)
Reaches-IsFair max_concurrent s (onward run (finishes some_run)) =
    finish-IsFair max_concurrent _ (Reaches-IsFair max_concurrent _ run) some_run

-- Nobody waits for ever: with at least one slot, once all who were given one have finished, all who
-- arrived have been given one.
pub everyone_is_served :
    (max_concurrent : ℕ) (s : System)
    → 1 ≤ max_concurrent
    → Reaches max_concurrent s
    → s.finished ≡ length s.granted
    → s.granted ≡ s.arrived
everyone_is_served max_concurrent s slots run done =
    let fair = Reaches-IsFair max_concurrent s run in
    let counted = fair.counted in
    let busy = fair.busy in
    let idle : s.limiter.waiters ≡ [] =
      nil_of s.limiter.waiters (ground (arith, counted, busy, done, slots)) in
    sym (append-nil s.granted) ∙ ap (λ ws. s.granted ++ ws) (sym idle) ∙ fair.in_order
