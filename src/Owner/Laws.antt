-- ===== src/Owner/Laws.antt =====
-- Who owns a share: theorems on Owner.antt.
use bili_sync_play.Prelude.{
  All, Bool, List, Option, String, [], any-append, arith, false, if◌then◌else◌, refl, same, some,
  subst, sym, true, ℕ, ◌++◌, ◌∷◌, ◌≡◌, ◌≢◌,
}
use mathlib.Core.List.{Memᴰ}
use bili_sync_play.Owner.{
  Candidate, elect, is_online, joined_before, precedes, resolve_shared_video_owner_id,
}

-- Nobody in the list joined before the candidate.
abbrev pub IsLongest : Candidate → List Candidate → Type 0
IsLongest c ms = All (λ m. joined_before m.joined_at c.joined_at ≡ false) ms

pub record IsElected (start : Candidate) (ms : List Candidate) (c : Candidate) : Type 0 where
  pub listed : Memᴰ c (start ∷ ms)
  before_start : joined_before start.joined_at c.joined_at ≡ false
  longest : IsLongest c ms

joined_before_trans :
    (a b c : Option ℕ)
    → joined_before a b ≡ false
    → joined_before b c ≡ false
    → joined_before a c ≡ false
joined_before_trans a b c h k = ground arith

take_earlier :
    (s m c : Candidate)
    → joined_before (if precedes m s then m else s).joined_at c.joined_at ≡ false
    → (joined_before s.joined_at c.joined_at ≡ false)
      × (joined_before m.joined_at c.joined_at ≡ false)
take_earlier s m c h = (ground arith, ground arith)

relist :
    (c s m : Candidate) (ms : List Candidate) (b : Bool)
    → Memᴰ c ((if b then m else s) ∷ ms)
    → Memᴰ c (s ∷ m ∷ ms)
relist c s m ms true r = Memᴰ.tail r
relist c s m ms false (Memᴰ.head e) = Memᴰ.head e
relist c s m ms false (Memᴰ.tail r) = Memᴰ.tail (Memᴰ.tail r)

elect-append :
    (s : Candidate) (ms : List Candidate) (n : Candidate)
    → elect (some s) (ms ++ n ∷ []) ≡ elect (elect (some s) ms) (n ∷ [])
unfolding elect
elect-append s [] n = refl
elect-append s (m ∷ ms) n = elect-append (if precedes m s then m else s) ms n

not_precedes :
    (n c : Candidate) → joined_before c.joined_at n.joined_at ≡ true → precedes n c ≡ false
not_precedes n c h = ground arith

elect-IsElected :
    (s : Candidate) (ms : List Candidate)
    → (c : Candidate) × (elect (some s) ms ≡ some c) × IsElected s ms c
unfolding elect
elect-IsElected s [] =
    (s, refl, record { listed = Memᴰ.head refl; before_start = ground arith; longest = tt })
elect-IsElected s (m ∷ ms) =
    let (c, e, h) = elect-IsElected (if precedes m s then m else s) ms in
    let (late_s, late_m) = take_earlier s m c h.before_start in
    (
      c,
      e,
      record {
        listed = relist c s m ms (precedes m s) h.listed;
        before_start = late_s;
        longest = (late_m, h.longest);
      },
    )

All-Mem :
    (P : Candidate → Type 0) (c : Candidate) (ms : List Candidate) → All P ms → Memᴰ c ms → P c
All-Mem P c [] h r = elim r [ ]
All-Mem P c (m ∷ ms) h (Memᴰ.head e) = subst P (sym e) h.0
All-Mem P c (m ∷ ms) h (Memᴰ.tail r) = All-Mem P c ms h.1 r

module _ (s : String) (named : s ≢ "") where
  -- A stored owner who is online keeps the share.
  pub resolve_online :
      (ms : List Candidate)
      → is_online s ms ≡ true
      → resolve_shared_video_owner_id (some s) ms ≡ some s
  unfolding resolve_shared_video_owner_id
  resolve_online ms on = ground arith

  -- With the stored owner gone, the share goes to a member of the list before whom no member
  -- joined; a member without a joining time is chosen only if none has one.
  pub resolve_elected :
      (m : Candidate) (ms : List Candidate)
      → is_online s (m ∷ ms) ≡ false
      → (c : Candidate) × (resolve_shared_video_owner_id (some s) (m ∷ ms) ≡ some c.id)
        × Memᴰ c (m ∷ ms)
        × IsLongest c (m ∷ ms)
  unfolding resolve_shared_video_owner_id elect
  resolve_elected m ms off =
      let (c, e, h) = elect-IsElected m ms in
      (c, ground arith, h.listed, (h.before_start, h.longest))

  -- A member who joins after everybody else, and is not the stored owner, does not take the share.
  pub resolve_later_join :
      (m : Candidate) (ms : List Candidate) (n : Candidate)
      → n.id ≢ s
      → All (λ k. joined_before k.joined_at n.joined_at ≡ true) (m ∷ ms)
      → resolve_shared_video_owner_id (some s) ((m ∷ ms) ++ n ∷ [])
        ≡ resolve_shared_video_owner_id (some s) (m ∷ ms)
  unfolding resolve_shared_video_owner_id elect
  resolve_later_join m ms n other later =
      let (c, e, h) = elect-IsElected m ms in
      let before =
        All-Mem (λ k. joined_before k.joined_at n.joined_at ≡ true) c (m ∷ ms) later h.listed in
      ground (
        arith,
        any-append (λ (k : Candidate). same k.id s) ms (n ∷ []),
        elect-append m ms n,
        not_precedes n c before,
      )
