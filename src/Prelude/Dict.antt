-- ===== src/Prelude/Dict.antt =====
-- A JavaScript `Map` with text keys, as an association list in insertion order: `put` overwrites
-- an entry in its place and appends a new one at the end.

use Prim.Native.String.{String}
use mathlib.Core.Path.{◌≡◌, refl}
use mathlib.Core.Logic.{◌≢◌}
use mathlib.Core.Bool.{Bool, true}
use mathlib.Core.Option.{Option, none, some}
use mathlib.Core.List.{List, [], ◌∷◌}
use native.Mathlib.Omega.{arith}
use bili_sync_play.Prelude.Tests.{if◌then◌else◌, same, is_some, Bool-cases}
use mathlib.Core.Logic.{inl, inr}

abbrev pub Dict {ℓ} : Type ℓ → Type ℓ
Dict V = List (String × V)

module _ {ℓ} {V : Type ℓ} where
  unfoldable pub get : String → Dict V → Option V
  get k [] = none
  get k ((j, v) ∷ m) = if same j k then some v else get k m

  unfoldable pub put : String → V → Dict V → Dict V
  put k v [] = (k, v) ∷ []
  put k v ((j, w) ∷ m) = if same j k then (k, v) ∷ m else (j, w) ∷ put k v m

  unfoldable pub remove : String → Dict V → Dict V
  remove k [] = []
  remove k ((j, w) ∷ m) = if same j k then remove k m else (j, w) ∷ remove k m

  abbrev pub has : String → Dict V → Bool
  has k m = is_some (get k m)

  -- `map.values()`
  unfoldable pub values : Dict V → List V
  values [] = []
  values ((_, v) ∷ m) = v ∷ values m

  pub get-put :
      (k j : String) (v : V) (m : Dict V)
      → get j (put k v m) ≡ (if same k j then some v else get j m)
  unfolding get put
  get-put k j v [] = refl
  get-put k j v ((i, w) ∷ m) = ground (arith, get-put k j v m)

  pub get-put_self : (k : String) (v : V) (m : Dict V) → get k (put k v m) ≡ some v
  get-put_self k v m = ground (arith, get-put k k v m)

  pub get-put_ne : (k j : String) (v : V) (m : Dict V) → k ≢ j → get j (put k v m) ≡ get j m
  get-put_ne k j v m h = ground (arith, get-put k j v m)

  pub get-remove :
      (k j : String) (m : Dict V) → get j (remove k m) ≡ (if same k j then none else get j m)
  unfolding get remove
  get-remove k j [] = ground arith
  get-remove k j ((i, w) ∷ m) = ground (arith, get-remove k j m)

  pub get-remove_self : (k : String) (m : Dict V) → get k (remove k m) ≡ none
  get-remove_self k m = ground (arith, get-remove k k m)

  pub get-remove_ne : (k j : String) (m : Dict V) → k ≢ j → get j (remove k m) ≡ get j m
  get-remove_ne k j m h = ground (arith, get-remove k j m)

  -- `for (const [k, v] of map) if (!p(v)) map.delete(k)`
  unfoldable pub keep_values : (V → Bool) → Dict V → Dict V
  keep_values p [] = []
  keep_values p ((k, v) ∷ m) = if p v then (k, v) ∷ keep_values p m else keep_values p m

  unfoldable pub keys : Dict V → List String
  keys [] = []
  keys ((k, _) ∷ m) = k ∷ keys m

  -- No key stands twice.
  abbrev pub IsDistinct : Dict V → Type ℓ
  IsDistinct [] = Unit
  IsDistinct ((k, _) ∷ m) = (get k m ≡ none) × IsDistinct m

  -- `p` holds of every value.
  abbrev AllValues {κ} : (V → Type κ) → Dict V → Type κ
  AllValues P [] = Unit
  AllValues P ((_, v) ∷ m) = P v × AllValues P m

  pub put-IsDistinct : (k : String) (v : V) (m : Dict V) → IsDistinct m → IsDistinct (put k v m)
  unfolding get put
  put-IsDistinct k v [] d = (refl, tt)
  put-IsDistinct k v ((j, w) ∷ m) d = ground (arith, put-IsDistinct k v m, get-put k j v m)

  pub remove-IsDistinct : (k : String) (m : Dict V) → IsDistinct m → IsDistinct (remove k m)
  unfolding remove
  remove-IsDistinct k [] d = tt
  remove-IsDistinct k ((j, w) ∷ m) d = ground (arith, remove-IsDistinct k m, get-remove k j m)

  get-keep_values-none :
      (p : V → Bool) (j : String) (m : Dict V) → get j m ≡ none → get j (keep_values p m) ≡ none
  unfolding get keep_values
  get-keep_values-none p j [] h = refl
  get-keep_values-none p j ((k, v) ∷ m) h = ground (arith, get-keep_values-none p j m)

  pub keep_values-IsDistinct :
      (p : V → Bool) (m : Dict V) → IsDistinct m → IsDistinct (keep_values p m)
  unfolding keep_values
  keep_values-IsDistinct p [] d = tt
  keep_values-IsDistinct p ((k, v) ∷ m) d =
      ground (arith, keep_values-IsDistinct p m, get-keep_values-none p k m)

  -- A kept value is read as before, a dropped one is gone.
  pub get-keep_values :
      (p : V → Bool) (j : String) (m : Dict V)
      → IsDistinct m
      → get j (keep_values p m)
        ≡ elim (get j m) [ none ↦ none | some v ↦ if p v then some v else none ]
  unfolding get keep_values
  get-keep_values p j [] d = refl
  get-keep_values p j ((k, v) ∷ m) d =
      ground (arith, get-keep_values p j m, get-keep_values-none p k m)

  keep_values-AllValues :
      (p : V → Bool) (m : Dict V) → AllValues (λ v. p v ≡ true) (keep_values p m)
  unfolding keep_values
  keep_values-AllValues p [] = tt
  keep_values-AllValues p ((k, v) ∷ m) = elim (Bool-cases (p v)) [
    | inl e ↦ rw e (e, keep_values-AllValues p m)
    | inr e ↦ rw e (keep_values-AllValues p m)
  ]
