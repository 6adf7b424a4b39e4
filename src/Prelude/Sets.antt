-- ===== src/Prelude/Sets.antt =====
-- A JavaScript `Set` of texts in insertion order, as a list.
use Prim.Native.String.{String}
use mathlib.Core.Path.{◌≡◌, refl}
use mathlib.Core.Bool.{Bool, false, ◌||◌}
use mathlib.Core.List.{List, [], ◌∷◌, ◌++◌}
use native.Mathlib.Omega.{arith}
use bili_sync_play.Prelude.Tests.{if◌then◌else◌, same}

unfoldable pub contains : String → List String → Bool
contains x [] = false
contains x (y ∷ ys) = same y x || contains x ys

unfoldable pub add : String → List String → List String
add x ys = if contains x ys then ys else ys ++ (x ∷ [])

unfoldable pub delete : String → List String → List String
delete x [] = []
delete x (y ∷ ys) = if same y x then delete x ys else y ∷ delete x ys

pub contains-append :
    (x : String) (ys zs : List String) → contains x (ys ++ zs) ≡ (contains x ys || contains x zs)
unfolding contains
contains-append x [] zs = refl
contains-append x (y ∷ ys) zs = ground (arith, contains-append x ys zs)

pub contains-add :
    (x y : String) (ys : List String) → contains x (add y ys) ≡ (same y x || contains x ys)
unfolding contains add
contains-add x y ys = ground (arith, contains-append x ys (y ∷ []))

pub contains-delete :
    (x y : String) (ys : List String)
    → contains x (delete y ys) ≡ (if same y x then false else contains x ys)
unfolding contains delete
contains-delete x y [] = ground arith
contains-delete x y (z ∷ zs) = ground (arith, contains-delete x y zs)
