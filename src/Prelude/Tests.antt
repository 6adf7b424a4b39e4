-- ===== src/Prelude/Tests.antt =====
-- Boolean tests on numbers and texts, the conditional, and case splits that keep their equation.
use Prim.Native.Nat.{ℕ, ◌+◌, ◌-◌, compare, Ordering}
use Prim.Native.String.{String, compare as text_compare}
use mathlib.Core.Path.{◌≡◌, refl, ap}
use mathlib.Core.Logic.{◌↔◌, ◌⊎◌, inl, inr, ◌≢◌}
use mathlib.Core.Bool.{Bool, true, false}
use mathlib.Core.Option.{Option, none, some}
use native.Mathlib.Omega.{arith}
use text.Mathlib.Text.{◌==◌ as str_eq}
use text.Mathlib.TextEquality.{eq_iff}

abbrev pub ltb : ℕ → ℕ → Bool
ltb a b = elim (compare a b) [ Ordering.lt ↦ true | _ ↦ false ]

abbrev pub leb : ℕ → ℕ → Bool
leb a b = elim (compare a b) [ Ordering.gt ↦ false | _ ↦ true ]

infix 50 ◌==◌
abbrev pub ◌==◌ : ℕ → ℕ → Bool
a == b = elim (compare a b) [ Ordering.eq ↦ true | _ ↦ false ]

infix 1 if◌then◌else◌
abbrev pub if◌then◌else◌ {ℓ} : {A : Type ℓ} → Bool → A → A → A
if true then x else y = x
if false then x else y = y

-- |a - b|
abbrev pub dist : ℕ → ℕ → ℕ
dist a b = (a - b) + (b - a)

from_test : (s t : String) (b : Bool) → (b ≡ true) ↔ (s ≡ t) → Dec (s ≡ t)
from_test s t true h = yes (h.0 refl)
from_test s t false h = no (λ e. cc (h.1 e))

-- Equality of texts is decided, so that a tactic splits on the test and has the equation.
unfoldable pub text_discrete : Discrete String
unfolding from_test
text_discrete s t = from_test s t (str_eq s t) (eq_iff s t)

abbrev pub same : String → String → Bool
same s t = elim (text_discrete s t) [ yes _ ↦ true | no _ ↦ false ]

same→eq : (s t : String) → same s t ≡ true → s ≡ t
same→eq s t h = ground arith

same_refl : (s : String) → same s s ≡ true
same_refl s = ground arith

same_ne : (s t : String) → s ≢ t → same s t ≡ false
same_ne s t h = ground arith

pub Bool-cases : (b : Bool) → (b ≡ true) ⊎ (b ≡ false)
Bool-cases true = inl refl
Bool-cases false = inr refl

module _ {ℓ} {A : Type ℓ} where
  pub Option-cases : (o : Option A) → (o ≡ none) ⊎ ((a : A) × (o ≡ some a))
  Option-cases none = inl refl
  Option-cases (some a) = inr (a, refl)

  abbrev pub is_some : Option A → Bool
  is_some none = false
  is_some (some _) = true

  -- `o ?? d`
  abbrev pub or_else : Option A → A → A
  or_else none d = d
  or_else (some a) d = a

-- `typeof s === "string" && s` of an optional text: null and the empty text are falsy.
abbrev pub truthy : Option String → Option String
truthy none = none
truthy (some s) = elim (text_discrete s "") [ yes _ ↦ none | no _ ↦ some s ]

-- `s < t` on texts
abbrev pub text_lt : String → String → Bool
text_lt s t = elim (text_compare s t) [ Ordering.lt ↦ true | _ ↦ false ]

-- `===` on texts that may be null
abbrev pub same_option : Option String → Option String → Bool
same_option none none = true
same_option (some a) (some b) = same a b
same_option _ _ = false

pub same_option_ne : (a b : Option String) → a ≢ b → same_option a b ≡ false
same_option_ne none none h = absurd (h refl)
same_option_ne none (some b) h = refl
same_option_ne (some a) none h = refl
same_option_ne (some a) (some b) h = same_ne a b (λ e. h (ap {B = Option String} some e))

pub same_option_refl : (a : Option String) → same_option a a ≡ true
same_option_refl none = refl
same_option_refl (some a) = same_refl a

pub ne_of_test : (s t : String) → same s t ≡ false → s ≢ t
ne_of_test s t h = λ e. ground arith
