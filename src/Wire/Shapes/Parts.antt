-- ===== src/Wire/Shapes/Parts.antt =====
-- What a guard accepts has the type that it claims: the tests that both directions share.
use bili_sync_play.Prelude.{
  Bool, List, Option, String, [], arith, false, if◌then◌else◌, none, refl, some, true, ℕ, ◌&&◌,
  ◌||◌, ◌∷◌, ◌≡◌,
}
use bili_sync_play.Prelude.Sets
use bili_sync_play.Wire.{
  Json, array, boolean, field, is_actor_id, is_boolean, is_bounded_string, is_finite_number,
  is_one_of, is_optional_bounded_string, is_optional_non_negative_integer, is_room_code, is_text,
  is_token, is_undefined, is_non_negative_integer, null, number, object, play_states, sync_intents,
  text,
}
use bili_sync_play.Wire.Client.{is_playback_state, url_max_length}
use bili_sync_play.Wire.Shapes.{
  Shape, boolean_type, number_type, string, union, has_shape, holds, holds_if_any,
  playback_state_type,
}

-- Tests on texts.
pub token-text : (o : Option Json) → is_token o ≡ true → holds (has_shape string) o ≡ true
unfolding is_token has_shape
token-text (some (text s)) h = refl
token-text _ h = cc

pub room_code-text : (o : Option Json) → is_room_code o ≡ true → holds (has_shape string) o ≡ true
unfolding is_room_code has_shape
room_code-text (some (text s)) h = refl
room_code-text _ h = cc

pub actor_id-text : (o : Option Json) → is_actor_id o ≡ true → holds (has_shape string) o ≡ true
unfolding is_actor_id has_shape
actor_id-text (some (text s)) h = refl
actor_id-text _ h = cc

pub bounded-text :
    (o : Option Json) (n : ℕ) → is_bounded_string o n ≡ true → holds (has_shape string) o ≡ true
unfolding is_bounded_string has_shape
bounded-text (some (text s)) n h = refl
bounded-text _ n h = cc

pub finite-number :
    (o : Option Json) → is_finite_number o ≡ true → holds (has_shape number_type) o ≡ true
unfolding has_shape
finite-number (some (number n)) h = refl
finite-number _ h = cc

pub one_of-literal :
    (names : List String) (o : Option Json)
    → is_one_of names o ≡ true
    → holds (has_shape (union names)) o ≡ true
unfolding is_one_of has_shape
one_of-literal names (some (text s)) h = h
one_of-literal names _ h = cc

pub text-literal :
    (name : String) (o : Option Json)
    → is_text name o ≡ true
    → holds (has_shape (union (name ∷ []))) o ≡ true
unfolding Sets.contains has_shape
text-literal name (some (text s)) h = ground (arith, h)
text-literal name _ h = cc

pub boolean-shape :
    (o : Option Json) → is_boolean o ≡ true → holds (has_shape boolean_type) o ≡ true
unfolding has_shape
boolean-shape (some (boolean b)) h = refl
boolean-shape _ h = cc

-- Tests that undefined passes too.
pub optional :
    (p : Option Json → Bool) (shape : Shape) (o : Option Json)
    → (p o ≡ true → holds (has_shape shape) o ≡ true)
    → (is_undefined o || p o) ≡ true
    → holds_if_any (has_shape shape) o ≡ true
optional p shape none sound h = refl
optional p shape (some value) sound h = sound h

pub optional_integer-number :
    (o : Option Json)
    → is_optional_non_negative_integer o ≡ true
    → holds_if_any (has_shape number_type) o ≡ true
unfolding is_optional_non_negative_integer is_non_negative_integer has_shape
optional_integer-number none h = refl
optional_integer-number (some (number n)) h = refl
optional_integer-number (some null) h = cc
optional_integer-number (some (boolean _)) h = cc
optional_integer-number (some (text _)) h = cc
optional_integer-number (some (array _)) h = cc
optional_integer-number (some (object _)) h = cc

-- Conjunctions, test by test.
pub both :
    {a b c d : Bool}
    → (a ≡ true → c ≡ true)
    → (b ≡ true → d ≡ true)
    → (a && b) ≡ true
    → (c && d) ≡ true
both {a} {b} {c} {d} f g h = go a f h
  where
    go : (a : Bool) → (a ≡ true → c ≡ true) → (a && b) ≡ true → (c && d) ≡ true
    go true f h = rw (f refl) (g h)
    go false f h = cc

pub skip : {b d : Bool} (a : Bool) → (b ≡ true → d ≡ true) → (a && b) ≡ true → d ≡ true
skip true g h = g h
skip false g h = cc

pub kept : {a : Bool} → a ≡ true → a ≡ true
kept h = h

pub playback_state-shape :
    (o : Option Json) → is_playback_state o ≡ true → holds (has_shape playback_state_type) o ≡ true
unfolding is_playback_state has_shape
playback_state-shape none = λ h. cc
playback_state-shape (some v) =
    let f = λ (name : String). field name (some v) in
    both kept (
      both (bounded-text (f "url") url_max_length) (
        both (finite-number (f "currentTime")) (
          both (one_of-literal play_states (f "playState")) (
            both
              (optional (λ o. is_one_of sync_intents o) (union sync_intents) (f "syncIntent")
                (one_of-literal sync_intents (f "syncIntent")))
              (both
                (optional is_boolean boolean_type (f "userInitiated")
                  (boolean-shape (f "userInitiated")))
                (both
                  (optional is_boolean boolean_type (f "naturalEnd")
                    (boolean-shape (f "naturalEnd")))
                  (both (finite-number (f "playbackRate")) (
                    both (finite-number (f "updatedAt")) (
                      both (finite-number (f "serverTime")) (
                        both (actor_id-text (f "actorId"))
                          (both (finite-number (f "seq")) kept)))))))))))

pub optional_bounded-text :
    (o : Option Json) (n : ℕ)
    → is_optional_bounded_string o n ≡ true
    → holds_if_any (has_shape string) o ≡ true
unfolding is_optional_bounded_string
optional_bounded-text o n = optional (λ x. is_bounded_string x n) string o (bounded-text o n)

pub optional_token-text :
    (o : Option Json)
    → (is_undefined o || is_token o) ≡ true
    → holds_if_any (has_shape string) o ≡ true
optional_token-text o = optional is_token string o (token-text o)

-- A switch, case by case.
pub branch :
    {x y z w : Bool} (b : Bool)
    → (x ≡ true → z ≡ true)
    → (y ≡ true → w ≡ true)
    → (if b then x else y) ≡ true
    → (z || w) ≡ true
branch true f g h = rw (f h) refl
branch false f g h = ground (arith, g h)

pub inside : {x : Bool} (b : Bool) → (if b then x else false) ≡ true → x ≡ true
inside true h = h
inside false h = cc
