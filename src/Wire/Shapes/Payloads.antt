-- ===== src/Wire/Shapes/Payloads.antt =====
-- What a guard accepts has the type that it claims: lists, nullable fields and payloads.
use bili_sync_play.Prelude.{Bool, Option, String, arith, none, refl, some, true, ◌&&◌, ◌||◌, ◌≡◌}
use bili_sync_play.Wire.{
  Items, Json, array, boolean, cons, field, finite, infinite, is_finite_number, is_non_negative,
  is_optional_positive_integer, is_positive_integer, is_record, is_text, is_undefined, nil, null,
  number, object, text,
}
use bili_sync_play.Wire.Client.{display_name_max_length}
use bili_sync_play.Wire.Server.{every, is_array_of, is_null, is_room_member}
use bili_sync_play.Wire.Shapes.{
  Shape, all_items, done, has_shape, holds, holds_if_any, list, message, nullable, number_type,
  required, room_member_type,
}
use bili_sync_play.Wire.Shapes.Parts.{
  actor_id-text, both, bounded-text, finite-number, kept, optional, text-literal,
}

pub and-left : (a b : Bool) → (a && b) ≡ true → a ≡ true
and-left a b h = ground (arith, h)

pub and-right : (a b : Bool) → (a && b) ≡ true → b ≡ true
and-right a b h = ground (arith, h)

-- The last test of a chain, before tests that come from elsewhere.
pub last : {a b c : Bool} → (a ≡ true → b ≡ true) → c ≡ true → (a && true) ≡ true → (b && c) ≡ true
last f e h = rw (f (and-left _ _ h)) e

-- A message whose guard looks at the payload's fields in one chain with its own.
pub flat :
    (name : String) (shape : Shape) (rest : Option Json → Bool) (v : Json)
    → ((p : Json) → (is_record (some p) && rest (some p)) ≡ true → has_shape shape p ≡ true)
    → (is_record (some v)
        && (is_text name (field "type" (some v))
            && (is_record (field "payload" (some v)) && rest (field "payload" (some v)))))
      ≡ true
    → has_shape (message name (required "payload" shape done)) v ≡ true
unfolding has_shape
flat name shape rest v sound =
    both kept
      (both (text-literal name (field "type" (some v))) (payload (field "payload" (some v))))
  where
    payload :
        (o : Option Json)
        → (is_record o && rest o) ≡ true
        → (holds (has_shape shape) o && true) ≡ true
    payload none = λ h. cc
    payload (some p) = λ h. rw (sound p h) refl

pub nullable-shape :
    (p : Option Json → Bool) (shape : Shape) (o : Option Json)
    → (p o ≡ true → holds (has_shape shape) o ≡ true)
    → (is_null o || p o) ≡ true
    → holds (has_shape (nullable shape)) o ≡ true
unfolding has_shape
nullable-shape p shape none sound h = sound h
nullable-shape p shape (some null) sound h = refl
nullable-shape p shape (some (boolean b)) sound h = sound h
nullable-shape p shape (some (number n)) sound h = sound h
nullable-shape p shape (some (text s)) sound h = sound h
nullable-shape p shape (some (array items)) sound h = sound h
nullable-shape p shape (some (object fields)) sound h = sound h

pub every-shape :
    (p : Option Json → Bool) (shape : Shape) (items : Items)
    → ((x : Json) → p (some x) ≡ true → has_shape shape x ≡ true)
    → every p items ≡ true
    → all_items (has_shape shape) items ≡ true
every-shape p shape nil sound = λ h. refl
every-shape p shape (cons x xs) sound = both (sound x) (every-shape p shape xs sound)

pub list-shape :
    (p : Option Json → Bool) (shape : Shape) (o : Option Json)
    → ((x : Json) → p (some x) ≡ true → has_shape shape x ≡ true)
    → is_array_of p o ≡ true
    → holds (has_shape (list shape)) o ≡ true
unfolding has_shape
list-shape p shape (some (array items)) sound h = every-shape p shape items sound h
list-shape p shape _ sound h = cc

pub optional_time-number :
    (o : Option Json)
    → (is_undefined o || (is_finite_number o && is_non_negative o)) ≡ true
    → holds_if_any (has_shape number_type) o ≡ true
optional_time-number o =
    optional (λ x. is_finite_number x && is_non_negative x) number_type o
      (λ h. finite-number o (and-left _ _ h))

pub positive-number :
    (o : Option Json) → is_positive_integer o ≡ true → holds (has_shape number_type) o ≡ true
unfolding is_positive_integer has_shape
positive-number (some (number (finite _ _))) h = refl
positive-number (some (number infinite)) h = cc
positive-number (some null) h = cc
positive-number (some (boolean _)) h = cc
positive-number (some (text _)) h = cc
positive-number (some (array _)) h = cc
positive-number (some (object _)) h = cc
positive-number none h = cc

pub optional_version-number :
    (o : Option Json)
    → is_optional_positive_integer o ≡ true
    → holds_if_any (has_shape number_type) o ≡ true
unfolding is_optional_positive_integer
optional_version-number o = optional is_positive_integer number_type o (positive-number o)

pub room_member-shape :
    (v : Json) → is_room_member (some v) ≡ true → has_shape room_member_type v ≡ true
unfolding is_room_member has_shape
room_member-shape v = both kept (
    both (actor_id-text (field "id" (some v)))
      (both (bounded-text (field "name" (some v)) display_name_max_length) kept))

pub member-shape :
    (o : Option Json) → is_room_member o ≡ true → holds (has_shape room_member_type) o ≡ true
unfolding is_room_member
member-shape none = λ h. cc
member-shape (some v) = room_member-shape v
