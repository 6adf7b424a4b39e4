-- ===== src/Wire.antt =====
-- packages/protocol/src/guards/primitives.ts: the tests on values that come from JSON.parse. `none` is
-- undefined. A number that is finite is its sign and its absolute value in thousandths; JSON has
-- numbers too large to be finite. `is_bilibili_ref` tells whether parseBilibiliVideoRef finds a video
-- in a text, which rests on the platform's URL parser.
use Prim.Native.Char.{code}
use Prim.Native.String.{String as Text}
use bili_sync_play.Prelude.{
  Bool, List, Option, String, [], false, if◌then◌else◌, is_nil, leb, ltb, none, same, some, true, ℕ,
  ◌%◌, ◌&&◌, ◌+◌, ◌==◌, ◌||◌, ◌∷◌,
}
use bili_sync_play.Prelude.Sets
pub mod Client
pub mod Server
pub mod Shapes

pub data Number : Type 0 where
  finite : Bool → ℕ → Number  -- whether it is negative, thousandths
  infinite : Number

mutual
  pub data Json : Type 0 where
    null : Json
    boolean : Bool → Json
    number : Number → Json
    text : String → Json
    array : Items → Json
    object : Fields → Json

  pub data Items : Type 0 where
    nil : Items
    cons : Json → Items → Items

  pub data Fields : Type 0 where
    end : Fields
    entry : String → Json → Fields → Fields

-- A later entry of the same name wins.
unfoldable pub find_field : String → Fields → Option Json
find_field name end = none
find_field name (entry key value fields) = elim (find_field name fields) [
  | some later ↦ some later
  | none ↦ if same key name then some value else none
]

-- `value.name` of a record; an array has none of the names that are asked for.
abbrev pub field : String → Option Json → Option Json
field name (some (object fields)) = find_field name fields
field name _ = none

abbrev pub is_record : Option Json → Bool
is_record (some (object _)) = true
is_record (some (array _)) = true
is_record _ = false

abbrev pub is_string : Option Json → Bool
is_string (some (text _)) = true
is_string _ = false

abbrev pub is_undefined : Option Json → Bool
is_undefined none = true
is_undefined (some _) = false

abbrev pub is_boolean : Option Json → Bool
is_boolean (some (boolean _)) = true
is_boolean _ = false

abbrev pub is_optional_string : Option Json → Bool
is_optional_string value = is_undefined value || is_string value

abbrev pub is_finite_number : Option Json → Bool
is_finite_number (some (number (finite _ _))) = true
is_finite_number _ = false

-- value >= 0, of a finite number
abbrev pub is_non_negative : Option Json → Bool
is_non_negative (some (number (finite negative n))) = if negative then n == 0 else true
is_non_negative _ = false

-- value > 0
abbrev pub is_positive : Option Json → Bool
is_positive (some (number (finite negative n))) = if negative then false else ltb 0 n
is_positive _ = false

abbrev pub is_integer : Option Json → Bool
is_integer (some (number (finite _ n))) = n % 1000 == 0
is_integer _ = false

-- value >= 1, of an integer
unfoldable pub is_positive_integer : Option Json → Bool
is_positive_integer (some (number (finite negative n))) =
    if negative then false else leb 1000 n && n % 1000 == 0
is_positive_integer _ = false

unfoldable pub is_non_negative_integer : Option Json → Bool
is_non_negative_integer value = is_finite_number value && is_non_negative value && is_integer value

unfoldable pub is_optional_positive_integer : Option Json → Bool
unfolding is_positive_integer
is_optional_positive_integer value = is_undefined value || is_positive_integer value

unfoldable pub is_optional_non_negative_integer : Option Json → Bool
unfolding is_non_negative_integer
is_optional_non_negative_integer value = is_undefined value || is_non_negative_integer value

-- The code points of a text.
unfoldable pub codes : String → List ℕ
codes Text.[] = []
codes (Text.◌∷◌ c s) = code c ∷ codes s

-- `value.length`: a code point beyond the basic plane is two code units.
unfoldable pub units : List ℕ → ℕ
units [] = 0
units (c ∷ cs) = (if ltb c 65536 then 1 else 2) + units cs

abbrev pub string_length : String → ℕ
string_length s = units (codes s)

abbrev pub all_codes : (ℕ → Bool) → List ℕ → Bool
all_codes p [] = true
all_codes p (c ∷ cs) = p c && all_codes p cs

-- A chain of `&&`.
abbrev pub all_true : List Bool → Bool
all_true [] = true
all_true (test ∷ tests) = test && all_true tests

abbrev pub is_digit : ℕ → Bool
is_digit c = leb 48 c && leb c 57

abbrev pub is_upper : ℕ → Bool
is_upper c = leb 65 c && leb c 90

abbrev pub is_lower : ℕ → Bool
is_lower c = leb 97 c && leb c 122

abbrev pub is_alphanumeric : ℕ → Bool
is_alphanumeric c = is_digit c || is_upper c || is_lower c

-- ROOM_CODE_PATTERN
unfoldable pub is_room_code : Option Json → Bool
unfolding codes units
is_room_code (some (text s)) =
    string_length s == 6 && all_codes (λ c. is_upper c || is_digit c) (codes s)
is_room_code _ = false

-- [A-Za-z0-9:_-]
abbrev pub is_actor_unit : ℕ → Bool
is_actor_unit c = is_alphanumeric c || c == 58 || c == 95 || c == 45

-- ACTOR_ID_PATTERN
abbrev pub matches_actor_id : List ℕ → Bool
matches_actor_id [] = false
matches_actor_id (c ∷ cs) = is_alphanumeric c && all_codes is_actor_unit cs && leb (units cs) 63

unfoldable pub is_actor_id : Option Json → Bool
unfolding codes units
is_actor_id (some (text s)) = matches_actor_id (codes s)
is_actor_id _ = false

-- [1-9]\d*
abbrev pub matches_positive : List ℕ → Bool
matches_positive [] = false
matches_positive (c ∷ cs) = leb 49 c && leb c 57 && all_codes is_digit cs

-- (?::(?:p[1-9]\d*|[1-9]\d*))?$
abbrev pub matches_part : List ℕ → Bool
matches_part [] = true
matches_part (c ∷ cs) = c == 58 && elim cs [
  | [] ↦ false
  | d ∷ ds ↦ if d == 112 then matches_positive ds else matches_positive (d ∷ ds)
]

-- One character of the class at least, and the part after the last of them.
unfoldable pub matches_id : (ℕ → Bool) → List ℕ → Bool
matches_id p [] = false
matches_id p (c ∷ cs) = p c && (matches_part cs || matches_id p cs)

-- VIDEO_ID_PATTERN: "BV" and letters or digits, or "av", "ep" or "ss" and digits.
abbrev pub matches_video_id : List ℕ → Bool
matches_video_id (a ∷ b ∷ cs) =
    if a == 66 && b == 86
    then matches_id is_alphanumeric cs
    else ((a == 97 && b == 118) || (a == 101 && b == 112) || (a == 115 && b == 115))
      && matches_id is_digit cs
matches_video_id _ = false

unfoldable pub is_video_id : Option Json → Bool
unfolding codes matches_id
is_video_id (some (text s)) = matches_video_id (codes s)
is_video_id _ = false

unfoldable pub is_bounded_string : Option Json → ℕ → Bool
unfolding codes units
is_bounded_string (some (text s)) max_length = leb (string_length s) max_length
is_bounded_string _ max_length = false

unfoldable pub is_optional_bounded_string : Option Json → ℕ → Bool
unfolding is_bounded_string
is_optional_bounded_string value max_length =
    is_undefined value || is_bounded_string value max_length

unfoldable pub is_token : Option Json → Bool
unfolding codes units
is_token (some (text s)) = leb 16 (string_length s) && leb (string_length s) 128
is_token _ = false

-- `list.includes(value)` of a text
unfoldable pub is_one_of : List String → Option Json → Bool
unfolding Sets.contains
is_one_of names (some (text s)) = Sets.contains s names
is_one_of names _ = false

abbrev pub play_states : List String
play_states = "playing" ∷ "paused" ∷ "buffering" ∷ []

abbrev pub sync_intents : List String
sync_intents = "explicit-seek" ∷ "explicit-ratechange" ∷ []

abbrev pub is_playback_play_state : Option Json → Bool
is_playback_play_state value = is_one_of play_states value

abbrev pub is_playback_sync_intent : Option Json → Bool
is_playback_sync_intent value = is_one_of sync_intents value

-- `value === name`
abbrev pub is_text : String → Option Json → Bool
is_text name (some (text s)) = same s name
is_text name _ = false

unfoldable pub is_bilibili_url : (String → Bool) → Option Json → Bool
is_bilibili_url is_bilibili_ref (some (text s)) = is_bilibili_ref s
is_bilibili_url is_bilibili_ref _ = false
