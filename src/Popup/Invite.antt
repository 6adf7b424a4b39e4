-- ===== src/Popup/Invite.antt =====
-- extension/src/popup/helpers.ts, parseInviteValue, and extension/src/popup/popup-render.ts,
-- formatInviteDraft. A text is the list of its UTF-16 code units here, as JavaScript has it;
-- `is_space` is the class \s and `to_upper_case` the platform's toUpperCase.
use bili_sync_play.Prelude.{
  Bool, List, Option, [], if◌then◌else◌, is_nil, keep, leb, length, ltb, none, not, some, true, ℕ,
  ◌&&◌, ◌++◌, ◌==◌, ◌||◌, ◌∷◌,
}
pub mod Laws

abbrev pub Text : Type 0
Text = List ℕ

pub record Platform : Type 0 where
  pub is_space : ℕ → Bool
  pub to_upper_case : Text → Text

pub record Invite : Type 0 where
  pub room_code : Text
  pub join_token : Text

abbrev pub token_min_length : ℕ
token_min_length = 16

abbrev pub token_max_length : ℕ
token_max_length = 128

-- The code units of ":", "|" and ",".
abbrev pub colon : ℕ
colon = 58

abbrev pub separators : List ℕ
separators = colon ∷ 124 ∷ 44 ∷ []

-- [A-Z0-9]
abbrev pub is_code_unit : ℕ → Bool
is_code_unit c = (leb 65 c && leb c 90) || (leb 48 c && leb c 57)

abbrev pub all : (ℕ → Bool) → Text → Bool
all p [] = true
all p (c ∷ cs) = p c && all p cs

-- ROOM_CODE_PATTERN.test
unfoldable pub matches_room_code : Text → Bool
matches_room_code text = length text == 6 && all is_code_unit text

-- `text.split(separator)`
unfoldable pub split : ℕ → Text → List Text
split separator [] = [] ∷ []
split separator (c ∷ cs) =
    let rest = split separator cs in
    if c == separator
    then [] ∷ rest
    else elim rest [ [] ↦ (c ∷ []) ∷ [] | part ∷ parts ↦ (c ∷ part) ∷ parts ]

-- The turn of the loop for one separator: the invite, or `continue`.
unfoldable pub read_with : Platform → ℕ → Text → Option Invite
unfolding split matches_room_code
read_with p separator normalized = elim (split separator normalized) [
  | [] ↦ none
  | room_code ∷ parts ↦ elim parts [
    | [] ↦ none
    | join_token ∷ rest ↦
        if is_nil room_code || is_nil join_token || not (is_nil rest)
        then none
        else let normalized_room_code = p.to_upper_case room_code in
          if not (matches_room_code normalized_room_code)
          then none
          else if ltb (length join_token) token_min_length
              || ltb token_max_length (length join_token)
          then none
          else some (record { room_code = normalized_room_code; join_token = join_token })
  ]
]

unfoldable pub try_separators : Platform → List ℕ → Text → Option Invite
unfolding read_with
try_separators p [] normalized = none
try_separators p (separator ∷ rest) normalized =
    let others = try_separators p rest normalized in
    elim (read_with p separator normalized) [ none ↦ others | some invite ↦ some invite ]

-- Every space goes, so that the trim before it decides nothing else than whether a text is empty.
unfoldable pub parse_invite_value : Platform → Text → Option Invite
unfolding try_separators
parse_invite_value p value =
    let normalized = keep (λ c. not (p.is_space c)) value in
    if is_nil normalized then none else try_separators p separators normalized

-- `!text`: null or empty.
abbrev pub filled : Option Text → Option Text
filled none = none
filled (some []) = none
filled (some (c ∷ cs)) = some (c ∷ cs)

unfoldable pub format_invite_draft : Option Text → Option Text → Text
format_invite_draft room_code join_token = elim (filled room_code) [
  | none ↦ []
  | some code ↦ elim (filled join_token) [ none ↦ code | some token ↦ code ++ (colon ∷ token) ]
]
