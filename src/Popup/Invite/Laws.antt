-- ===== src/Popup/Invite/Laws.antt =====
-- An invite that is passed on is read back: theorems on Popup/Invite.antt.
use bili_sync_play.Prelude.{
  Bool, List, Option-cases, [], arith, false, inl, inr, is_nil, keep, length, not, refl, some, true,
  ℕ, ◌&&◌, ◌++◌, ◌==◌, ◌∷◌, ◌≡◌, ◌≤◌,
}
use bili_sync_play.Popup.Invite.{
  Invite, Platform, Text, all, colon, format_invite_draft, is_code_unit, matches_room_code,
  parse_invite_value, read_with, separators, split, token_max_length, token_min_length,
  try_separators,
}

keep-all : (p : ℕ → Bool) (text : Text) → all p text ≡ true → keep p text ≡ text
keep-all p [] h = refl
keep-all p (c ∷ cs) h = ground (arith, h, keep-all p cs)

all-append : (p : ℕ → Bool) (xs ys : Text) → all p (xs ++ ys) ≡ (all p xs && all p ys)
all-append p [] ys = refl
all-append p (x ∷ xs) ys = ground (arith, all-append p xs ys)

-- A text without the separator is one part.
split_none :
    (separator : ℕ) (text : Text)
    → all (λ c. not (c == separator)) text ≡ true
    → split separator text ≡ text ∷ []
unfolding split
split_none separator [] h = refl
split_none separator (c ∷ cs) h = ground (arith, h, split_none separator cs)

split_two :
    (separator : ℕ) (left right : Text)
    → all (λ c. not (c == separator)) left ≡ true
    → all (λ c. not (c == separator)) right ≡ true
    → split separator (left ++ (separator ∷ right)) ≡ left ∷ right ∷ []
unfolding split
split_two separator [] right h k = ground (arith, split_none separator right k)
split_two separator (c ∷ cs) right h k = ground (arith, h, split_two separator cs right)

all-imp :
    (p q : ℕ → Bool) (text : Text)
    → ((c : ℕ) → p c ≡ true → q c ≡ true)
    → all p text ≡ true
    → all q text ≡ true
all-imp p q [] h a = refl
all-imp p q (c ∷ cs) h a = ground (arith, h c, a, all-imp p q cs h)

read_two :
    (p : Platform) (text code token : Text)
    → split colon text ≡ code ∷ token ∷ []
    → is_nil code ≡ false
    → p.to_upper_case code ≡ code
    → matches_room_code code ≡ true
    → token_min_length ≤ length token
    → length token ≤ token_max_length
    → read_with p colon text ≡ some (record { room_code = code; join_token = token })
unfolding read_with
read_two p text code [] parts some_code upper valid low high = absurd (ground (arith, low))
read_two p text code (t ∷ ts) parts some_code upper valid low high =
    ground (arith, parts, some_code, upper, valid, low, high)

read_first :
    (p : Platform) (value : Text) (invite : Invite)
    → keep (λ c. not (p.is_space c)) value ≡ value
    → is_nil value ≡ false
    → read_with p colon value ≡ some invite
    → parse_invite_value p value ≡ some invite
unfolding parse_invite_value try_separators
read_first p value invite whole filled read = ground (arith, whole, filled, read)

-- An invite that formatInviteDraft writes is read back by parseInviteValue as the same room and
-- token: the room code matches the pattern and is upper case already, and the token is of a length
-- that is accepted and has neither spaces nor a colon. No letter or digit is a space.
pub parse_invite_value-format_invite_draft :
    (p : Platform) (code token : Text)
    → ((c : ℕ) → is_code_unit c ≡ true → p.is_space c ≡ false)
    → matches_room_code code ≡ true
    → p.to_upper_case code ≡ code
    → token_min_length ≤ length token
    → length token ≤ token_max_length
    → all (λ c. not (p.is_space c)) token ≡ true
    → all (λ c. not (c == colon)) token ≡ true
    → p.is_space colon ≡ false
    → parse_invite_value p (format_invite_draft (some code) (some token))
      ≡ some (record { room_code = code; join_token = token })
unfolding parse_invite_value format_invite_draft matches_room_code
parse_invite_value-format_invite_draft p [] token glyph code upper low high dark plain sep =
    absurd (ground (arith, code))
parse_invite_value-format_invite_draft p (c ∷ cs) [] glyph code upper low high dark plain sep =
    absurd (ground (arith, low))
parse_invite_value-format_invite_draft p (c ∷ cs) (t ∷ ts) glyph code upper low high dark plain
      sep =
    let room = c ∷ cs in
    let token = t ∷ ts in
    let invite = room ++ (colon ∷ token) in
    let letters : all is_code_unit room ≡ true = ground (arith, code) in
    let inked : all (λ x. not (p.is_space x)) room ≡ true =
      all-imp is_code_unit (λ x. not (p.is_space x)) room (λ x k. ground (arith, glyph x k))
        letters in
    let whole : keep (λ x. not (p.is_space x)) invite ≡ invite =
      keep-all (λ x. not (p.is_space x)) invite
        (ground
          (arith, all-append (λ x. not (p.is_space x)) room (colon ∷ token), inked, sep, dark)) in
    let unsplit : all (λ x. not (x == colon)) room ≡ true =
      all-imp is_code_unit (λ x. not (x == colon)) room (λ x k. ground (arith, k)) letters in
    let parts = split_two colon room token unsplit plain in
    let read = read_two p invite room token parts refl upper code low high in
    read_first p invite (record { room_code = room; join_token = token }) whole refl read

read_with-IsValid :
    (p : Platform) (separator : ℕ) (text : Text) (invite : Invite)
    → read_with p separator text ≡ some invite
    → (matches_room_code invite.room_code ≡ true)
      × (token_min_length ≤ length invite.join_token)
      × (length invite.join_token ≤ token_max_length)
unfolding read_with
read_with-IsValid p separator text invite h = go (split separator text) refl
  where
    go :
        (parts : List Text)
        → split separator text ≡ parts
        → (matches_room_code invite.room_code ≡ true)
          × (token_min_length ≤ length invite.join_token)
          × (length invite.join_token ≤ token_max_length)
    go [] e = absurd (ground (arith, e, h))
    go (code ∷ []) e = absurd (ground (arith, e, h))
    go (code ∷ token ∷ rest) e = (ground (arith, e, h), ground (arith, e, h), ground (arith, e, h))

try_separators-IsValid :
    (p : Platform) (seps : List ℕ) (text : Text) (invite : Invite)
    → try_separators p seps text ≡ some invite
    → (matches_room_code invite.room_code ≡ true)
      × (token_min_length ≤ length invite.join_token)
      × (length invite.join_token ≤ token_max_length)
unfolding try_separators
try_separators-IsValid p [] text invite h = absurd (ground (arith, h))
try_separators-IsValid p (separator ∷ rest) text invite h =
    elim (Option-cases (read_with p separator text)) [
      | inl e ↦ try_separators-IsValid p rest text invite (ground (arith, e, h))
      | inr (found, e) ↦ read_with-IsValid p separator text invite (ground (arith, e, h))
    ]

-- What parseInviteValue returns is well formed, whatever text it is given: the room code matches the
-- pattern, and the token has a length that is accepted.
pub parse_invite_value-IsValid :
    (p : Platform) (value : Text) (invite : Invite)
    → parse_invite_value p value ≡ some invite
    → (matches_room_code invite.room_code ≡ true)
      × (token_min_length ≤ length invite.join_token)
      × (length invite.join_token ≤ token_max_length)
unfolding parse_invite_value
parse_invite_value-IsValid p value invite h =
    try_separators-IsValid p separators (keep (λ c. not (p.is_space c)) value) invite
      (ground (arith, h))
