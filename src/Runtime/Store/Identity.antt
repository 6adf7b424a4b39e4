-- ===== src/Runtime/Store/Identity.antt =====
-- Identity outlives presence, for as long as the retention: theorems on Runtime/Store.antt.
use bili_sync_play.Prelude.{
  Bool, Bool-cases, List, Option, Option-cases, String, [], any, arith, false, if◌then◌else◌, inl,
  inr, leb, ltb, none, or_else, refl, same, some, subst, text_discrete, true, ℕ, ◌+◌, ◌∙◌, ◌∷◌, ◌≡◌,
}
use bili_sync_play.Prelude.Dict
use bili_sync_play.Prelude.Dict.{Dict, has}
use bili_sync_play.Runtime.Rooms.{
  ActiveRooms, is_empty, remove_member_from_room, revoke_member_token_in_room,
}
use bili_sync_play.Runtime.Rooms.Laws.{
  binding, remove_member-keeps-tokens, revoke_member_token_lem, token_of,
}
use bili_sync_play.Runtime.Store.{
  Runtime, expired_ids, has_token, prune_expired_member_tokens, remove_member, revoke_all,
  write_expiry,
}

abbrev pub lists_id : String → List String → Bool
lists_id id ids = any (λ i. same i id) ids

abbrev pub expired_by : ℕ → Option ℕ → Bool
expired_by t none = false
expired_by t (some at) = leb at t

lists_id-expired_ids :
    (t : ℕ) (id : String) (expiry : Dict ℕ)
    → Dict.IsDistinct expiry
    → lists_id id (expired_ids t expiry) ≡ expired_by t (Dict.get id expiry)
unfolding expired_ids Dict.get
lists_id-expired_ids t id [] d = refl
lists_id-expired_ids t id ((k, at) ∷ expiry) d = ground (arith, lists_id-expired_ids t id expiry)

revoke_all_lem :
    (code id : String) (ids : List String) (rooms : ActiveRooms)
    → (token_of (revoke_all code ids rooms) code id
        ≡ (if lists_id id ids then none else token_of rooms code id))
      × (binding (revoke_all code ids rooms) code id ≡ binding rooms code id)
unfolding revoke_all
revoke_all_lem code id [] rooms = (refl, refl)
revoke_all_lem code id (i ∷ ids) rooms =
    let rooms' = (revoke_member_token_in_room rooms code i none).0 in
    let (tokens, seats) = revoke_all_lem code id ids rooms' in
    let (gone, seated, kept) = revoke_member_token_lem rooms code i id in
    (
      elim (text_discrete i id) [
        | yes p ↦ let gone' = subst (λ j. token_of rooms' code j ≡ none) p gone in ground arith
        | no p ↦ ground (arith, kept p)
      ],
      seats ∙ seated,
    )

-- The time until when the token of a member who left reclaims the seat.
abbrev pub on_the_clock : Runtime → String → String → Option ℕ
on_the_clock rt code id = elim (Dict.get code rt.member_token_expiry) [
  | none ↦ none
  | some expiry ↦ Dict.get id expiry
]

abbrev pub IsClockDistinct : Runtime → String → Type 0
IsClockDistinct rt code = Dict.IsDistinct (or_else (Dict.get code rt.member_token_expiry) [])

-- Pruning takes the token of exactly those members whose retention has run out, and no seat.
pub prune-token_of :
    (t : ℕ) (code id : String) (rt : Runtime)
    → IsClockDistinct rt code
    → let rt' = prune_expired_member_tokens t code rt in
      (token_of rt'.rooms code id
        ≡ (if expired_by t (on_the_clock rt code id) then none else token_of rt.rooms code id))
      × (binding rt'.rooms code id ≡ binding rt.rooms code id)
unfolding prune_expired_member_tokens
prune-token_of t code id rt d = elim (Option-cases (Dict.get code rt.member_token_expiry)) [
  | inl e ↦ (ground arith, ground arith)
  | inr (expiry, e) ↦
      let (tokens, seats) = revoke_all_lem code id (expired_ids t expiry) rt.rooms in
      (ground (arith, lists_id-expired_ids t id expiry), ground arith)
]

clock-write_expiry :
    (rt : Runtime) (code : String) (expiry : Dict ℕ)
    → Dict.IsDistinct expiry
    → Dict.IsDistinct (or_else (Dict.get code (write_expiry code expiry rt.member_token_expiry)) [])
clock-write_expiry rt code expiry d = elim (Bool-cases (is_empty expiry)) [
  | inl e ↦ rw (e, Dict.get-remove_self code rt.member_token_expiry) tt
  | inr e ↦ rw (e, Dict.get-put_self code expiry rt.member_token_expiry) d
]

pub prune-IsClockDistinct :
    (t : ℕ) (code : String) (rt : Runtime)
    → IsClockDistinct rt code
    → IsClockDistinct (prune_expired_member_tokens t code rt) code
unfolding prune_expired_member_tokens
prune-IsClockDistinct t code rt d = elim (Option-cases (Dict.get code rt.member_token_expiry)) [
  | inl e ↦ rw (e, prune_expired_member_tokens) d
  | inr (expiry, e) ↦
      rw (e, prune_expired_member_tokens)
        (clock-write_expiry rt code (Dict.keep_values (λ at. ltb t at) expiry)
          (Dict.keep_values-IsDistinct (λ at. ltb t at) expiry (rw e at d)))
]

-- A member who sits in the room with a token, is not on the clock yet and drops out at time `t'`, has
-- no seat afterwards, and the room knows the token for the member until `t'` plus the retention,
-- and no longer; the ids on the clock are distinct.
pub disconnect_keeps_identity :
    (retention_ms t t' later : ℕ) (code id session token : String) (rt : Runtime)
    → binding rt.rooms code id ≡ some session
    → token_of rt.rooms code id ≡ some token
    → on_the_clock rt code id ≡ none
    → IsClockDistinct rt code
    → let rt' = (remove_member retention_ms t t' code id (some session) rt).0 in
      (binding rt'.rooms code id ≡ none)
      × (token_of (prune_expired_member_tokens later code rt').rooms code id
          ≡ (if leb (t' + retention_ms) later then none else some token))
unfolding remove_member
disconnect_keeps_identity retention_ms t t' later code id session token rt seat has clock d =
    let pruned = prune_expired_member_tokens t code rt in
    let (token_kept, seat_kept) = prune-token_of t code id rt d in
    let (removed, left, kept) =
      remove_member-keeps-tokens pruned.rooms code id id session (seat_kept ∙ seat) in
    let rt' = (remove_member retention_ms t t' code id (some session) rt).0 in
    let expiry = or_else (Dict.get code pruned.member_token_expiry) [] in
    let expiry' = Dict.put id (t' + retention_ms) expiry in
    let still : token_of (remove_member_from_room pruned.rooms code id (some session)).0 code id
        ≡ some token =
      ground arith in
    let holds_token : has_token code id
          (remove_member_from_room pruned.rooms code id (some session)).0
        ≡ true =
      ground arith in
    let stored : Dict.get code rt'.member_token_expiry ≡ some expiry' =
      ground (arith, Dict.get-put_self code expiry' pruned.member_token_expiry) in
    let d' : IsClockDistinct rt' code =
      rw stored
        (Dict.put-IsDistinct id (t' + retention_ms) expiry (prune-IsClockDistinct t code rt d)) in
    let (after, _) = prune-token_of later code id rt' d' in
    (left, ground (arith, Dict.get-put_self id (t' + retention_ms) expiry))
