-- ===== src/Service/Admission/Presence.antt =====
-- Who is present in a room: lemmas on Runtime/Store.antt and Service/Join.antt that the theorems on
-- admission share.
use bili_sync_play.Prelude.{
  ap, Bool, List, Option, Option-cases, String, [], arith, false, if◌then◌else◌, inl, inr, none,
  refl, some, true, truthy, ℕ, ◌+◌, ◌∙◌, ◌∷◌, ◌≡◌, ◌≤◌,
}
use bili_sync_play.Prelude.Dict
use bili_sync_play.Prelude.Dict.{Dict}
use bili_sync_play.Runtime.Rooms.{
  ActiveRoom, ActiveRooms, add_member_to_room, get_or_create_active_room,
  revoke_member_token_in_room,
}
use bili_sync_play.Runtime.Store as Live
use bili_sync_play.Service.State.{Service, alone}
use bili_sync_play.Service.Join.{by_now, find_reconnecting, holds_seat, member_count, size}

module _ {ℓ} {V : Type ℓ} where
  pub size-put : (k : String) (v : V) (m : Dict V) → size (Dict.put k v m) ≤ size m + 1
  unfolding size Dict.put
  size-put k v [] = ground arith
  size-put k v ((j, w) ∷ m) = ground (arith, size-put k v m)

  pub size-put-has :
      (k : String) (v : V) (m : Dict V) → Dict.has k m ≡ true → size (Dict.put k v m) ≡ size m
  unfolding size Dict.put Dict.get
  size-put-has k v [] h = absurd (ground arith)
  size-put-has k v ((j, w) ∷ m) h = ground (arith, size-put-has k v m)

-- Who is present under a code.
abbrev pub members_of : String → ActiveRooms → Dict String
members_of code rooms = elim (Dict.get code rooms) [ none ↦ [] | some room ↦ room.members ]

revoke-members_of :
    (rooms : ActiveRooms) (code member_id : String)
    → members_of code (revoke_member_token_in_room rooms code member_id none).0
      ≡ members_of code rooms
unfolding revoke_member_token_in_room
revoke-members_of rooms code member_id = elim (Option-cases (Dict.get code rooms)) [
  | inl e ↦ ground arith
  | inr (room, e) ↦
      let rest = record room { member_tokens = Dict.remove member_id room.member_tokens } in
      ground (arith, Dict.get-put_self code rest rooms, Dict.get-remove_self code rooms)
]

revoke_all-members_of :
    (code : String) (ids : List String) (rooms : ActiveRooms)
    → members_of code (Live.revoke_all code ids rooms) ≡ members_of code rooms
unfolding Live.revoke_all
revoke_all-members_of code [] rooms = refl
revoke_all-members_of code (id ∷ ids) rooms =
    revoke_all-members_of code ids (revoke_member_token_in_room rooms code id none).0
    ∙ revoke-members_of rooms code id

pub prune-members_of :
    (t : ℕ) (code : String) (rt : Live.Runtime)
    → members_of code (Live.prune_expired_member_tokens t code rt).rooms ≡ members_of code rt.rooms
unfolding Live.prune_expired_member_tokens
prune-members_of t code rt = elim (Option-cases (Dict.get code rt.member_token_expiry)) [
  | inl e ↦ ground arith
  | inr (expiry, e) ↦
      ground (arith, revoke_all-members_of code (Live.expired_ids t expiry) rt.rooms)
]

pub add_member-members_of :
    (t : ℕ) (code member_id session_id token : String) (rt : Live.Runtime)
    → members_of code (Live.add_member t code member_id session_id token rt).0.rooms
      ≡ Dict.put member_id session_id (members_of code rt.rooms)
unfolding Live.add_member add_member_to_room get_or_create_active_room
add_member-members_of t code member_id session_id token rt =
    let pruned = Live.prune_expired_member_tokens t code rt in
    let (held, room) = get_or_create_active_room pruned.rooms code in
    let joined = record room {
      members = Dict.put member_id session_id room.members;
      member_tokens = Dict.put member_id token room.member_tokens;
    } in
    elim (Option-cases (Dict.get code pruned.rooms)) [
      | inl e ↦ ground (arith, Dict.get-put_self code joined held, prune-members_of t code rt)
      | inr (found, e) ↦
          ground (arith, Dict.get-put_self code joined held, prune-members_of t code rt)
    ]

count-members_of :
    (code : String) (rooms : ActiveRooms)
    → member_count (Dict.get code rooms) ≡ size (members_of code rooms)
unfolding size
count-members_of code rooms = elim (Option-cases (Dict.get code rooms)) [
  | inl e ↦ ground arith
  | inr (room, e) ↦ ground arith
]

find-members_of :
    (t : ℕ) (code token : String) (rt : Live.Runtime)
    → members_of code (Live.find_member_id_by_token t code token rt).0.rooms
      ≡ members_of code rt.rooms
unfolding Live.find_member_id_by_token
find-members_of t code token rt = prune-members_of t code rt

pub reconnecting-members_of :
    (at : ℕ → ℕ) (code : String) (previous : Option String) (active : Option ActiveRoom)
    (s : Service)
    → members_of code (find_reconnecting (alone at) code previous active s).0.runtime.rooms
      ≡ members_of code s.runtime.rooms
reconnecting-members_of at code previous none s = refl
reconnecting-members_of at code previous (some active) s = elim (Option-cases (truthy previous)) [
  | inl e ↦ ground arith
  | inr (token, e) ↦ ground (arith, find-members_of (at 6) code token s.runtime)
]

pub by_now-count :
    (code : String) (rooms later_rooms : ActiveRooms)
    → members_of code later_rooms ≡ members_of code rooms
    → member_count (by_now code (Dict.get code rooms) later_rooms) ≡ size (members_of code rooms)
unfolding size
by_now-count code rooms later_rooms h = elim (Option-cases (Dict.get code rooms)) [
  | inl e ↦ ground arith
  | inr (room, e) ↦
      let c = count-members_of code later_rooms in
      let g = ap (λ (l : Dict String). size l) h in ground (arith, c, g)
]

held_seat :
    (code : String) (rooms : ActiveRooms) (member_id : Option String)
    → holds_seat (Dict.get code rooms) member_id ≡ true
    → (m : String) × (member_id ≡ some m) × (Dict.has m (members_of code rooms) ≡ true)
held_seat code rooms none h = absurd (ground arith)
held_seat code rooms (some m) h = (m, refl, ground arith)

pub by_now-held_seat :
    (code : String) (rooms later_rooms : ActiveRooms) (member_id : Option String)
    → holds_seat (by_now code (Dict.get code rooms) later_rooms) member_id ≡ true
    → (m : String) × (member_id ≡ some m) × (Dict.has m (members_of code later_rooms) ≡ true)
by_now-held_seat code rooms later_rooms member_id h = elim (Option-cases (Dict.get code rooms)) [
  | inl e ↦ absurd (ground arith)
  | inr (room, e) ↦ held_seat code later_rooms member_id (ground arith)
]

pub looked_up-members_of :
    (b : Bool) (t : ℕ) (code : String) (rt : Live.Runtime)
    → members_of code (if b then Live.get_room t code rt else (rt, none)).0.rooms
      ≡ members_of code rt.rooms
unfolding Live.get_room
looked_up-members_of true t code rt = prune-members_of t code rt
looked_up-members_of false t code rt = refl
