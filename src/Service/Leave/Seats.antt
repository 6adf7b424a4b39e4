-- ===== src/Service/Leave/Seats.antt =====
-- Who is present after a leave: lemmas on Runtime/Store.antt and the first steps of
-- Service/Leave.antt, while nobody else acts.
use bili_sync_play.Prelude.{
  Option, Option-cases, String, [], ap, arith, inl, inr, none, refl, some, true, truthy, ℕ, ◌∙◌,
  ◌∷◌, ◌≡◌,
}
use bili_sync_play.Prelude.Dict
use bili_sync_play.Prelude.Dict.{Dict}
use bili_sync_play.Session.{Session}
use bili_sync_play.RoomStore.{}
use bili_sync_play.Runtime.Rooms.{
  ActiveRooms, Removal, is_empty, remove_member_from_room, revoke_member_token_in_room,
}
use bili_sync_play.Runtime.Store as Live
use bili_sync_play.Service.State.{Service, alone, with_runtime}
use bili_sync_play.Service.Join.{by_now}
use bili_sync_play.Service.Admission.Presence.{members_of, prune-members_of}
use bili_sync_play.Service.Leave.{
  LeaveContext, LeaveRoomReason, client_request, disconnect, give_up_seat, members_in,
  remaining_members, revoke_first,
}

revoked-members_of :
    (rooms : ActiveRooms) (code member_id : String) (session : Option String)
    → members_of code (revoke_member_token_in_room rooms code member_id session).0
      ≡ members_of code rooms
unfolding revoke_member_token_in_room
revoked-members_of rooms code member_id session = elim (Option-cases (Dict.get code rooms)) [
  | inl e ↦ ground arith
  | inr (room, e) ↦
      let rest = record room { member_tokens = Dict.remove member_id room.member_tokens } in
      ground (arith, Dict.get-put_self code rest rooms, Dict.get-remove_self code rooms)
]

removed-members_of :
    (rooms : ActiveRooms) (code member_id session_id : String)
    → Dict.get member_id (members_of code rooms) ≡ some session_id
    → let (rooms', removal) = remove_member_from_room rooms code member_id (some session_id) in
      (members_of code rooms' ≡ Dict.remove member_id (members_of code rooms))
      × (removal.removed ≡ true)
      × (removal.room_empty ≡ is_empty (Dict.remove member_id (members_of code rooms)))
unfolding remove_member_from_room Dict.get
removed-members_of rooms code member_id session_id h = elim (Option-cases (Dict.get code rooms)) [
  | inl e ↦ absurd (ground arith)
  | inr (room, e) ↦
      let rest = record room { members = Dict.remove member_id room.members } in
      let back = Dict.get-put_self code rest rooms in
      let gone = Dict.get-remove_self code rooms in
      (ground (arith, back, gone), ground arith, ground arith)
]

runtime_removed-members_of :
    (retention_ms t t' : ℕ) (code member_id session_id : String) (rt : Live.Runtime)
    → Dict.get member_id (members_of code rt.rooms) ≡ some session_id
    → let (rt', removal) =
        Live.remove_member retention_ms t t' code member_id (some session_id) rt in
      (members_of code rt'.rooms ≡ Dict.remove member_id (members_of code rt.rooms))
      × (removal.removed ≡ true)
unfolding Live.remove_member
runtime_removed-members_of retention_ms t t' code member_id session_id rt h =
    let p = prune-members_of t code rt in
    let rooms = (Live.prune_expired_member_tokens t code rt).rooms in
    let (gone, removed, _) =
      removed-members_of rooms code member_id session_id
        (ap (λ (l : Dict String). Dict.get member_id l) p ∙ h) in
    (gone ∙ ap (λ (l : Dict String). Dict.remove member_id l) p, removed)

revoke_first-members_of :
    (at : ℕ → ℕ) (reason : LeaveRoomReason) (code : String) (session : Session) (s : Service)
    → let s' = revoke_first (alone at) reason code session s in
      (members_of code s'.runtime.rooms ≡ members_of code s.runtime.rooms)
      × (s'.rooms ≡ s.rooms)
      × (s'.closing ≡ s.closing)
unfolding Live.revoke_member_token
revoke_first-members_of at disconnect code session s = (refl, refl, refl)
revoke_first-members_of at client_request code session s =
    elim (Option-cases (truthy session.member_id)) [
      | inl e ↦ (ground arith, ground arith, ground arith)
      | inr (m, e) ↦ (
        ground (arith, revoked-members_of s.runtime.rooms code m (some session.id)),
        ground arith,
        ground arith,
      )
    ]

-- What the leaving session finds when it comes to read its room.
abbrev pub vacated :
    LeaveContext → (ℕ → ℕ) → LeaveRoomReason → String → Session → Service → Service × Removal
vacated ctx at reason code session s =
    let (runtime, before) = Live.get_room (at 0) code s.runtime in
    give_up_seat ctx (alone at) code session before
      (revoke_first (alone at) reason code session (with_runtime s runtime))

pub record IsVacated (code member_id : String) (s s' : Service) (removal : Removal) : Type 0 where
  pub members :
      members_of code s'.runtime.rooms ≡ Dict.remove member_id (members_of code s.runtime.rooms)
  pub removed : removal.removed ≡ true
  pub rooms : s'.rooms ≡ s.rooms
  pub closing : s'.closing ≡ s.closing

pub vacated-IsVacated :
    (ctx : LeaveContext) (at : ℕ → ℕ) (reason : LeaveRoomReason) (code member_id : String)
    (session : Session) (s : Service)
    → truthy session.member_id ≡ some member_id
    → Dict.get member_id (members_of code s.runtime.rooms) ≡ some session.id
    → let (s', removal) = vacated ctx at reason code session s in
      IsVacated code member_id s s' removal
unfolding Live.get_room
vacated-IsVacated ctx at reason code member_id session s m seat =
    let pruned = Live.prune_expired_member_tokens (at 0) code s.runtime in
    let p = prune-members_of (at 0) code s.runtime in
    let s0 = with_runtime s pruned in
    let s1 = revoke_first (alone at) reason code session s0 in
    let (kept, same_rooms, same_closing) = revoke_first-members_of at reason code session s0 in
    let same_members = kept ∙ p in
    let (gone, removed) =
      runtime_removed-members_of ctx.retention_ms (at 1) (at 2) code member_id session.id s1.runtime
        (ap (λ (l : Dict String). Dict.get member_id l) same_members ∙ seat) in
    let gone' = gone ∙ ap (λ (l : Dict String). Dict.remove member_id l) same_members in
    record {
      members = ground (arith, m, gone');
      removed = ground (arith, m, removed);
      rooms = ground (arith, m, same_rooms);
      closing = ground (arith, m, same_closing);
    }

-- Who is left of the shared view, once the session's own seat is gone.
pub remaining_members-absent :
    (member_id session_id : String) (members : Dict String)
    → Dict.get member_id members ≡ none
    → remaining_members member_id session_id members ≡ members
unfolding remaining_members Dict.get
remaining_members-absent member_id session_id [] h = refl
remaining_members-absent member_id session_id ((j, v) ∷ members) h =
    ground (arith, remaining_members-absent member_id session_id members)

pub members_in-by_now :
    (code : String) (rooms : ActiveRooms)
    → members_in (by_now code (Dict.get code rooms) rooms) ≡ members_of code rooms
members_in-by_now code rooms = elim (Option-cases (Dict.get code rooms)) [
  | inl e ↦ ground arith
  | inr (room, e) ↦ ground arith
]
