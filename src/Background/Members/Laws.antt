-- ===== src/Background/Members/Laws.antt =====
-- The roster that a client shows after its queued changes: theorems on Background/Members.antt.
use bili_sync_play.Prelude.{
  List, Option, String, [], arith, if◌then◌else◌, keep, none, not, refl, same, some, true, ◌&&◌,
  ◌∷◌, ◌≡◌,
}
use bili_sync_play.Protocol.{RoomMember, RoomState}
use bili_sync_play.Background.Members.{
  Deltas, PendingMemberDelta, apply_member_delta, consume_from, consume_pending_member_deltas,
  drop_member, joined, left, put_member,
}

-- The name under which a member is listed.
unfoldable pub name_of : String → List RoomMember → Option String
name_of id [] = none
name_of id (member ∷ members) =
    let rest = name_of id members in if same member.id id then some member.name else rest

abbrev pub word_of : PendingMemberDelta → Option String
word_of delta = elim delta.kind [ joined ↦ some delta.member.name | left ↦ none ]

-- The roster as the last word on each member: what is known of `id` after the changes for the room.
unfoldable pub last_word : String → String → Deltas → Option String → Option String
last_word code id [] known = known
last_word code id (delta ∷ deltas) known =
    last_word code id deltas
      (if same delta.room_code code && same delta.member.id id then word_of delta else known)

name_of-put_member :
    (id : String) (member : RoomMember) (members : List RoomMember)
    → name_of id (put_member member members)
      ≡ (if same member.id id then some member.name else name_of id members)
unfolding name_of put_member
name_of-put_member id member [] = refl
name_of-put_member id member (x ∷ xs) = ground (arith, name_of-put_member id member xs)

name_of-drop_member :
    (id gone : String) (members : List RoomMember)
    → name_of id (drop_member gone members) ≡ (if same gone id then none else name_of id members)
unfolding name_of drop_member
name_of-drop_member id gone [] = ground arith
name_of-drop_member id gone (x ∷ xs) = ground (arith, name_of-drop_member id gone xs)

name_of-apply :
    (id : String) (current : RoomState) (delta : PendingMemberDelta)
    → same current.room_code delta.room_code ≡ true
    → name_of id (apply_member_delta current delta).members
      ≡ (if same delta.member.id id then word_of delta else name_of id current.members)
unfolding apply_member_delta
name_of-apply id current delta own = ground (
  arith,
  own,
  name_of-put_member id delta.member current.members,
  name_of-drop_member id delta.member.id current.members,
)

apply-room_code :
    (current : RoomState) (delta : PendingMemberDelta)
    → (apply_member_delta current delta).room_code ≡ current.room_code
unfolding apply_member_delta
apply-room_code current delta = ground arith

consumed_from :
    (code id : String) (deltas : Deltas) (resolved : RoomState)
    → resolved.room_code ≡ code
    → let (resolved', remaining) = consume_from code deltas resolved in
      (name_of id resolved'.members ≡ last_word code id deltas (name_of id resolved.members))
      × (remaining ≡ keep (λ d. not (same d.room_code code)) deltas)
unfolding consume_from last_word
consumed_from code id [] resolved here = (refl, refl)
consumed_from code id (delta ∷ deltas) resolved here =
    let applied = apply_member_delta resolved delta in
    ground (
      arith,
      here,
      consumed_from code id deltas resolved,
      consumed_from code id deltas applied,
      name_of-apply id resolved delta,
      apply-room_code resolved delta,
    )

-- The first state of a room is brought up to date by what was queued for the room: each member is listed
-- as the last change about it says, under the name that it gives or not at all, and without one as
-- in the state; the changes for other rooms stay queued, in their order.
pub consume_pending_member_deltas-last_word :
    (id : String) (next : RoomState) (deltas : Deltas)
    → let (resolved, remaining) = consume_pending_member_deltas next deltas in
      (name_of id resolved.members ≡ last_word next.room_code id deltas (name_of id next.members))
      × (remaining ≡ keep (λ d. not (same d.room_code next.room_code)) deltas)
unfolding consume_pending_member_deltas
consume_pending_member_deltas-last_word id next deltas =
    consumed_from next.room_code id deltas next refl
