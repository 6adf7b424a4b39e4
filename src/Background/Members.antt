-- ===== src/Background/Members.antt =====
-- extension/src/background/room-session-controller.ts: the changes of a room's members that arrive before
-- the room's first state, and how they are applied to it.
use bili_sync_play.Prelude.{Bool, List, String, [], if◌then◌else◌, keep, any, not, same, ◌++◌, ◌∷◌}
use bili_sync_play.Protocol.{RoomMember, RoomState}
pub mod Laws

pub data DeltaType : Type 0 where
  joined left : DeltaType

pub record PendingMemberDelta : Type 0 where
  pub kind : DeltaType
  pub room_code : String
  pub member : RoomMember

abbrev pub Deltas : Type 0
Deltas = List PendingMemberDelta

unfoldable pub clear_pending_member_deltas_for_room : String → Deltas → Deltas
clear_pending_member_deltas_for_room code deltas = keep (λ d. not (same d.room_code code)) deltas

unfoldable pub clear_pending_member_deltas_except_room : String → Deltas → Deltas
clear_pending_member_deltas_except_room code deltas = keep (λ d. same d.room_code code) deltas

unfoldable pub queue_member_delta : PendingMemberDelta → Deltas → Deltas
queue_member_delta delta deltas = deltas ++ (delta ∷ [])

unfoldable pub has_pending_member_deltas_for_room : String → Deltas → Bool
has_pending_member_deltas_for_room code deltas = any (λ d. same d.room_code code) deltas

-- The first member with the id is replaced; if there is none, the member comes last.
unfoldable pub put_member : RoomMember → List RoomMember → List RoomMember
put_member member [] = member ∷ []
put_member member (candidate ∷ members) =
    let rest = put_member member members in
    if same candidate.id member.id then member ∷ members else candidate ∷ rest

unfoldable pub drop_member : String → List RoomMember → List RoomMember
drop_member id members = keep (λ candidate. not (same candidate.id id)) members

unfoldable pub apply_member_delta : RoomState → PendingMemberDelta → RoomState
unfolding put_member drop_member
apply_member_delta current delta =
    if not (same current.room_code delta.room_code) then current else elim delta.kind [
      | left ↦ record current { members = drop_member delta.member.id current.members }
      | joined ↦ record current { members = put_member delta.member current.members }
    ]

-- The loop of consumePendingMemberDeltas, with the code of the state that arrived.
unfoldable pub consume_from : String → Deltas → RoomState → RoomState × Deltas
unfolding apply_member_delta
consume_from code [] resolved = (resolved, [])
consume_from code (delta ∷ deltas) resolved =
    let is_own = same delta.room_code code in
    let (resolved', remaining) =
      consume_from code deltas (if is_own then apply_member_delta resolved delta else resolved) in
    (resolved', if is_own then remaining else delta ∷ remaining)

unfoldable pub consume_pending_member_deltas : RoomState → Deltas → RoomState × Deltas
unfolding consume_from
consume_pending_member_deltas next deltas = consume_from next.room_code deltas next
