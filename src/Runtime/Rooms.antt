-- ===== src/Runtime/Rooms.antt =====
-- server/src/runtime-store-state.ts: presence and identity in the rooms of one node. A member is
-- bound to a session by the session's id; `members` is presence, `member_tokens` identity.
use bili_sync_play.Prelude.{
  Bool, List, Option, String, [], false, if◌then◌else◌, keep, ltb, none, not, same, some, true,
  truthy, ℕ, ◌&&◌, ◌∷◌,
}
use bili_sync_play.Prelude.Dict
use bili_sync_play.Prelude.Dict.{Dict}
pub mod Laws

pub record ActiveRoom : Type 0 where
  pub code : String
  pub members : Dict String
  pub member_tokens : Dict String

abbrev pub ActiveRooms : Type 0
ActiveRooms = Dict ActiveRoom

pub record KickedMemberBlock : Type 0 where
  pub member_token : String
  pub expires_at : ℕ

pub record Removal : Type 0 where
  pub room : Option ActiveRoom
  pub room_empty : Bool
  pub removed : Bool

-- `map.size === 0`
abbrev pub is_empty {ℓ} : {V : Type ℓ} → Dict V → Bool
is_empty [] = true
is_empty (_ ∷ _) = false

abbrev pub get_previous_room_to_leave : Option String → String → Option String
get_previous_room_to_leave current next = elim (truthy current) [
  | none ↦ none
  | some code ↦ if same code next then none else some code
]

unfoldable pub resolve_room_code_to_leave : Option String → Option String → Option String
resolve_room_code_to_leave current requested = elim requested [
  | none ↦ current
  | some code ↦ some code
]

-- A binding that is missing, or an expectation that is, does not stand in the way; an empty text
-- counts as missing.
abbrev pub should_remove_member_binding : Option String → Option String → Bool
should_remove_member_binding current expected = elim (truthy expected) [
  | none ↦ true
  | some e ↦ elim (truthy current) [ none ↦ true | some c ↦ same c e ]
]

-- The room, and the map that holds it.
unfoldable pub get_or_create_active_room : ActiveRooms → String → ActiveRooms × ActiveRoom
get_or_create_active_room rooms code = elim (Dict.get code rooms) [
  | some room ↦ (rooms, room)
  | none ↦
      let room : ActiveRoom = record { code = code; members = []; member_tokens = [] } in
      (Dict.put code room rooms, room)
]

unfoldable pub add_member_to_room :
    ActiveRooms → String → String → String → String → ActiveRooms × ActiveRoom
unfolding get_or_create_active_room
add_member_to_room rooms code member_id session_id member_token =
    let (held, room) = get_or_create_active_room rooms code in
    let joined = record room {
      members = Dict.put member_id session_id room.members;
      member_tokens = Dict.put member_id member_token room.member_tokens;
    } in
    (Dict.put code joined held, joined)

unfoldable pub find_member_id_by_token_entries : Dict String → String → Option String
find_member_id_by_token_entries [] token = none
find_member_id_by_token_entries ((member_id, t) ∷ entries) token =
    if same t token then some member_id else find_member_id_by_token_entries entries token

abbrev pub filter_active_blocked_member_tokens : List KickedMemberBlock → ℕ → List KickedMemberBlock
filter_active_blocked_member_tokens entries t = keep (λ e. ltb t e.expires_at) entries

-- `currentSession && currentSession !== session`, where a session is given
abbrev pub bound_elsewhere : Option String → Option String → Bool
bound_elsewhere (some current) (some session) = not (same current session)
bound_elsewhere _ _ = false

-- The room after a change: dropped from the map once it has neither a member nor a token.
abbrev pub settle_room : ActiveRooms → String → ActiveRoom → ActiveRooms
settle_room rooms code room =
    if is_empty room.members && is_empty room.member_tokens
    then Dict.remove code rooms
    else Dict.put code room rooms

unfoldable pub remove_member_from_room :
    ActiveRooms → String → String → Option String → ActiveRooms × Removal
remove_member_from_room rooms code member_id session = elim (Dict.get code rooms) [
  | none ↦ (rooms, record { room = none; room_empty = true; removed = false })
  | some room ↦
      if bound_elsewhere (Dict.get member_id room.members) session
      then (rooms, record { room = some room; room_empty = false; removed = false })
      else let rest = record room { members = Dict.remove member_id room.members } in
        (
          settle_room rooms code rest,
          record {
            room = if is_empty rest.members then none else some rest;
            room_empty = is_empty rest.members;
            removed = Dict.has member_id room.members;
          },
        )
]

unfoldable pub revoke_member_token_in_room :
    ActiveRooms → String → String → Option String → ActiveRooms × Bool
revoke_member_token_in_room rooms code member_id session = elim (Dict.get code rooms) [
  | none ↦ (rooms, false)
  | some room ↦
      if bound_elsewhere (Dict.get member_id room.members) session
      then (rooms, false)
      else let rest = record room { member_tokens = Dict.remove member_id room.member_tokens } in
        (settle_room rooms code rest, Dict.has member_id room.member_tokens)
]
