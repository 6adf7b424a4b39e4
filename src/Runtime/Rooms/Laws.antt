-- ===== src/Runtime/Rooms/Laws.antt =====
-- Presence and identity are separate: theorems on Runtime/Rooms.antt.
use bili_sync_play.Prelude.{
  Option, Option-cases, String, [], arith, false, inl, inr, none, refl, some, true, ◌∷◌, ◌≡◌, ◌≢◌,
}
use bili_sync_play.Prelude.Dict
use bili_sync_play.Prelude.Dict.{Dict}
use bili_sync_play.Runtime.Rooms.{
  ActiveRoom, ActiveRooms, is_empty, remove_member_from_room, revoke_member_token_in_room,
  settle_room,
}

-- The session that a member of a room is bound to, and the member's token.
abbrev pub binding : ActiveRooms → String → String → Option String
binding rooms code member_id = elim (Dict.get code rooms) [
  | none ↦ none
  | some room ↦ Dict.get member_id room.members
]

abbrev pub token_of : ActiveRooms → String → String → Option String
token_of rooms code member_id = elim (Dict.get code rooms) [
  | none ↦ none
  | some room ↦ Dict.get member_id room.member_tokens
]

-- A session that the member is no longer bound to can neither take the member's seat away nor
-- revoke the token: both calls report it and change nothing.
pub replaced_session_is_harmless :
    (rooms : ActiveRooms) (code member_id old current : String)
    → binding rooms code member_id ≡ some current
    → current ≢ old
    → ((remove_member_from_room rooms code member_id (some old)).0 ≡ rooms)
      × ((remove_member_from_room rooms code member_id (some old)).1.removed ≡ false)
      × (revoke_member_token_in_room rooms code member_id (some old) ≡ (rooms, false))
unfolding remove_member_from_room revoke_member_token_in_room
replaced_session_is_harmless rooms code member_id old current h ne =
    (ground arith, ground arith, ground arith)

get_empty : (k : String) (d : Dict String) → is_empty d ≡ true → Dict.get k d ≡ none
unfolding Dict.get
get_empty k [] h = refl
get_empty k (e ∷ d) h = cc

-- What is read after `settle_room`: the room is gone only if it held nothing.
token_of-settle_room :
    (rooms : ActiveRooms) (code : String) (room : ActiveRoom) (member_id : String)
    → token_of (settle_room rooms code room) code member_id ≡ Dict.get member_id room.member_tokens
token_of-settle_room rooms code room member_id = ground (
  arith,
  get_empty member_id room.member_tokens,
  Dict.get-remove_self code rooms,
  Dict.get-put_self code room rooms,
)

binding-settle_room :
    (rooms : ActiveRooms) (code : String) (room : ActiveRoom) (member_id : String)
    → binding (settle_room rooms code room) code member_id ≡ Dict.get member_id room.members
binding-settle_room rooms code room member_id = ground (
  arith,
  get_empty member_id room.members,
  Dict.get-remove_self code rooms,
  Dict.get-put_self code room rooms,
)

-- Leaving gives up the seat and no token: after `removeMember` by the session that holds the seat
-- the member is bound to nobody, and every member of the room has the token that they had.
pub remove_member-keeps-tokens :
    (rooms : ActiveRooms) (code member_id other session : String)
    → binding rooms code member_id ≡ some session
    → let (rooms', removal) = remove_member_from_room rooms code member_id (some session) in
      (removal.removed ≡ true)
      × (binding rooms' code member_id ≡ none)
      × (token_of rooms' code other ≡ token_of rooms code other)
unfolding remove_member_from_room
remove_member-keeps-tokens rooms code member_id other session h =
    elim (Option-cases (Dict.get code rooms)) [
      | inl e ↦ absurd (ground arith)
      | inr (room, e) ↦
          let rest : ActiveRoom = record room { members = Dict.remove member_id room.members } in
          (
            ground arith,
            ground (
              arith,
              binding-settle_room rooms code rest member_id,
              Dict.get-remove_self member_id room.members,
            ),
            ground (arith, token_of-settle_room rooms code rest other),
          )
    ]

-- Revoking ends the identity of that member alone, and unseats nobody.
pub revoke_member_token_lem :
    (rooms : ActiveRooms) (code member_id other : String)
    → let rooms' = (revoke_member_token_in_room rooms code member_id none).0 in
      (token_of rooms' code member_id ≡ none)
      × (binding rooms' code other ≡ binding rooms code other)
      × (member_id ≢ other → token_of rooms' code other ≡ token_of rooms code other)
unfolding revoke_member_token_in_room
revoke_member_token_lem rooms code member_id other = elim (Option-cases (Dict.get code rooms)) [
  | inl e ↦ (ground arith, ground arith, λ ne. ground arith)
  | inr (room, e) ↦
      let rest : ActiveRoom = record room {
        member_tokens = Dict.remove member_id room.member_tokens;
      } in
      (
        ground (
          arith,
          token_of-settle_room rooms code rest member_id,
          Dict.get-remove_self member_id room.member_tokens,
        ),
        ground (arith, binding-settle_room rooms code rest other),
        λ ne. ground (
          arith,
          token_of-settle_room rooms code rest other,
          Dict.get-remove_ne member_id other room.member_tokens ne,
        ),
      )
]
