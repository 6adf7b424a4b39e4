-- ===== src/Runtime/Store.antt =====
-- server/src/runtime-store.ts, createInMemoryRuntimeStore: the operations on rooms, identities and
-- generations. `t` is the reading of the clock, and `t'` the second one where a call reads it twice.
use bili_sync_play.Prelude.{
  Bool, List, Option, String, [], any, false, if◌then◌else◌, is_nil, leb, ltb, max, none, or_else,
  same, same_option, some, true, ℕ, ◌&&◌, ◌*◌, ◌+◌, ◌||◌, ◌∷◌,
}
use bili_sync_play.Prelude.Dict
use bili_sync_play.Prelude.Dict.{Dict}
use bili_sync_play.Session.{Session}
use bili_sync_play.Runtime.Rooms.{
  ActiveRoom, ActiveRooms, KickedMemberBlock, Removal, add_member_to_room,
  filter_active_blocked_member_tokens, find_member_id_by_token_entries, is_empty,
  remove_member_from_room, revoke_member_token_in_room,
}
use bili_sync_play.Runtime.Slots.{Slots}
pub mod Identity
pub mod Generations
pub mod Blocks

pub record Runtime : Type 0 where
  pub sessions_by_id : Dict Session
  pub session_ids_by_remote_address : Dict (List String)
  pub room_session_ids : Dict (List String)
  pub rooms : ActiveRooms
  pub blocked_member_tokens : Dict (List KickedMemberBlock)
  pub claimed_slots : Slots
  pub owned_room_locks : Slots
  pub member_token_expiry : Dict (Dict ℕ)
  pub room_generations : Dict String

-- DEFAULT_MEMBER_TOKEN_RETENTION_MS
abbrev pub default_member_token_retention_ms : ℕ
default_member_token_retention_ms = 30 * 60000

unfoldable pub expired_ids : ℕ → Dict ℕ → List String
expired_ids t [] = []
expired_ids t ((member_id, at) ∷ expiry) =
    let rest = expired_ids t expiry in if leb at t then member_id ∷ rest else rest

unfoldable pub revoke_all : String → List String → ActiveRooms → ActiveRooms
revoke_all code [] rooms = rooms
revoke_all code (id ∷ ids) rooms =
    revoke_all code ids (revoke_member_token_in_room rooms code id none).0

abbrev pub write_expiry : String → Dict ℕ → Dict (Dict ℕ) → Dict (Dict ℕ)
write_expiry code expiry all =
    if is_empty expiry then Dict.remove code all else Dict.put code expiry all

unfoldable pub prune_expired_member_tokens : ℕ → String → Runtime → Runtime
prune_expired_member_tokens t code rt = elim (Dict.get code rt.member_token_expiry) [
  | none ↦ rt
  | some expiry ↦ record rt {
    rooms = revoke_all code (expired_ids t expiry) rt.rooms;
    member_token_expiry =
        write_expiry code (Dict.keep_values (λ at. ltb t at) expiry) rt.member_token_expiry;
  }
]

unfoldable pub get_room : ℕ → String → Runtime → Runtime × Option ActiveRoom
get_room t code rt =
    let pruned = prune_expired_member_tokens t code rt in (pruned, Dict.get code pruned.rooms)

-- Back in use: the identity is no longer on the clock.
abbrev pub off_the_clock : String → String → Dict (Dict ℕ) → Dict (Dict ℕ)
off_the_clock code member_id all = elim (Dict.get code all) [
  | none ↦ all
  | some expiry ↦ Dict.put code (Dict.remove member_id expiry) all
]

unfoldable pub add_member : ℕ → String → String → String → String → Runtime → Runtime × ActiveRoom
add_member t code member_id session_id member_token rt =
    let pruned = prune_expired_member_tokens t code rt in
    let (rooms, room) = add_member_to_room pruned.rooms code member_id session_id member_token in
    (
      record pruned {
        rooms = rooms;
        member_token_expiry = off_the_clock code member_id pruned.member_token_expiry;
      },
      room,
    )

unfoldable pub find_member_id_by_token : ℕ → String → String → Runtime → Runtime × Option String
find_member_id_by_token t code member_token rt =
    let pruned = prune_expired_member_tokens t code rt in
    (
      pruned,
      elim (Dict.get code pruned.rooms) [
        | none ↦ none
        | some room ↦ find_member_id_by_token_entries room.member_tokens member_token
      ],
    )

abbrev pub has_token : String → String → ActiveRooms → Bool
has_token code member_id rooms = elim (Dict.get code rooms) [
  | none ↦ false
  | some room ↦ Dict.has member_id room.member_tokens
]

-- Presence is gone and the identity stays: its clock starts.
unfoldable pub remove_member :
    ℕ → ℕ → ℕ → String → String → Option String → Runtime → Runtime × Removal
remove_member retention_ms t t' code member_id session rt =
    let pruned = prune_expired_member_tokens t code rt in
    let (rooms, removal) = remove_member_from_room pruned.rooms code member_id session in
    let expiry = or_else (Dict.get code pruned.member_token_expiry) [] in
    (
      record pruned {
        rooms = rooms;
        member_token_expiry =
            if removal.removed && has_token code member_id rooms
            then Dict.put code (Dict.put member_id (t' + retention_ms) expiry)
                pruned.member_token_expiry
            else pruned.member_token_expiry;
      },
      removal,
    )

unfoldable pub revoke_member_token : String → String → Option String → Runtime → Runtime
revoke_member_token code member_id session rt =
    let (rooms, revoked) = revoke_member_token_in_room rt.rooms code member_id session in
    record rt {
      rooms = rooms;
      member_token_expiry =
          if revoked
          then elim (Dict.get code rt.member_token_expiry) [
            | none ↦ rt.member_token_expiry
            | some expiry ↦ write_expiry code (Dict.remove member_id expiry) rt.member_token_expiry
          ]
          else rt.member_token_expiry;
    }

-- The entries that still block, and the store without the others.
unfoldable pub prune_blocked_member_tokens : String → ℕ → Runtime → Runtime × List KickedMemberBlock
prune_blocked_member_tokens code t rt =
    let entries = or_else (Dict.get code rt.blocked_member_tokens) [] in
    let active = filter_active_blocked_member_tokens entries t in
    (
      record rt {
        blocked_member_tokens =
            if is_nil active
            then Dict.remove code rt.blocked_member_tokens
            else Dict.put code active rt.blocked_member_tokens;
      },
      active,
    )

abbrev pub is_blocked_in : String → List KickedMemberBlock → Bool
is_blocked_in token entries = any (λ e. same e.member_token token) entries

unfoldable pub is_member_token_blocked : String → String → ℕ → Runtime → Runtime × Bool
is_member_token_blocked code member_token t rt =
    let (pruned, active) = prune_blocked_member_tokens code t rt in
    (pruned, is_blocked_in member_token active)

-- `find` and then `Math.max` on the entry found, or a new entry at the end.
unfoldable pub block_token : String → ℕ → List KickedMemberBlock → List KickedMemberBlock
block_token token until [] = record { member_token = token; expires_at = until } ∷ []
block_token token until (e ∷ entries) =
    if same e.member_token token
    then record e { expires_at = max e.expires_at until } ∷ entries
    else e ∷ block_token token until entries

unfoldable pub evict_member_token : ℕ → String → String → String → ℕ → Runtime → Runtime
evict_member_token t code member_id member_token blocked_until rt =
    let (pruned, active) = prune_blocked_member_tokens code t rt in
    revoke_member_token code member_id none (record pruned {
      blocked_member_tokens =
          Dict.put code (block_token member_token blocked_until active)
            pruned.blocked_member_tokens;
    })

-- Generations and room locks do not count as residue.
unfoldable pub has_room_residue : ℕ → String → Runtime → Runtime × Bool
has_room_residue t code rt =
    let pruned = prune_expired_member_tokens t code rt in
    (
      pruned,
      Dict.has code pruned.rooms
          || Dict.has code pruned.room_session_ids
          || Dict.has code pruned.blocked_member_tokens
          || Dict.has code pruned.member_token_expiry
          || Dict.has code pruned.claimed_slots,
    )

abbrev pub get_room_generation : String → Runtime → Option String
get_room_generation code rt = Dict.get code rt.room_generations

unfoldable pub mark_room_generation : String → String → Option String → Runtime → Runtime × Bool
mark_room_generation code generation expected_previous rt =
    if same_option (get_room_generation code rt) expected_previous
    then (record rt { room_generations = Dict.put code generation rt.room_generations }, true)
    else (rt, false)

unfoldable pub delete_room : String → Option String → Runtime → Runtime × Bool
delete_room code expected_generation rt =
    if same_option (get_room_generation code rt) expected_generation
    then (
      record rt {
        room_generations = Dict.remove code rt.room_generations;
        rooms = Dict.remove code rt.rooms;
        member_token_expiry = Dict.remove code rt.member_token_expiry;
        room_session_ids = Dict.remove code rt.room_session_ids;
        blocked_member_tokens = Dict.remove code rt.blocked_member_tokens;
        claimed_slots = Dict.remove code rt.claimed_slots;
        owned_room_locks = Dict.remove code rt.owned_room_locks;
      },
      true,
    )
    else (rt, false)
