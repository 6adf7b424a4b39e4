-- ===== src/Runtime/Store/Generations.antt =====
-- A room code is recycled: what the generation guard of Runtime/Store.antt protects.
use bili_sync_play.Prelude.{Option, String, arith, false, none, same_option_ne, true, ℕ, ◌≡◌, ◌≢◌}
use bili_sync_play.Prelude.Dict
use bili_sync_play.Prelude.Dict.{Dict}
use bili_sync_play.Runtime.Store.{
  Runtime, delete_room, get_room_generation, has_room_residue, mark_room_generation,
  prune_expired_member_tokens,
}

-- A teardown that was decided against another generation of the code is declined and changes
-- nothing; so is a stamp whose pin no longer holds.
pub stale_generation_is_harmless :
    (code next : String) (expected : Option String) (rt : Runtime)
    → get_room_generation code rt ≢ expected
    → (delete_room code expected rt ≡ (rt, false))
      × (mark_room_generation code next expected rt ≡ (rt, false))
unfolding delete_room mark_room_generation
stale_generation_is_harmless code next expected rt ne =
    let other = same_option_ne (get_room_generation code rt) expected ne in
    (ground arith, ground arith)

-- No map of the store has an entry under the code.
pub record IsCleared (code : String) (rt : Runtime) : Type 0 where
  pub room : Dict.get code rt.rooms ≡ none
  pub expiry : Dict.get code rt.member_token_expiry ≡ none
  pub sessions : Dict.get code rt.room_session_ids ≡ none
  pub blocked : Dict.get code rt.blocked_member_tokens ≡ none
  pub slots : Dict.get code rt.claimed_slots ≡ none
  pub lock : Dict.get code rt.owned_room_locks ≡ none
  pub generation : Dict.get code rt.room_generations ≡ none

-- A teardown that applies leaves no entry under the code, in any map.
pub delete_room-IsCleared :
    (code : String) (expected : Option String) (rt : Runtime)
    → (delete_room code expected rt).1 ≡ true
    → IsCleared code (delete_room code expected rt).0
unfolding delete_room
delete_room-IsCleared code expected rt h = record {
  room = ground (arith, Dict.get-remove_self code rt.rooms);
  expiry = ground (arith, Dict.get-remove_self code rt.member_token_expiry);
  sessions = ground (arith, Dict.get-remove_self code rt.room_session_ids);
  blocked = ground (arith, Dict.get-remove_self code rt.blocked_member_tokens);
  slots = ground (arith, Dict.get-remove_self code rt.claimed_slots);
  lock = ground (arith, Dict.get-remove_self code rt.owned_room_locks);
  generation = ground (arith, Dict.get-remove_self code rt.room_generations);
}

-- A teardown that applies leaves no residue under the code, at any later time, and no generation.
pub delete_room-clears :
    (t : ℕ) (code : String) (expected : Option String) (rt : Runtime)
    → (delete_room code expected rt).1 ≡ true
    → let rt' = (delete_room code expected rt).0 in
      (has_room_residue t code rt' ≡ (rt', false)) × (get_room_generation code rt' ≡ none)
unfolding delete_room has_room_residue prune_expired_member_tokens
delete_room-clears t code expected rt h = (
  ground (
    arith,
    Dict.get-remove_self code rt.rooms,
    Dict.get-remove_self code rt.member_token_expiry,
    Dict.get-remove_self code rt.room_session_ids,
    Dict.get-remove_self code rt.blocked_member_tokens,
    Dict.get-remove_self code rt.claimed_slots,
  ),
  ground (arith, Dict.get-remove_self code rt.room_generations),
)

-- What other rooms hold stays as it is.
delete_room-others :
    (code other : String) (expected : Option String) (rt : Runtime)
    → code ≢ other
    → let rt' = (delete_room code expected rt).0 in
      (Dict.get other rt'.rooms ≡ Dict.get other rt.rooms)
      × (Dict.get other rt'.member_token_expiry ≡ Dict.get other rt.member_token_expiry)
      × (Dict.get other rt'.room_session_ids ≡ Dict.get other rt.room_session_ids)
      × (Dict.get other rt'.blocked_member_tokens ≡ Dict.get other rt.blocked_member_tokens)
      × (Dict.get other rt'.owned_room_locks ≡ Dict.get other rt.owned_room_locks)
      × (get_room_generation other rt' ≡ get_room_generation other rt)
unfolding delete_room
delete_room-others code other expected rt ne = (
  ground (arith, Dict.get-remove_ne code other rt.rooms ne),
  ground (arith, Dict.get-remove_ne code other rt.member_token_expiry ne),
  ground (arith, Dict.get-remove_ne code other rt.room_session_ids ne),
  ground (arith, Dict.get-remove_ne code other rt.blocked_member_tokens ne),
  ground (arith, Dict.get-remove_ne code other rt.owned_room_locks ne),
  ground (arith, Dict.get-remove_ne code other rt.room_generations ne),
)
