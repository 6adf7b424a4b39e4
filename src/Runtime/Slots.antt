-- ===== src/Runtime/Slots.antt =====
-- server/src/runtime-store.ts: the message slots that deduplicate frames, and the room locks. Both
-- are, for each room, a map from a key to the token that holds it and the time until when.
use bili_sync_play.Prelude.{
  Bool, Option, String, [], false, if◌then◌else◌, ltb, none, or_else, same, some, true, ℕ,
}
use bili_sync_play.Prelude.Dict
use bili_sync_play.Prelude.Dict.{Dict}
use bili_sync_play.Runtime.Rooms.{is_empty}
pub mod Laws

pub record Slot : Type 0 where
  pub token : String
  pub expires_at : ℕ

abbrev pub Slots : Type 0
Slots = Dict (Dict Slot)

abbrev pub room_slots : String → Slots → Dict Slot
room_slots room_code slots = or_else (Dict.get room_code slots) []

-- `if (slot.expiresAt <= currentTime) roomSlots.delete(k)`
abbrev pub drop_expired : ℕ → Dict Slot → Dict Slot
drop_expired t held = Dict.keep_values (λ s. ltb t s.expires_at) held

-- The map of a room is an object: what the loop deletes from it is gone also when the claim fails.
abbrev pub write_back : String → Dict Slot → Slots → Slots
write_back room_code live slots =
    if Dict.has room_code slots then Dict.put room_code live slots else slots

unfoldable pub try_claim_message_slot : ℕ → String → String → String → ℕ → Slots → Slots × Bool
try_claim_message_slot t room_code key token expires_at slots =
    let live = drop_expired t (room_slots room_code slots) in
    if Dict.has key live then (write_back room_code live slots, false) else (
      Dict.put room_code (Dict.put key (record { token = token; expires_at = expires_at }) live)
          slots,
      true,
    )

abbrev pub holds : String → Option Slot → Bool
holds token none = false
holds token (some s) = same s.token token

unfoldable pub release_message_slot : String → String → String → Slots → Slots × Bool
release_message_slot room_code key token slots =
    let held = room_slots room_code slots in
    if holds token (Dict.get key held)
    then (Dict.put room_code (Dict.remove key held) slots, true)
    else (slots, false)

unfoldable pub acquire_room_lock : ℕ → String → String → String → ℕ → Slots → Slots × Bool
acquire_room_lock t room_code key token expires_at locks =
    let live = drop_expired t (room_slots room_code locks) in
    if Dict.has key live then (write_back room_code live locks, false) else (
      Dict.put room_code (Dict.put key (record { token = token; expires_at = expires_at }) live)
          locks,
      true,
    )

unfoldable pub release_room_lock : String → String → String → Slots → Slots × Bool
release_room_lock room_code key token locks =
    let held = room_slots room_code locks in
    let rest = Dict.remove key held in
    if holds token (Dict.get key held)
    then (
      if is_empty rest then Dict.remove room_code locks else Dict.put room_code rest locks,
      true,
    )
    else (locks, false)
