-- ===== src/Runtime/Slots/Laws.antt =====
-- Who holds a slot or a lock: theorems on Runtime/Slots.antt.
use bili_sync_play.Prelude.{
  Bool, Option, String, [], arith, false, ltb, none, not, refl, some, true, ℕ, ◌<◌, ◌≡◌,
}
use bili_sync_play.Prelude.Dict
use bili_sync_play.Prelude.Dict.{Dict}
use bili_sync_play.Runtime.Slots.{
  Slot, Slots, acquire_room_lock, drop_expired, holds, release_room_lock, room_slots,
  try_claim_message_slot,
}

-- The entry under a key of a room.
abbrev pub slot_of : Slots → String → String → Option Slot
slot_of slots room_code key = Dict.get key (room_slots room_code slots)

-- Somebody holds the key at time `t`.
abbrev pub is_held : ℕ → Option Slot → Bool
is_held t none = false
is_held t (some s) = ltb t s.expires_at

get-drop_expired :
    (t : ℕ) (key : String) (held : Dict Slot)
    → Dict.IsDistinct held
    → Dict.has key (drop_expired t held) ≡ is_held t (Dict.get key held)
get-drop_expired t key held d =
    ground (arith, Dict.get-keep_values (λ (s : Slot). ltb t s.expires_at) key held d)

module _ (t : ℕ) (room_code key token : String) (until : ℕ) (slots : Slots)
    (distinct : Dict.IsDistinct (room_slots room_code slots)) where
  abbrev pub live : Dict Slot
  live = drop_expired t (room_slots room_code slots)

  abbrev pub mine : Slot
  mine = record { token = token; expires_at = until }

  -- A lock is granted exactly if nobody holds the key at that time, and then stands under the
  -- caller's token until the time asked for.
  acquire_room_lock_lem :
      let (locks, granted) = acquire_room_lock t room_code key token until slots in
      (granted ≡ not (is_held t (slot_of slots room_code key)))
      × (granted ≡ true
          → slot_of locks room_code key ≡ some (record { token = token; expires_at = until }))
  unfolding acquire_room_lock
  acquire_room_lock_lem = (
    ground (arith, get-drop_expired t key (room_slots room_code slots) distinct),
    λ h. ground (
      arith,
      Dict.get-put_self room_code (Dict.put key mine live) slots,
      Dict.get-put_self key mine live,
    ),
  )

  -- A message slot is claimed under the same rule.
  pub try_claim_message_slot_lem :
      let (slots', granted) = try_claim_message_slot t room_code key token until slots in
      (granted ≡ not (is_held t (slot_of slots room_code key)))
      × (granted ≡ true
          → slot_of slots' room_code key ≡ some (record { token = token; expires_at = until }))
  unfolding try_claim_message_slot
  try_claim_message_slot_lem = (
    ground (arith, get-drop_expired t key (room_slots room_code slots) distinct),
    λ h. ground (
      arith,
      Dict.get-put_self room_code (Dict.put key mine live) slots,
      Dict.get-put_self key mine live,
    ),
  )

-- Only the holder's token releases a lock: any other call is refused and changes nothing, and after
-- the holder's the key is free.
pub release_room_lock_lem :
    (room_code key token : String) (locks : Slots)
    → let (locks', released) = release_room_lock room_code key token locks in
      (released ≡ holds token (slot_of locks room_code key))
      × (released ≡ false → locks' ≡ locks)
      × (released ≡ true → slot_of locks' room_code key ≡ none)
unfolding release_room_lock
release_room_lock_lem room_code key token locks = (
  ground arith,
  λ h. ground arith,
  λ h.
      let rest = Dict.remove key (room_slots room_code locks) in
      ground (
        arith,
        Dict.get-remove_self room_code locks,
        Dict.get-put_self room_code rest locks,
        Dict.get-remove_self key (room_slots room_code locks),
        get_nil key,
      ),
)
  where
    get_nil : (k : String) → Dict.get {V = Slot} k [] ≡ none
    get_nil k = unfold Dict.get in refl

acquire-IsDistinct :
    (t : ℕ) (room_code key token : String) (until : ℕ) (locks : Slots)
    → Dict.IsDistinct (room_slots room_code locks)
    → Dict.IsDistinct (room_slots room_code (acquire_room_lock t room_code key token until locks).0)
unfolding acquire_room_lock
acquire-IsDistinct t room_code key token until locks d =
    let now_live = drop_expired t (room_slots room_code locks) in
    let held : Slot = record { token = token; expires_at = until } in
    let live_distinct =
      Dict.keep_values-IsDistinct (λ (s : Slot). ltb t s.expires_at) (room_slots room_code locks)
        d in
    ground (
      arith,
      Dict.put-IsDistinct key held now_live live_distinct,
      Dict.get-put_self room_code (Dict.put key held now_live) locks,
      Dict.get-put_self room_code now_live locks,
    )

-- Mutual exclusion: a lock that was granted until some time is refused to everybody before it, if
-- the keys of the room are distinct.
pub acquire_room_lock_twice :
    (t t' : ℕ) (room_code key token token' : String) (until until' : ℕ) (locks : Slots)
    → Dict.IsDistinct (room_slots room_code locks)
    → (acquire_room_lock t room_code key token until locks).1 ≡ true
    → t' < until
    → (acquire_room_lock t' room_code key token' until'
        (acquire_room_lock t room_code key token until locks).0).1
      ≡ false
acquire_room_lock_twice t t' room_code key token token' until until' locks d h early =
    let locks' = (acquire_room_lock t room_code key token until locks).0 in
    let d' = acquire-IsDistinct t room_code key token until locks d in
    let stored = (acquire_room_lock_lem t room_code key token until locks d).1 h in
    let again = (acquire_room_lock_lem t' room_code key token' until' locks' d').0 in ground arith

-- A lock that is held stays as it is under a call that asks for it, and so do the distinct keys.
pub acquire_room_lock-refused :
    (t : ℕ) (room_code key token : String) (until : ℕ) (locks : Slots) (held : Slot)
    → Dict.IsDistinct (room_slots room_code locks)
    → slot_of locks room_code key ≡ some held
    → t < held.expires_at
    → let (locks', granted) = acquire_room_lock t room_code key token until locks in
      (granted ≡ false)
      × (slot_of locks' room_code key ≡ some held)
      × Dict.IsDistinct (room_slots room_code locks')
unfolding acquire_room_lock
acquire_room_lock-refused t room_code key token until locks held d h early =
    let alive = drop_expired t (room_slots room_code locks) in
    let kept =
      Dict.get-keep_values (λ (s : Slot). ltb t s.expires_at) key (room_slots room_code locks) d in
    (
      ground (arith, kept, h, early),
      ground (arith, kept, h, early, Dict.get-put_self room_code alive locks),
      acquire-IsDistinct t room_code key token until locks d,
    )
