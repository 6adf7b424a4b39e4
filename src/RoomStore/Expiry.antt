-- ===== src/RoomStore/Expiry.antt =====
-- What the expiry sweep of RoomStore.antt removes.
use bili_sync_play.Prelude.{
  Bool, List, String, [], any, arith, false, if◌then◌else◌, none, not, refl, same, some, ℕ, ◌∷◌,
  ◌≡◌,
}
use bili_sync_play.Prelude.Dict
use bili_sync_play.RoomStore.{
  PersistedRoom, Rooms, delete_expired_rooms, expired_codes, get_room, has_expired,
}

-- In a map with distinct codes, after a sweep at time `now` a room is there exactly if it was and
-- had not expired, unchanged.
pub get_room-delete_expired_rooms :
    (now : ℕ) (code : String) (rooms : Rooms)
    → Dict.IsDistinct rooms
    → get_room code (delete_expired_rooms now rooms).0 ≡ elim (get_room code rooms) [
      | none ↦ none
      | some room ↦ if has_expired now room then none else some room
    ]
unfolding delete_expired_rooms
get_room-delete_expired_rooms now code rooms d = ground (
  arith,
  Dict.get-keep_values (λ (room : PersistedRoom). not (has_expired now room)) code rooms d,
)

abbrev pub lists : String → List String → Bool
lists code codes = any (λ c. same c code) codes

-- In a map with distinct codes the sweep reports exactly the codes of the rooms that had expired,
-- which it removes, and no orphaned entry.
pub delete_expired_rooms-reports :
    (now : ℕ) (code : String) (rooms : Rooms)
    → Dict.IsDistinct rooms
    → (lists code (delete_expired_rooms now rooms).1.deleted_room_codes
        ≡ elim (get_room code rooms) [ none ↦ false | some room ↦ has_expired now room ])
      × ((delete_expired_rooms now rooms).1.orphaned_index_codes ≡ [])
unfolding delete_expired_rooms Dict.get
delete_expired_rooms-reports now code rooms d = (lists-expired_codes rooms d, refl)
  where
    lists-expired_codes :
        (rooms : Rooms)
        → Dict.IsDistinct rooms
        → lists code (expired_codes now rooms)
          ≡ elim (get_room code rooms) [ none ↦ false | some room ↦ has_expired now room ]
    lists-expired_codes [] d = refl
    lists-expired_codes ((k, r) ∷ rooms) d = ground (arith, lists-expired_codes rooms)
