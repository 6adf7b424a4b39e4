-- ===== src/Tests/Stores.antt =====
-- The stores, at concrete inputs.
use bili_sync_play.Prelude.{
  [], arith, if◌then◌else◌, leb, ne_of_test, none, refl, some, true, ◌+◌, ◌∷◌, ◌≡◌,
}
use bili_sync_play.Prelude.Tests.{text_discrete}
use bili_sync_play.Prelude.Dict
use bili_sync_play.RoomStore.{
  PersistedRoom, PersistedRoomPatch, Rooms, at_version, empty_patch, patch_room, update_room,
  version_conflict,
}
use bili_sync_play.RoomStore.Laws.{update_room_twice}
use bili_sync_play.Runtime.Rooms.Laws.{binding, token_of}
use bili_sync_play.Runtime.Store.{
  evict_member_token, is_member_token_blocked, prune_expired_member_tokens, remove_member,
}
use bili_sync_play.Runtime.Store.Identity.{disconnect_keeps_identity}
use bili_sync_play.Runtime.Store.Blocks.{evict_member_token_lem}
use bili_sync_play.Tests.Values.{room, runtime}

abbrev rooms : Rooms
rooms = ("R", room) ∷ []

abbrev patch : PersistedRoomPatch
patch = record empty_patch { last_active_at = some 1500 }

update_room_twice_example :
    let rooms' = (update_room 1500 "R" (at_version 3) patch rooms).0 in
    update_room 1600 "R" (at_version 3) empty_patch rooms' ≡ (rooms', version_conflict)
unfolding update_room Dict.get text_discrete
update_room_twice_example =
    update_room_twice 1500 1600 "R" 3 patch empty_patch rooms (patch_room 1500 patch room) refl

abbrev expiring : PersistedRoom
expiring = record room { expires_at = some 1200 }

disconnect_keeps_identity_example :
    let rt' = (remove_member 1800000 1000 1000 "R" "a" (some "a") runtime).0 in
    (binding rt'.rooms "R" "a" ≡ none)
    × (token_of (prune_expired_member_tokens 5000 "R" rt').rooms "R" "a"
        ≡ (if leb (1000 + 1800000) 5000 then none else some "tok"))
unfolding Dict.get text_discrete
disconnect_keeps_identity_example =
    disconnect_keeps_identity 1800000 1000 1000 5000 "R" "a" "a" "tok" runtime refl refl refl
      (ground arith)

evict_member_token_lem_example :
    let rt' = evict_member_token 1000 "R" "a" "tok" 61000 runtime in
    ((is_member_token_blocked "R" "tok" 2000 rt').1 ≡ true)
    × (token_of rt'.rooms "R" "a" ≡ none)
    × ((is_member_token_blocked "R" "other" 2000 rt').1
        ≡ (is_member_token_blocked "R" "other" 2000 runtime).1)
unfolding text_discrete
evict_member_token_lem_example =
    evict_member_token_lem 1000 2000 "R" "a" "tok" "other" 61000 runtime (ground arith)
      (ground arith) (ne_of_test "tok" "other" refl)
