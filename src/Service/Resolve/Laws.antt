-- ===== src/Service/Resolve/Laws.antt =====
-- What a handler is given for a room code: theorems on Service/Resolve.antt.
use bili_sync_play.Prelude.{
  Bool, String, ap, arith, false, none, same_option_refl, some, subst, sym, true, ℕ, ◌+◌, ◌≡◌, ◌≤◌,
  ◌⊎◌,
}
use bili_sync_play.Prelude.Dict
use bili_sync_play.RoomStore.{PersistedRoom, delete_expired_room, get_room, has_expired}
use bili_sync_play.Runtime.Store as Live
use bili_sync_play.Runtime.Store.Generations.{IsCleared, delete_room-IsCleared, delete_room-clears}
use bili_sync_play.Service.State.{Env, Service, alone, ok}
use bili_sync_play.Service.Resolve.{resolve_room}

-- A room that is handed out stands in the store at that moment, and had not expired when the
-- handler last looked, whatever the other requests do meanwhile.
pub resolve_room-live :
    (env : Env) (code : String) (s : Service) (room : PersistedRoom)
    → (resolve_room env code s).1 ≡ ok (some room)
    → (get_room code (resolve_room env code s).0.rooms ≡ some room)
      × ((has_expired (env.at 0) room ≡ false) ⊎ (has_expired (env.at 2) room ≡ false))
unfolding resolve_room delete_expired_room
resolve_room-live env code s room h = (ground arith, ground arith)

-- Reading a room that is alive changes nothing.
pub resolve_room-alive :
    (env : Env) (code : String) (s : Service) (room : PersistedRoom)
    → get_room code s.rooms ≡ some room
    → has_expired (env.at 0) room ≡ false
    → resolve_room env code s ≡ (s, ok (some room))
unfolding resolve_room
resolve_room-alive env code s room h e = ground arith

-- A room that the reader saw expired, and that another request revived for good before the delete
-- reached the store, while the service is not closing, is not deleted, and neither is anything of its runtime state.
pub resolve_room-revived :
    (env : Env) (code : String) (s : Service) (room fresh : PersistedRoom)
    → get_room code s.rooms ≡ some room
    → has_expired (env.at 0) room ≡ true
    → s.closing ≡ false
    → get_room code (env.others 0 s).rooms ≡ some fresh
    → fresh.expires_at ≡ none
    → resolve_room env code s ≡ (env.others 0 s, ok (some fresh))
unfolding resolve_room delete_expired_room
resolve_room-revived env code s room fresh h x c h' alive = ground arith

torn_down :
    (t : ℕ) (code : String) (rt : Live.Runtime)
    → (Live.has_room_residue t code
        (Live.delete_room code (Live.get_room_generation code rt) rt).0).1
      ≡ false
torn_down t code rt =
    let pin = Live.get_room_generation code rt in
    let applied : (Live.delete_room code pin rt).1 ≡ true =
      unfold Live.delete_room in (rw (same_option_refl pin)) in
    ap (λ (r : Live.Runtime × Bool). r.1) (delete_room-clears t code pin rt applied).0

torn_down-IsCleared :
    (code : String) (rt : Live.Runtime)
    → IsCleared code (Live.delete_room code (Live.get_room_generation code rt) rt).0
torn_down-IsCleared code rt =
    let pin = Live.get_room_generation code rt in
    delete_room-IsCleared code pin rt (unfold Live.delete_room in (rw (same_option_refl pin)))

-- Left alone, with a clock that does not fall and the service not closing, a reader of an expired room removes it and everything live under its code, counts it
-- once, and is told that there is no room.
pub resolve_room-collects :
    (at : ℕ → ℕ) (code : String) (s : Service) (room : PersistedRoom) (t : ℕ)
    → get_room code s.rooms ≡ some room
    → has_expired (at 0) room ≡ true
    → at 0 ≤ at 1
    → s.closing ≡ false
    → let (s', answer) = resolve_room (alone at) code s in
      (answer ≡ ok none)
      × (get_room code s'.rooms ≡ none)
      × ((Live.has_room_residue t code s'.runtime).1 ≡ false)
      × IsCleared code s'.runtime
      × (s'.rooms_expired_deleted ≡ s.rooms_expired_deleted + 1)
unfolding resolve_room delete_expired_room
resolve_room-collects at code s room t h x le c = (
  ground arith,
  ground (arith, Dict.get-remove_self code s.rooms),
  ground (arith, Dict.get-remove_self code s.rooms, torn_down t code s.runtime),
  subst (λ (rt : Live.Runtime). IsCleared code rt)
      (sym (ground (arith, Dict.get-remove_self code s.rooms)))
      (torn_down-IsCleared code s.runtime),
  ground (arith, Dict.get-remove_self code s.rooms),
)
