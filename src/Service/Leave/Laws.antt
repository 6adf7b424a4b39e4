-- ===== src/Service/Leave/Laws.antt =====
-- What a leave does to the room: theorems on Service/Leave.antt.
use bili_sync_play.Prelude.{
  Bool, String, ap, arith, false, none, some, subst, sym, true, truthy, ℕ, ◌+◌, ◌∙◌, ◌≡◌, ◌≢◌, ◌≤◌,
  ◌⊎◌,
}
use bili_sync_play.Prelude.Dict
use bili_sync_play.Prelude.Dict.{Dict}
use bili_sync_play.Owner.{}
use bili_sync_play.Session.{Session, member_or_id}
use bili_sync_play.RoomStore.{
  PersistedRoom, PersistedRoomPatch, empty_patch, get_room, has_expired, patch_room, update_room,
}
use bili_sync_play.Runtime.Rooms.{is_empty}
use bili_sync_play.Runtime.Store as Live
use bili_sync_play.Runtime.Store.Generations.{IsCleared}
use bili_sync_play.Service.State.{Env, Service, alone, clear_session_room, later, ok}
use bili_sync_play.Service.Resolve.Laws.{resolve_room-alive, resolve_room-collects}
use bili_sync_play.Service.Resolve.{resolve_room}
use bili_sync_play.Service.Join.{by_now}
use bili_sync_play.Service.Admission.Presence.{members_of, prune-members_of}
use bili_sync_play.Service.Leave.Seats.{
  members_in-by_now, remaining_members-absent, vacated, vacated-IsVacated,
}
use bili_sync_play.Service.Leave.{
  LeaveContext, LeaveRoomReason, leave_current_room, members_in, remaining_members, schedule_expiry,
  settle_leave,
}

-- An expiry that was decided for an empty room is written only on that room, unchanged: if it was
-- written to since, or the code belongs to another room by now, nothing is stored.
pub schedule_expiry-raced :
    (ctx : LeaveContext) (env : Env) (room current : PersistedRoom) (s : Service)
    → get_room room.code (env.others 3 s).rooms ≡ some current
    → (current.version ≢ room.version) ⊎ (current.join_token ≢ room.join_token)
    → schedule_expiry ctx env room s ≡ (env.others 3 s, none)
unfolding schedule_expiry update_room
schedule_expiry-raced ctx env room current s h moved = ground arith

-- The room as the last member to leave it leaves it in the store.
abbrev pub emptied : LeaveContext → (ℕ → ℕ) → PersistedRoom → PersistedRoom
emptied ctx at room = record room {
  version = room.version + 1;
  last_active_at = at 5;
  expires_at = some (at 4 + ctx.empty_room_ttl_ms);
}

-- What a leave makes of its room: it goes on if somebody is left, and counts down if nobody is.
pub record IsSettled (ctx : LeaveContext) (at : ℕ → ℕ) (room : PersistedRoom) (left : Dict String)
    (s s' : Service) : Type 0 where
  pub members : members_of room.code s'.runtime.rooms ≡ left
  pub closing : s'.closing ≡ s.closing
  pub occupied : is_empty left ≡ false → s'.rooms ≡ s.rooms
  pub vacant :
      is_empty left ≡ true
      → s.closing ≡ false
      → get_room room.code s'.rooms ≡ some (emptied ctx at room)

settle_leave-IsSettled :
    (ctx : LeaveContext) (at : ℕ → ℕ) (session : Session) (room : PersistedRoom) (removed : Bool)
    (left : Dict String) (s : Service)
    → get_room room.code s.rooms ≡ some room
    → members_of room.code s.runtime.rooms ≡ left
    → Dict.get (member_or_id session) left ≡ none
    → IsSettled ctx at room left s (settle_leave ctx (alone at) session room removed s).0
unfolding settle_leave schedule_expiry update_room patch_room Live.get_room
settle_leave-IsSettled ctx at session room removed left s stored is_left gone =
    let pruned = Live.prune_expired_member_tokens (at 3) room.code s.runtime in
    let p : members_of room.code pruned.rooms ≡ left =
      prune-members_of (at 3) room.code s.runtime ∙ is_left in
    let shared = members_in (by_now room.code (Dict.get room.code pruned.rooms) pruned.rooms) in
    let is_shared : shared ≡ left = members_in-by_now room.code pruned.rooms ∙ p in
    let remaining : remaining_members (member_or_id session) session.id shared ≡ left =
      ap (λ (l : Dict String). remaining_members (member_or_id session) session.id l) is_shared
      ∙ remaining_members-absent (member_or_id session) session.id left gone in
    let patch : PersistedRoomPatch = record empty_patch {
      expires_at = some (some (at 4 + ctx.empty_room_ttl_ms));
      last_active_at = some (at 5);
    } in
    let back = Dict.get-put_self room.code (patch_room (at 5) patch room) s.rooms in
    record {
      members = ground (arith, p, remaining);
      closing = ground arith;
      occupied = λ q. ground (arith, remaining);
      vacant = λ q c. ground (arith, remaining, back);
    }

-- A member who leaves a room that is alive, for whatever reason and while nobody else acts, is out
-- of it, and so is the session. If somebody is left, nothing is written to the stored rooms; if
-- nobody is, and the service is not closing, the room counts down from then on.
pub leave_current_room-IsSettled :
    (ctx : LeaveContext) (at : ℕ → ℕ) (reason : LeaveRoomReason) (member_id : String)
    (session : Session) (room : PersistedRoom) (s : Service)
    → truthy session.room_code ≡ some room.code
    → truthy session.member_id ≡ some member_id
    → Dict.get member_id (members_of room.code s.runtime.rooms) ≡ some session.id
    → get_room room.code s.rooms ≡ some room
    → has_expired (at 10) room ≡ false
    → let (s', session', _) = leave_current_room ctx (alone at) reason session s in
      (session' ≡ clear_session_room session)
      × IsSettled ctx at room (Dict.remove member_id (members_of room.code s.runtime.rooms)) s s'
unfolding leave_current_room
leave_current_room-IsSettled ctx at reason member_id session room s names member seat stored alive =
    let (s2, removal) = vacated ctx at reason room.code session s in
    let left = Dict.remove member_id (members_of room.code s.runtime.rooms) in
    let out = vacated-IsVacated ctx at reason room.code member_id session s member seat in
    let stored' : get_room room.code s2.rooms ≡ some room = ground (arith, out.rooms) in
    let read = resolve_room-alive (later 10 (alone at)) room.code s2 room stored' alive in
    let own : member_or_id session ≡ member_id = ground arith in
    let gone : Dict.get (member_or_id session) left ≡ none =
      ap (λ x. Dict.get x left) own
      ∙ Dict.get-remove_self member_id (members_of room.code s.runtime.rooms) in
    let settled =
      settle_leave-IsSettled ctx at session room removal.removed left s2 stored' out.members gone in
    let end : (leave_current_room ctx (alone at) reason session s).0
        ≡ (settle_leave ctx (alone at) session room removal.removed s2).0 =
      ground (arith, read) in
    (
      ground (arith, read),
      subst (λ x. IsSettled ctx at room left s x) (sym end)
          (record {
            members = settled.members;
            closing = settled.closing ∙ out.closing;
            occupied = λ q. settled.occupied q ∙ out.rooms;
            vacant = λ q c. settled.vacant q (out.closing ∙ c);
          }),
    )

-- An abandoned room goes: after the last member has left, while nobody else acts and the service
-- is open, whoever reads the room once its time is over finds none: the store has no room under the code,
-- and the live state has no entry under it, neither live room, seats, tokens, blocks, claims nor lock nor
-- generation, so that the code shows no residue at any time.
pub abandoned_room_is_collected :
    (ctx : LeaveContext) (at at' : ℕ → ℕ) (reason : LeaveRoomReason) (member_id : String)
    (session : Session) (room : PersistedRoom) (s : Service) (t : ℕ)
    → truthy session.room_code ≡ some room.code
    → truthy session.member_id ≡ some member_id
    → Dict.get member_id (members_of room.code s.runtime.rooms) ≡ some session.id
    → is_empty (Dict.remove member_id (members_of room.code s.runtime.rooms)) ≡ true
    → get_room room.code s.rooms ≡ some room
    → has_expired (at 10) room ≡ false
    → s.closing ≡ false
    → at 4 + ctx.empty_room_ttl_ms ≤ at' 0
    → at' 0 ≤ at' 1
    → let s1 = (leave_current_room ctx (alone at) reason session s).0 in
      let (s2, found) = resolve_room (alone at') room.code s1 in
      (found ≡ ok none)
      × (get_room room.code s2.rooms ≡ none)
      × ((Live.has_room_residue t room.code s2.runtime).1 ≡ false)
      × IsCleared room.code s2.runtime
abandoned_room_is_collected ctx at at' reason member_id session room s t names member seat last
      stored alive running over clock =
    let s1 = (leave_current_room ctx (alone at) reason session s).0 in
    let (_, settled) =
      leave_current_room-IsSettled ctx at reason member_id session room s names member seat stored
        alive in
    let (found, gone, clear, cleared, _) =
      resolve_room-collects at' room.code s1 (emptied ctx at room) t (settled.vacant last running)
        (ground arith) clock (settled.closing ∙ running) in
    (found, gone, clear, cleared)
