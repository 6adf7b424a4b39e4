-- ===== src/Service/Access/Granted.antt =====
-- Who holds a seat may act: theorems on Service/Access.antt, used where a session is given a seat.
use bili_sync_play.Prelude.{
  Option-cases, String, [], arith, false, inl, inr, none, or_else, refl, some, truthy, ℕ, ◌≡◌,
}
use bili_sync_play.Prelude.Dict
use bili_sync_play.Session.{Session}
use bili_sync_play.RoomStore.{PersistedRoom, get_room, has_expired}
use bili_sync_play.Runtime.Rooms.{add_member_to_room, get_or_create_active_room}
use bili_sync_play.Runtime.Rooms.Laws.{binding, token_of}
use bili_sync_play.Runtime.Store as Live
use bili_sync_play.Runtime.Store.Identity.{
  IsClockDistinct, on_the_clock, prune-IsClockDistinct, prune-token_of,
}
use bili_sync_play.Service.State.{Service, alone, ok}
use bili_sync_play.Service.Resolve.{}
use bili_sync_play.Service.Resolve.Laws.{resolve_room-alive}
use bili_sync_play.Service.Access.{JoinedRoomAccess, require_joined_room_session, require_seat}

-- A member's seat and token in the live room, neither on its way out.
pub record HoldsSeat (code member_id session_id token : String) (rt : Live.Runtime) : Type 0 where
  pub seat : binding rt.rooms code member_id ≡ some session_id
  pub token_is : token_of rt.rooms code member_id ≡ some token
  pub clock : on_the_clock rt code member_id ≡ none
  pub distinct : IsClockDistinct rt code

clock-off_the_clock :
    (code member_id : String) (rt : Live.Runtime) (all : Dict.Dict (Dict.Dict ℕ))
    → Dict.IsDistinct (or_else (Dict.get code all) [])
    → let rt' = record rt { member_token_expiry = Live.off_the_clock code member_id all } in
      (on_the_clock rt' code member_id ≡ none) × IsClockDistinct rt' code
clock-off_the_clock code member_id rt all d = elim (Option-cases (Dict.get code all)) [
  | inl e ↦ (ground (arith, e), rw (e, Live.off_the_clock) d)
  | inr (expiry, e) ↦
      let back = Dict.get-put_self code (Dict.remove member_id expiry) all in
      let d' : Dict.IsDistinct expiry = rw e at d in
      (
        ground (arith, e, back, Dict.get-remove_self member_id expiry),
        rw (e, Live.off_the_clock, back) (Dict.remove-IsDistinct member_id expiry d'),
      )
]

pub add_member-HoldsSeat :
    (t : ℕ) (code member_id session_id token : String) (rt : Live.Runtime)
    → IsClockDistinct rt code
    → HoldsSeat code member_id session_id token
        (Live.add_member t code member_id session_id token rt).0
unfolding Live.add_member add_member_to_room
add_member-HoldsSeat t code member_id session_id token rt d =
    let pruned = Live.prune_expired_member_tokens t code rt in
    let (held, room) = get_or_create_active_room pruned.rooms code in
    let joined = record room {
      members = Dict.put member_id session_id room.members;
      member_tokens = Dict.put member_id token room.member_tokens;
    } in
    let back = Dict.get-put_self code joined held in
    let (off, d') =
      clock-off_the_clock code member_id (Live.add_member t code member_id session_id token rt).0
        pruned.member_token_expiry (prune-IsClockDistinct t code rt d) in
    record {
      seat = ground (arith, back, Dict.get-put_self member_id session_id room.members);
      token_is = ground (arith, back, Dict.get-put_self member_id token room.member_tokens);
      clock = off;
      distinct = d';
    }

-- A session that names a room that is alive, and holds a member's seat and token in it, is let in
-- with that token, while nobody else acts, and is told of the stored room.
pub access_granted :
    (at : ℕ → ℕ) (member_id token : String) (session : Session) (room : PersistedRoom) (s : Service)
    → truthy session.room_code ≡ some room.code
    → truthy session.member_id ≡ some member_id
    → truthy session.member_token ≡ some token
    → HoldsSeat room.code member_id session.id token s.runtime
    → get_room room.code s.rooms ≡ some room
    → has_expired (at 0) room ≡ false
    → (access : JoinedRoomAccess) × ((require_joined_room_session (alone at) session token s).2
        ≡ ok access)
      × (access.persisted_room ≡ room)
unfolding require_joined_room_session require_seat Live.get_room
access_granted at member_id token session room s names member own holds stored alive =
    let read = resolve_room-alive (alone at) room.code s room stored alive in
    let pruned = Live.prune_expired_member_tokens (at 3) room.code s.runtime in
    let (kept, seat) = prune-token_of (at 3) room.code member_id s.runtime holds.distinct in
    let clock = holds.clock in
    let token_is = holds.token_is in
    let seated = holds.seat in
    elim (Option-cases (Dict.get room.code pruned.rooms)) [
      | inl e ↦ absurd (ground (arith, kept, clock, token_is))
      | inr (live, e) ↦ (
        record { persisted_room = room; active_room = live },
        ground (arith, read, kept, seat, clock, token_is, seated),
        refl,
      )
    ]
