-- ===== src/Service/Admission/Capacity.antt =====
-- A room never holds more members than it may: theorems on Service/Join.antt and
-- Service/Admission.antt.
use bili_sync_play.Prelude.{
  refl, some, Bool-cases, Option, String, ap, arith, if◌then◌else◌, inl, inr, is_some, none,
  or_else, some, subst, sym, ℕ, ◌∙◌, ◌≡◌, ◌≤◌,
}
use bili_sync_play.Prelude.Dict
use bili_sync_play.Prelude.Dict.{Dict}
use bili_sync_play.Session.{Session}
use bili_sync_play.Runtime.Rooms.{ActiveRooms}
use bili_sync_play.Service.State.{Result, err, Service, alone, ok}
use bili_sync_play.Runtime.Store as Live
use bili_sync_play.Service.Join.{
  persist_joined_room, JoinRequest, JoinTargetState, PersistedJoin, build_join_identity, size,
}
use bili_sync_play.Service.Admission.{join_under_lock, JoinAnswer, JoinContext, admit}
use bili_sync_play.Service.Admission.Presence.{
  add_member-members_of, looked_up-members_of, members_of, size-put, size-put-has,
}
use bili_sync_play.Service.Resolve.{max_version_retries}
use bili_sync_play.Service.Admission.Places.{IsRoomFor, present}
use bili_sync_play.Service.Admission.Rounds.{IsGranted, retried-IsGranted}

-- Taking the seat puts one member into the room, who may have been there.
admit-members_of :
    (ctx : JoinContext) (at : ℕ → ℕ) (session : Session) (previous : Option String)
    (joined : PersistedJoin) (s : Service) (answer : JoinAnswer)
    → (admit ctx (alone at) session previous joined s).2 ≡ ok answer
    → let s' = (admit ctx (alone at) session previous joined s).0 in
      let member_id = or_else joined.target.reconnect_member_id session.id in
      members_of joined.room.code s'.runtime.rooms
      ≡ Dict.put member_id session.id (members_of joined.room.code s.runtime.rooms)
unfolding admit build_join_identity
admit-members_of ctx at session previous joined s answer h =
    let code = joined.room.code in
    let identity =
      build_join_identity session ctx.fresh_token joined.target.reconnect_member_id previous in
    let runtime =
      (if is_some joined.target.reconnect_member_id
        then Live.get_room (at 40) code s.runtime
        else (s.runtime, none)).0 in
    let put =
      add_member-members_of (at 42) code identity.member_id session.id identity.member_token
        runtime in
    let looked_up =
      looked_up-members_of (is_some joined.target.reconnect_member_id) (at 40) code s.runtime in
    let same_rooms : (admit ctx (alone at) session previous joined s).0.runtime.rooms
        ≡ (Live.add_member (at 42) code identity.member_id session.id identity.member_token
            runtime).0.rooms =
      ground arith in
    ap (λ (r : ActiveRooms). members_of code r) same_rooms
    ∙ put
    ∙ ap (λ (l : Dict String). Dict.put identity.member_id session.id l) looked_up

put-within :
    (max_members : ℕ) (code session_id : String) (target : JoinTargetState) (s : Service)
    → IsRoomFor max_members code s target
    → present code s ≤ max_members
    → size (
        Dict.put
          (or_else target.reconnect_member_id session_id)
          session_id
          (members_of code s.runtime.rooms))
      ≤ max_members
put-within max_members code session_id target s fits within =
    let members = members_of code s.runtime.rooms in
    elim (Bool-cases target.reconnect_holds_seat) [
      | inl e ↦
          let (m, is_m, has_m) = fits.holder e in
          ground (arith, size-put-has m session_id members has_m)
      | inr e ↦
          let grown = size-put (or_else target.reconnect_member_id session_id) session_id members in
          let place = fits.place e in ground (arith, grown, place)
    ]

admit-within :
    (ctx : JoinContext) (at : ℕ → ℕ) (session : Session) (request : JoinRequest) (s' s : Service)
    (joined : PersistedJoin) (answer : JoinAnswer)
    → IsGranted ctx.max_members request s' s joined
    → (admit ctx (alone at) session request.previous_member_token joined s').2 ≡ ok answer
    → answer.room.code ≡ request.room_code
    → present request.room_code s ≤ ctx.max_members
    → present request.room_code
        (admit ctx (alone at) session request.previous_member_token joined s').0
      ≤ ctx.max_members
unfolding admit
admit-within ctx at session request s' s joined answer (kept, fits) h same_code within =
    let code = request.room_code in
    let after = (admit ctx (alone at) session request.previous_member_token joined s').0 in
    let member_id = or_else joined.target.reconnect_member_id session.id in
    let is_code : joined.room.code ≡ code = ground arith in
    let seated : members_of joined.room.code after.runtime.rooms
        ≡ Dict.put member_id session.id (members_of joined.room.code s'.runtime.rooms) =
      admit-members_of ctx at session request.previous_member_token joined s' answer h in
    let seated' : members_of code after.runtime.rooms
        ≡ Dict.put member_id session.id (members_of code s'.runtime.rooms) =
      subst
        (λ c.
          members_of c after.runtime.rooms
          ≡ Dict.put member_id session.id (members_of c s'.runtime.rooms))
        is_code seated in
    let total : members_of code after.runtime.rooms
        ≡ Dict.put member_id session.id (members_of code s.runtime.rooms) =
      seated' ∙ ap (λ (l : Dict String). Dict.put member_id session.id l) kept in
    subst (λ l. size l ≤ ctx.max_members) (sym total)
      (put-within ctx.max_members code session.id joined.target s fits within)

-- A room that is not over its limit is not over it after a join that succeeds, retries included,
-- while nobody else acts and the answer is about the room that was asked for: neither the member
-- who takes the last place nor one who comes back to a seat, held or given up, brings the room
-- beyond `max_members`.
pub join_respects_capacity :
    (ctx : JoinContext) (at : ℕ → ℕ) (session : Session) (request : JoinRequest) (s : Service)
    (answer : JoinAnswer)
    → (join_under_lock ctx (alone at) session request s).2 ≡ ok answer
    → answer.room.code ≡ request.room_code
    → present request.room_code s ≤ ctx.max_members
    → present request.room_code (join_under_lock ctx (alone at) session request s).0
      ≤ ctx.max_members
unfolding join_under_lock persist_joined_room
join_respects_capacity ctx at session request s answer h same_code within =
    go (persist_joined_room ctx.max_members (alone at) request s).1 refl
  where
    go :
        (r : Result (Option PersistedJoin))
        → (persist_joined_room ctx.max_members (alone at) request s).1 ≡ r
        → present request.room_code (join_under_lock ctx (alone at) session request s).0
          ≤ ctx.max_members
    go (err e) q = absurd (ground arith)
    go (ok none) q = absurd (ground arith)
    go (ok (some joined)) q =
        let s' = (persist_joined_room ctx.max_members (alone at) request s).0 in
        let granted = retried-IsGranted ctx.max_members request max_version_retries at s joined q in
        let end : (join_under_lock ctx (alone at) session request s).0
            ≡ (admit ctx (alone at) session request.previous_member_token joined s').0 =
          ground arith in
        subst (λ x. present request.room_code x ≤ ctx.max_members) (sym end)
          (admit-within ctx at session request s' s joined answer granted (ground arith) same_code
            within)
