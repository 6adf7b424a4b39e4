-- ===== src/Service/Create/Laws.antt =====
-- Who creates a room: theorems on Service/Create.antt.
use bili_sync_play.Prelude.{
  Bool-cases, Option, Option-cases, String, ap, arith, inl, inr, none, refl, some, subst, suc, sym,
  true, truthy, zero, ℕ, ◌+◌, ◌≡◌,
}
use bili_sync_play.Prelude.Dict
use bili_sync_play.Session.{Session}
use bili_sync_play.RoomStore.{PersistedRoom, create_persisted_room, create_room, get_room}
use bili_sync_play.Runtime.Store as Live
use bili_sync_play.Runtime.Store.Identity.{IsClockDistinct}
use bili_sync_play.Service.State.{Service, alone, ok, with_runtime}
use bili_sync_play.Service.Access.{JoinedRoomAccess, require_joined_room_session}
use bili_sync_play.Service.Access.Granted.{access_granted, add_member-HoldsSeat}
use bili_sync_play.Service.Create.{
  CreateAnswer, CreateContext, claim_code, create_and_seat, max_create_attempts, seated_creator,
  stamp_and_seat,
}

-- A code that was claimed: nothing lived or was stored under it, and the room is stored now, with
-- its creator as the owner.
pub record IsClaimed (codes : ℕ → String) (session : Session) (s s' : Service)
    (room : PersistedRoom) : Type 0 where
  pub attempt : ℕ
  pub named : room.code ≡ codes attempt
  pub fresh : get_room room.code s.rooms ≡ none
  pub stored : s'.rooms ≡ Dict.put room.code room s.rooms
  pub unclocked : Dict.get room.code s'.runtime.member_token_expiry ≡ none
  pub empty : Dict.get room.code s'.runtime.rooms ≡ none
  pub lasting : room.expires_at ≡ none
  pub owned : room.owner_member_id ≡ some session.id

IsClaimed-at :
    (ctx : CreateContext) (at : ℕ → ℕ) (session : Session) (created_at attempts n : ℕ) (s : Service)
    (room : PersistedRoom)
    → (claim_code ctx (alone at) session created_at attempts n s).1 ≡ some room
    → IsClaimed ctx.codes session s
        (claim_code ctx (alone at) session created_at attempts n s).0
        room
unfolding claim_code Live.has_room_residue create_room create_persisted_room
IsClaimed-at ctx at session created_at zero n s room h = absurd (ground (arith, h))
IsClaimed-at ctx at session created_at (suc attempts) n s room h =
    let pruned = Live.prune_expired_member_tokens (at n) (ctx.codes n) s.runtime in
    let s' = with_runtime s pruned in
    let next = claim_code ctx (alone at) session created_at attempts (n + 1) s' in
    let rest = IsClaimed-at ctx at session created_at attempts (n + 1) s' in
    let whole = claim_code ctx (alone at) session created_at (suc attempts) n s in
    let onward : (whole ≡ next) → IsClaimed ctx.codes session s whole.0 room = λ e.
      subst (λ r. IsClaimed ctx.codes session s r.0 room) (sym e)
        (let c = rest room (ground (arith, e, h)) in
          record {
            attempt = c.attempt;
            named = c.named;
            fresh = c.fresh;
            stored = c.stored;
            unclocked = c.unclocked;
            empty = c.empty;
            lasting = c.lasting;
            owned = c.owned;
          }) in
    elim (Bool-cases (Live.has_room_residue (at n) (ctx.codes n) s.runtime).1) [
      | inl dirty ↦ onward (ground (arith, dirty))
      | inr clean ↦ elim (Option-cases (Dict.get (ctx.codes n) s.rooms)) [
        | inr (other, e) ↦ onward (ground (arith, clean, e))
        | inl e ↦ record {
          attempt = n;
          named = ground (arith, clean, e, h);
          fresh = ground (arith, clean, e, h);
          stored = ground (arith, clean, e, h);
          unclocked = ground (arith, clean, e, h);
          empty = ground (arith, clean, e, h);
          lasting = ground (arith, clean, e, h);
          owned = ground (arith, clean, e, h);
        }
      ]
    ]

-- The room is stored and nothing of it lives: the session is seated and may act at once.
seated_may_act :
    (ctx : CreateContext) (at after : ℕ → ℕ) (session : Session) (created_at : ℕ)
    (room : PersistedRoom) (s : Service)
    → truthy (some room.code) ≡ some room.code
    → truthy (some session.id) ≡ some session.id
    → truthy (some ctx.member_token) ≡ some ctx.member_token
    → get_room room.code s.rooms ≡ some room
    → Dict.get room.code s.runtime.member_token_expiry ≡ none
    → room.expires_at ≡ none
    → let (s', joined, answer) = stamp_and_seat ctx (alone at) session created_at room s in
      (answer ≡ ok (record { room = room; member_token = ctx.member_token }))
      × ((access : JoinedRoomAccess) × ((require_joined_room_session
              (alone after)
              joined
              ctx.member_token
              s').2
            ≡ ok access)
          × (access.persisted_room ≡ room))
unfolding stamp_and_seat Live.mark_room_generation
seated_may_act ctx at after session created_at room s named id token stored unclocked lasting =
    let previous = Live.get_room_generation room.code s.runtime in
    let marked = Live.mark_room_generation room.code ctx.generation previous s.runtime in
    let stamped : marked.1 ≡ true = ground arith in
    let seated =
      with_runtime s
        (Live.add_member (at 10) room.code session.id session.id ctx.member_token marked.0).0 in
    let joined = seated_creator ctx created_at room session in
    let reply : CreateAnswer = record { room = room; member_token = ctx.member_token } in
    let end : stamp_and_seat ctx (alone at) session created_at room s ≡ (seated, joined, ok reply) =
      ground (arith, stamped) in
    let clock : IsClockDistinct marked.0 room.code =
      let still : Dict.get room.code marked.0.member_token_expiry ≡ none =
        ground (arith, unclocked) in
      rw still tt in
    let holds =
      add_member-HoldsSeat (at 10) room.code session.id session.id ctx.member_token marked.0
        clock in
    let (access, entered, told) =
      access_granted after session.id ctx.member_token joined room seated named id token holds
        stored (ground (arith, lasting)) in
    (ground (arith, end), (access, ground (arith, end, entered), told))

-- A creation that is reported: the code is one that the generator gave, no room was stored under it
-- before, and the session that is returned may act in the room with the token of the answer.
pub record MayAct (ctx : CreateContext) (after : ℕ → ℕ) (s : Service) (answer : CreateAnswer)
    (s' : Service) (joined : Session) : Type 0 where
  pub fresh : get_room answer.room.code s.rooms ≡ none
  pub given : (k : ℕ) × (answer.room.code ≡ ctx.codes k)
  pub access :
      (access : JoinedRoomAccess) × ((require_joined_room_session
          (alone after)
          joined
          answer.member_token
          s').2
        ≡ ok access)
      × (access.persisted_room ≡ answer.room)

-- A room that createRoomForSession reports, after the leave behind it and while nobody else acts:
-- its code is one that the generator gave, no room was stored under it before, and the session that
-- is returned is let into the room with the token of the answer. The codes, the session's id and
-- the token are not empty.
pub creator-MayAct :
    (ctx : CreateContext) (at after : ℕ → ℕ) (session : Session) (s : Service)
    (answer : CreateAnswer)
    → ((n : ℕ) → truthy (some (ctx.codes n)) ≡ some (ctx.codes n))
    → truthy (some session.id) ≡ some session.id
    → truthy (some ctx.member_token) ≡ some ctx.member_token
    → (create_and_seat ctx (alone at) session s).2 ≡ ok answer
    → let (s', joined, _) = create_and_seat ctx (alone at) session s in
      MayAct ctx after s answer s' joined
unfolding create_and_seat
creator-MayAct ctx at after session s answer codes id token done =
    go (claim_code ctx (alone at) session (at 11) max_create_attempts 0 s) refl
  where
    go :
        (c : Service × Option PersistedRoom)
        → claim_code ctx (alone at) session (at 11) max_create_attempts 0 s ≡ c
        → let end = create_and_seat ctx (alone at) session s in
          MayAct ctx after s answer end.0 end.1
    go (s', none) e = absurd (ground (arith, e, done))
    go (s', some room) e =
        let c =
          subst (λ r. IsClaimed ctx.codes session s r.0 room) e
            (IsClaimed-at ctx at session (at 11) max_create_attempts 0 s room (ap (λ r. r.1) e)) in
        let end : create_and_seat ctx (alone at) session s
            ≡ stamp_and_seat ctx (alone at) session (at 11) room s' =
          ground (arith, e) in
        let named : truthy (some room.code) ≡ some room.code =
          ground (arith, c.named, codes c.attempt) in
        let stored : get_room room.code s'.rooms ≡ some room =
          ground (arith, c.stored, Dict.get-put_self room.code room s.rooms) in
        let (told, (access, entered, same_room)) =
          seated_may_act ctx at after session (at 11) room s' named id token stored c.unclocked
            c.lasting in
        let reply : answer ≡ record { room = room; member_token = ctx.member_token } =
          ground (arith, end, told, done) in
        let fresh : get_room answer.room.code s.rooms ≡ none = ground (arith, reply, c.fresh) in
        let code : answer.room.code ≡ ctx.codes c.attempt = ground (arith, reply, c.named) in
        rw end (record {
          fresh = fresh;
          given = (c.attempt, code);
          access = rw reply (access, entered, same_room);
        })
