-- ===== src/Service/Admission/Places.antt =====
-- What the checks of Service/Join.antt establish about the members present.
use bili_sync_play.Prelude.{
  Option, Option-cases, String, ap, arith, false, inl, inr, leb, not, refl, some, subst, sym, true,
  truthy, ℕ, ◌&&◌, ◌<◌, ◌∙◌, ◌≡◌,
}
use bili_sync_play.Prelude.Dict
use bili_sync_play.Prelude.Dict.{Dict}
use bili_sync_play.RoomStore.{PersistedRoom}
use bili_sync_play.Runtime.Rooms.{ActiveRooms}
use bili_sync_play.Service.State.{Result, Service, alone, err, ok, with_runtime}
use bili_sync_play.Runtime.Store as Live
use bili_sync_play.Service.Join.{
  JoinRequest, JoinTargetState, PersistedJoin, check_blocked, ensure_join_request_allowed,
  find_reconnecting, join_attempt, resolve_join_target_state, size,
}
use bili_sync_play.Service.Admission.Presence.{
  by_now-count, by_now-held_seat, members_of, prune-members_of, reconnecting-members_of,
}

-- Who is present under a code of the service.
abbrev pub present : String → Service → ℕ
present code s = size (members_of code s.runtime.rooms)

-- What the checks found out, measured against the room: there is a place left, or the member who is
-- back is present already.
pub record IsRoomFor (max_members : ℕ) (code : String) (s : Service) (target : JoinTargetState)
    : Type 0 where
  pub holder :
      target.reconnect_holds_seat ≡ true
      → (m : String) × (target.reconnect_member_id ≡ some m)
        × (Dict.has m (members_of code s.runtime.rooms) ≡ true)
  pub place : target.reconnect_holds_seat ≡ false → present code s < max_members

-- Looking for the member changes nobody's presence, and counts those who are present.
target-counts :
    (at : ℕ → ℕ) (code : String) (previous : Option String) (s : Service)
    → let (s', target) = resolve_join_target_state (alone at) code previous s in
      (members_of code s'.runtime.rooms ≡ members_of code s.runtime.rooms)
      × (target.active_member_count ≡ present code s)
      × (target.reconnect_holds_seat ≡ true
          → (m : String) × (target.reconnect_member_id ≡ some m)
            × (Dict.has m (members_of code s.runtime.rooms) ≡ true))
unfolding resolve_join_target_state Live.get_room
target-counts at code previous s =
    let pruned = Live.prune_expired_member_tokens (at 5) code s.runtime in
    let active = Dict.get code pruned.rooms in
    let s1 = with_runtime s pruned in
    let same_members = prune-members_of (at 5) code s.runtime in
    let (s2, found) = find_reconnecting (alone at) code previous active s1 in
    let kept = reconnecting-members_of at code previous active s1 in
    (
      kept ∙ same_members,
      by_now-count code pruned.rooms s2.runtime.rooms kept ∙ ap size same_members,
      λ h.
          let (m, is_m, has_m) = by_now-held_seat code pruned.rooms s2.runtime.rooms found h in
          (m, is_m, ap (λ (l : Dict String). Dict.has m l) (sym same_members ∙ sym kept) ∙ has_m),
    )

blocked-rooms :
    (at : ℕ → ℕ) (code : String) (previous : Option String) (s : Service)
    → (check_blocked (alone at) code previous s).0.runtime.rooms ≡ s.runtime.rooms
unfolding Live.is_member_token_blocked Live.prune_blocked_member_tokens
blocked-rooms at code previous s = elim (Option-cases (truthy previous)) [
  | inl e ↦ ground arith
  | inr (token, e) ↦ ground arith
]

place_left :
    (max_members : ℕ) (target : JoinTargetState) (count : ℕ)
    → target.active_member_count ≡ count
    → (leb max_members target.active_member_count && not target.reconnect_holds_seat) ≡ false
    → target.reconnect_holds_seat ≡ false
    → count < max_members
place_left max_members target count e h q = ground arith

-- A join that is allowed, while nobody else acts, has changed nobody's presence, and there is a
-- place for it.
pub ensure-IsRoomFor :
    (max_members : ℕ) (at : ℕ → ℕ) (room : PersistedRoom) (request : JoinRequest) (s : Service)
    (target : JoinTargetState)
    → (ensure_join_request_allowed max_members (alone at) room request s).1 ≡ ok target
    → let s' = (ensure_join_request_allowed max_members (alone at) room request s).0 in
      let code = request.room_code in
      (members_of code s'.runtime.rooms ≡ members_of code s.runtime.rooms)
      × IsRoomFor max_members code s target
unfolding ensure_join_request_allowed
ensure-IsRoomFor max_members at room request s target h =
    let code = request.room_code in
    let s1 = (check_blocked (alone at) code request.previous_member_token s).0 in
    let rooms = blocked-rooms at code request.previous_member_token s in
    let same_rooms : members_of code s1.runtime.rooms ≡ members_of code s.runtime.rooms =
      ap (λ (r : ActiveRooms). members_of code r) rooms in
    let (kept, count, seat) = target-counts at code request.previous_member_token s1 in
    let is_target : (resolve_join_target_state (alone at) code request.previous_member_token s1).1
        ≡ target =
      ground arith in
    let is_state : (ensure_join_request_allowed max_members (alone at) room request s).0
        ≡ (resolve_join_target_state (alone at) code request.previous_member_token s1).0 =
      ground arith in
    let same_seat = ap (λ (x : JoinTargetState). x.reconnect_holds_seat) is_target in
    let same_count : target.active_member_count ≡ present code s =
      sym (ap (λ (x : JoinTargetState). x.active_member_count) is_target)
      ∙ count
      ∙ ap size same_rooms in
    let room_left : (leb max_members target.active_member_count && not target.reconnect_holds_seat)
        ≡ false =
      ground arith in
    (
      ap (λ (x : Service). members_of code x.runtime.rooms) is_state ∙ kept ∙ same_rooms,
      record {
        holder = λ q.
            let (m, is_m, has_m) = seat (same_seat ∙ q) in
            (
              m,
              sym (ap (λ (x : JoinTargetState). x.reconnect_member_id) is_target) ∙ is_m,
              ap (λ (l : Dict String). Dict.has m l) (sym same_rooms) ∙ has_m,
            );
        place = λ q. place_left max_members target (present code s) same_count room_left q;
      },
    )

-- An attempt that succeeds has done no more to who is present.
pub join_attempt-IsRoomFor :
    (max_members : ℕ) (at : ℕ → ℕ) (room : PersistedRoom) (request : JoinRequest) (s : Service)
    (joined : PersistedJoin)
    → (join_attempt max_members request (alone at) room s).1 ≡ ok (some joined)
    → let s' = (join_attempt max_members request (alone at) room s).0 in
      let code = request.room_code in
      (members_of code s'.runtime.rooms ≡ members_of code s.runtime.rooms)
      × IsRoomFor max_members code s joined.target
unfolding join_attempt
join_attempt-IsRoomFor max_members at room request s joined h =
    go (ensure_join_request_allowed max_members (alone at) room request s).1 refl
  where
    go :
        (r : Result JoinTargetState)
        → (ensure_join_request_allowed max_members (alone at) room request s).1 ≡ r
        → let s' = (join_attempt max_members request (alone at) room s).0 in
          let code = request.room_code in
          (members_of code s'.runtime.rooms ≡ members_of code s.runtime.rooms)
          × IsRoomFor max_members code s joined.target
    go (err e) q = absurd (ground arith)
    go (ok target) q =
        let code = request.room_code in
        let (kept, fits) = ensure-IsRoomFor max_members at room request s target q in
        let same_runtime : (join_attempt max_members request (alone at) room s).0.runtime
            ≡ (ensure_join_request_allowed max_members (alone at) room request s).0.runtime =
          ground arith in
        let same_target : target ≡ joined.target = ground arith in
        (
          ap (λ (x : Live.Runtime). members_of code x.rooms) same_runtime ∙ kept,
          subst (λ x. IsRoomFor max_members code s x) same_target fits,
        )
