-- ===== src/Service/Admission/Rounds.antt =====
-- The rounds of a join: presence through the retries of persistJoinedRoom, while nobody else acts.
use bili_sync_play.Prelude.{
  Option, String, ap, arith, none, refl, some, subst, suc, sym, zero, ℕ, ◌+◌, ◌<◌, ◌∙◌, ◌≡◌,
}
use bili_sync_play.Prelude.Dict
use bili_sync_play.Prelude.Dict.{Dict}
use bili_sync_play.RoomStore.{PersistedRoom, delete_expired_room}
use bili_sync_play.Runtime.Rooms.{}
use bili_sync_play.Runtime.Store as Live
use bili_sync_play.Service.State.{Env, Result, Service, alone, err, ok}
use bili_sync_play.Service.Resolve.{resolve_room, with_version_retry}
use bili_sync_play.Service.Join.{
  JoinRequest, JoinTargetState, PersistedJoin, ensure_join_request_allowed, join_attempt, size,
}
use bili_sync_play.Service.Admission.Presence.{members_of}
use bili_sync_play.Service.Admission.Places.{IsRoomFor, ensure-IsRoomFor, join_attempt-IsRoomFor}

-- The same members are present under a code.
abbrev pub IsSamePresence : String → Service → Service → Type 0
IsSamePresence code s' s = members_of code s'.runtime.rooms ≡ members_of code s.runtime.rooms

IsRoomFor-move :
    (max_members : ℕ) (code : String) (s' s : Service) (target : JoinTargetState)
    → IsSamePresence code s' s
    → IsRoomFor max_members code s' target
    → IsRoomFor max_members code s target
IsRoomFor-move max_members code s' s target e fits = record {
  holder = λ q.
      let (m, is_m, has_m) = fits.holder q in
      (m, is_m, ap (λ (l : Dict String). Dict.has m l) (sym e) ∙ has_m);
  place = λ q. subst (λ l. size l < max_members) e (fits.place q);
}

resolve_room-runtime :
    (at : ℕ → ℕ) (code : String) (s : Service) (room : PersistedRoom)
    → (resolve_room (alone at) code s).1 ≡ ok (some room)
    → (resolve_room (alone at) code s).0.runtime ≡ s.runtime
unfolding resolve_room delete_expired_room
resolve_room-runtime at code s room h = ground arith

module _ (max_members : ℕ) (request : JoinRequest) where
  abbrev pub code : String
  code = request.room_code

  abbrev pub attempt : Env → PersistedRoom → Service → Service × Result (Option PersistedJoin)
  attempt = join_attempt max_members request

  attempt-none :
      (at : ℕ → ℕ) (room : PersistedRoom) (s : Service)
      → (attempt (alone at) room s).1 ≡ ok none
      → IsSamePresence code (attempt (alone at) room s).0 s
  unfolding join_attempt
  attempt-none at room s h =
      go (ensure_join_request_allowed max_members (alone at) room request s).1 refl
    where
      go :
          (r : Result JoinTargetState)
          → (ensure_join_request_allowed max_members (alone at) room request s).1 ≡ r
          → IsSamePresence code (attempt (alone at) room s).0 s
      go (err e) q = absurd (ground arith)
      go (ok target) q =
          let (kept, fits) = ensure-IsRoomFor max_members at room request s target q in
          let same_runtime : (attempt (alone at) room s).0.runtime
              ≡ (ensure_join_request_allowed max_members (alone at) room request s).0.runtime =
            ground arith in
          ap (λ (x : Live.Runtime). members_of code x.rooms) same_runtime ∙ kept

  -- What a join that is granted has established: presence is as before, and there is a place.
  abbrev pub IsGranted : Service → Service → PersistedJoin → Type 0
  IsGranted s' s joined = IsSamePresence code s' s × IsRoomFor max_members code s joined.target

  IsGranted-move :
      (s'' s' s : Service) (joined : PersistedJoin)
      → IsSamePresence code s' s
      → IsGranted s'' s' joined
      → IsGranted s'' s joined
  IsGranted-move s'' s' s joined e (kept, fits) =
      (kept ∙ e, IsRoomFor-move max_members code s' s joined.target e fits)

  round :
      (n : ℕ) (at : ℕ → ℕ) (s : Service) (joined : PersistedJoin)
      → ((s' : Service)
          → (with_version_retry n (alone (λ k. at (k + 10))) code attempt s').1 ≡ ok (some joined)
          → IsGranted (with_version_retry n (alone (λ k. at (k + 10))) code attempt s').0 s' joined)
      → (r : Result (Option PersistedRoom)) → (resolve_room (alone at) code s).1 ≡ r
      → (with_version_retry (suc n) (alone at) code attempt s).1 ≡ ok (some joined)
      → IsGranted (with_version_retry (suc n) (alone at) code attempt s).0 s joined
  unfolding with_version_retry
  round n at s joined rest (err e) q h = absurd (ground arith)
  round n at s joined rest (ok none) q h = absurd (ground arith)
  round n at s joined rest (ok (some room)) q h = ran (attempt (alone at) room s1).1 refl
    where
      s1 : Service
      s1 = (resolve_room (alone at) code s).0

      same_runtime : s1.runtime ≡ s.runtime
      same_runtime = resolve_room-runtime at code s room q

      same_presence : IsSamePresence code s1 s
      same_presence = ap (λ (x : Live.Runtime). members_of code x.rooms) same_runtime

      ran :
          (r : Result (Option PersistedJoin))
          → (attempt (alone at) room s1).1 ≡ r
          → IsGranted (with_version_retry (suc n) (alone at) code attempt s).0 s joined
      ran (err e) p = absurd (ground arith)
      ran (ok none) p =
          let s2 = (attempt (alone at) room s1).0 in
          let granted = rest s2 (ground arith) in
          let all =
            IsGranted-move (with_version_retry n (alone (λ k. at (k + 10))) code attempt s2).0 s2 s
              joined (attempt-none at room s1 p ∙ same_presence) granted in
          let end : (with_version_retry (suc n) (alone at) code attempt s).0
              ≡ (with_version_retry n (alone (λ k. at (k + 10))) code attempt s2).0 =
            ground arith in
          subst (λ x. IsGranted x s joined) (sym end) all
      ran (ok (some b)) p =
          let s2 = (attempt (alone at) room s1).0 in
          let granted = join_attempt-IsRoomFor max_members at room request s1 b p in
          let all = IsGranted-move s2 s1 s b same_presence granted in
          let end : (with_version_retry (suc n) (alone at) code attempt s).0 ≡ s2 = ground arith in
          let is_b : b ≡ joined = ground arith in
          subst (λ x. IsGranted x s joined) (sym end) (subst (λ x. IsGranted s2 s x) is_b all)

  pub retried-IsGranted :
      (n : ℕ) (at : ℕ → ℕ) (s : Service) (joined : PersistedJoin)
      → (with_version_retry n (alone at) code attempt s).1 ≡ ok (some joined)
      → IsGranted (with_version_retry n (alone at) code attempt s).0 s joined
  unfolding with_version_retry
  retried-IsGranted zero at s joined h = absurd (ground arith)
  retried-IsGranted (suc n) at s joined h =
      round n at s joined (λ s'. retried-IsGranted n (λ k. at (k + 10)) s' joined)
        (resolve_room (alone at) code s).1 refl h
