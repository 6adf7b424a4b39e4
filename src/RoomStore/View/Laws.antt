-- ===== src/RoomStore/View/Laws.antt =====
-- Theorems on the room states of RoomStore/View.antt.
use bili_sync_play.Prelude.{
  Bool, Bool-cases, List, String, [], any, any-append, arith, false, if◌then◌else◌, inl, inr, refl,
  same, same_option, some, subst, true, truthy, ◌&&◌, ◌++◌, ◌||◌, ◌∙◌, ◌∷◌, ◌≡◌, ◌≢◌, ◌⊎◌,
}
use bili_sync_play.Prelude.Dict
use bili_sync_play.Prelude.Dict.{Dict}
use mathlib.Core.List.{Memᴰ}
use bili_sync_play.Protocol.{RoomMember, SharedVideo}
use bili_sync_play.Owner.Laws.{resolve_elected, resolve_online}
use bili_sync_play.Owner.{Candidate, is_online, resolve_shared_video_owner_id}
use bili_sync_play.Session.{Session, member_or_id, names_room}
use bili_sync_play.RoomStore.{PersistedRoom}
use bili_sync_play.RoomStore.View.{
  candidate_of, collect_members, member_of, owner_name, room_state_from_sessions,
  with_resolved_shared_owner,
}

abbrev pub lists_member : String → List RoomMember → Bool
lists_member id ms = any (λ m. same m.id id) ms

abbrev pub IsKeyed : Dict RoomMember → Type 0
IsKeyed [] = Unit
IsKeyed ((k, m) ∷ d) = (m.id ≡ k) × IsKeyed d

put-IsKeyed :
    (k : String) (m : RoomMember) (d : Dict RoomMember)
    → m.id ≡ k
    → IsKeyed d
    → IsKeyed (Dict.put k m d)
unfolding Dict.put
put-IsKeyed k m [] e h = (e, tt)
put-IsKeyed k m ((j, n) ∷ d) e h = ground (arith, put-IsKeyed k m d e)

lists_member-put :
    (id k : String) (m : RoomMember) (d : Dict RoomMember)
    → m.id ≡ k
    → IsKeyed d
    → lists_member id (Dict.values (Dict.put k m d))
      ≡ (same k id || lists_member id (Dict.values d))
unfolding Dict.put Dict.values
lists_member-put id k m [] e h = ground arith
lists_member-put id k m ((j, n) ∷ d) e h = ground (arith, lists_member-put id k m d e)

-- An id that is listed belongs to one member, who is found under it.
listed-get :
    (id : String) (d : Dict RoomMember)
    → IsKeyed d
    → lists_member id (Dict.values d) ≡ true
    → (m : RoomMember) × (Dict.get id d ≡ some m) × (m.id ≡ id) × Memᴰ m (Dict.values d)
unfolding Dict.get Dict.values
listed-get id [] h on = absurd (ground (arith, on))
listed-get id ((k, m) ∷ d) (e, h) on = elim (Bool-cases (same k id)) [
  | inl found ↦ (m, ground arith, ground arith, Memᴰ.head refl)
  | inr other ↦
      let (n, at, named, listed) = listed-get id d h (ground arith) in
      (n, ground arith, named, Memᴰ.tail listed)
]

module _ (code id : String) where
  -- Who stands among the members, also stands among the candidates, and the other way round.
  collect_members-agrees :
      (members : Dict RoomMember) (candidates : List Candidate) (sessions : List Session)
      → IsKeyed members
      → lists_member id (Dict.values members) ≡ is_online id candidates
      → let (ms, cs) = collect_members code members candidates sessions in
        lists_member id (Dict.values ms) ≡ is_online id cs
  unfolding collect_members
  collect_members-agrees members candidates [] k h = h
  collect_members-agrees members candidates (s ∷ sessions) k h =
      let counts = names_room code s in
      collect_members-agrees
        (if counts then Dict.put (member_or_id s) (member_of s) members else members)
        (if counts then candidates ++ candidate_of s ∷ [] else candidates) sessions
        (ground (arith, put-IsKeyed (member_or_id s) (member_of s) members refl k))
        (ground (
          arith,
          lists_member-put id (member_or_id s) (member_of s) members refl k,
          any-append (λ (c : Candidate). same c.id id) candidates (candidate_of s ∷ []),
        ))

  collect_members-IsKeyed :
      (members : Dict RoomMember) (candidates : List Candidate) (sessions : List Session)
      → IsKeyed members
      → IsKeyed (collect_members code members candidates sessions).0
  unfolding collect_members
  collect_members-IsKeyed members candidates [] k = k
  collect_members-IsKeyed members candidates (s ∷ sessions) k =
      let counts = names_room code s in
      collect_members-IsKeyed
        (if counts then Dict.put (member_or_id s) (member_of s) members else members)
        (if counts then candidates ++ candidate_of s ∷ [] else candidates) sessions
        (ground (arith, put-IsKeyed (member_or_id s) (member_of s) members refl k))

  -- A session that names the room leaves its member among the candidates.
  collect_members-online :
      (members : Dict RoomMember) (candidates : List Candidate) (sessions : List Session)
      → (is_online id candidates ≡ true)
        ⊎ (any (λ s. names_room code s && same (member_or_id s) id) sessions ≡ true)
      → is_online id (collect_members code members candidates sessions).1 ≡ true
  unfolding collect_members
  collect_members-online members candidates [] h = ground arith
  collect_members-online members candidates (s ∷ sessions) h =
      let counts = names_room code s in
      collect_members-online
        (if counts then Dict.put (member_or_id s) (member_of s) members else members)
        (if counts then candidates ++ candidate_of s ∷ [] else candidates) sessions
        (ground
          (arith, any-append (λ (c : Candidate). same c.id id) candidates (candidate_of s ∷ [])))

  -- And only such a session does.
  collect_members-residue :
      (members : Dict RoomMember) (candidates : List Candidate) (sessions : List Session)
      → is_online id candidates ≡ false
      → any (λ s. names_room code s && same (member_or_id s) id) sessions ≡ false
      → is_online id (collect_members code members candidates sessions).1 ≡ false
  unfolding collect_members
  collect_members-residue members candidates [] h k = h
  collect_members-residue members candidates (s ∷ sessions) h k =
      let counts = names_room code s in
      collect_members-residue
        (if counts then Dict.put (member_or_id s) (member_of s) members else members)
        (if counts then candidates ++ candidate_of s ∷ [] else candidates) sessions
        (ground
          (arith, any-append (λ (c : Candidate). same c.id id) candidates (candidate_of s ∷ [])))
        (ground arith)

-- Whether a session is of this room and speaks for this member.
abbrev pub speaks_for : String → String → Session → Bool
speaks_for code id s = names_room code s && same (member_or_id s) id

-- A room state lists exactly the members for whom a session speaks that names this room: residue of
-- the session index is no member, and nobody is left out.
pub room_state-members :
    (room : PersistedRoom) (sessions : List Session) (id : String)
    → lists_member id (room_state_from_sessions room sessions).members
      ≡ any (speaks_for room.code id) sessions
unfolding room_state_from_sessions Dict.values
room_state-members room sessions id =
    collect_members-agrees room.code id [] [] sessions tt refl
    ∙ elim (Bool-cases (any (speaks_for room.code id) sessions)) [
      | inl e ↦ rw e (collect_members-online room.code id [] [] sessions (inr e))
      | inr e ↦ rw e (collect_members-residue room.code id [] [] sessions refl e)
    ]

any-Mem :
    (code : String) (s : Session) (sessions : List Session)
    → names_room code s ≡ true
    → Memᴰ s sessions
    → any (speaks_for code (member_or_id s)) sessions ≡ true
any-Mem code s [] h r = elim r [ ]
any-Mem code s (t ∷ sessions) h (Memᴰ.head e) =
    subst (λ (u : Session). any (speaks_for code (member_or_id s)) (u ∷ sessions) ≡ true) e
      (ground arith)
any-Mem code s (t ∷ sessions) h (Memᴰ.tail r) = ground (arith, any-Mem code s sessions h r)

is_online-Mem : (c : Candidate) (cs : List Candidate) → Memᴰ c cs → is_online c.id cs ≡ true
is_online-Mem c [] r = elim r [ ]
is_online-Mem c (d ∷ cs) (Memᴰ.head e) =
    subst (λ (u : Candidate). is_online c.id (u ∷ cs) ≡ true) e (ground arith)
is_online-Mem c (d ∷ cs) (Memᴰ.tail r) = ground (arith, is_online-Mem c cs r)

resolve-is_online :
    (owner id : String) (cs : List Candidate)
    → owner ≢ ""
    → is_online id cs ≡ true
    → (o : String) × (resolve_shared_video_owner_id (some owner) cs ≡ some o)
      × (is_online o cs ≡ true)
resolve-is_online owner id [] named on = cc
resolve-is_online owner id (c ∷ cs) named on = elim (Bool-cases (is_online owner (c ∷ cs))) [
  | inl e ↦ (owner, resolve_online owner named (c ∷ cs) e, e)
  | inr e ↦
      let (d, shown, listed, _) = resolve_elected owner named c cs e in
      (d.id, shown, is_online-Mem d (c ∷ cs) listed)
]

-- How the owner that was resolved is shown: as the room has it on record, or under the name that the
-- member of this id has in the list.
abbrev pub IsShownAs : SharedVideo → SharedVideo → String → String → List RoomMember → Type 0
IsShownAs video v owner o members =
    ((o ≡ owner) × (v ≡ video))
    ⊎ ((o ≢ owner)
        × ((m : RoomMember) × Memᴰ m members
            × (m.id ≡ o)
            × (v.shared_by_display_name ≡ some m.name)))

with_owner-shown :
    (video : SharedVideo) (members : Dict RoomMember) (cs : List Candidate) (owner o : String)
    (m : RoomMember)
    → video.shared_by_member_id ≡ some owner
    → resolve_shared_video_owner_id (some owner) cs ≡ some o
    → truthy (some o) ≡ some o
    → Dict.get o members ≡ some m
    → m.id ≡ o
    → Memᴰ m (Dict.values members)
    → (v : SharedVideo) × (with_resolved_shared_owner (some video) members cs ≡ some v)
      × (v.shared_by_member_id ≡ some o)
      × (v.url ≡ video.url)
      × IsShownAs video v owner o (Dict.values members)
unfolding with_resolved_shared_owner
with_owner-shown video members cs owner o m ho e named found its listed =
    elim (Bool-cases (same_option (some o) (some owner))) [
      | inl k ↦ (video, ground arith, ground arith, refl, inl (ground arith, refl))
      | inr k ↦ (
        record video {
          shared_by_member_id = some o;
          shared_by_display_name = owner_name (some o) members video.shared_by_display_name;
        },
        ground arith,
        refl,
        refl,
        inr (ground arith, (m, listed, its, ground (arith, named, found))),
      )
    ]

-- In a room where somebody sits, and where no member's id is empty, a shared video that has an owner on
-- record is shown as the video of a member whom the same state lists: if that is the owner on record,
-- the video is shown as it was stored, else under the id and the name of this member.
pub room_state-owner_listed :
    (room : PersistedRoom) (sessions : List Session) (video : SharedVideo) (owner : String)
    (s : Session)
    → room.shared_video ≡ some video
    → video.shared_by_member_id ≡ some owner
    → owner ≢ ""
    → Memᴰ s sessions
    → names_room room.code s ≡ true
    → any (speaks_for room.code "") sessions ≡ false
    → let state = room_state_from_sessions room sessions in
      (v : SharedVideo) × (o : String) × (state.shared_video ≡ some v)
      × (v.url ≡ video.url)
      × (v.shared_by_member_id ≡ some o)
      × (lists_member o state.members ≡ true)
      × IsShownAs video v owner o state.members
unfolding room_state_from_sessions Dict.values
room_state-owner_listed room sessions video owner s hv ho named listed here nonempty =
    let (members, candidates) = collect_members room.code [] [] sessions in
    let on =
      collect_members-online room.code (member_or_id s) [] [] sessions
        (inr (any-Mem room.code s sessions here listed)) in
    let (o, resolved, online) = resolve-is_online owner (member_or_id s) candidates named on in
    let shown_in : lists_member o (Dict.values members) ≡ true =
      collect_members-agrees room.code o [] [] sessions tt refl ∙ online in
    let (m, found, its, there) =
      listed-get o members (collect_members-IsKeyed room.code o [] [] sessions tt) shown_in in
    let real : truthy (some o) ≡ some o = elim (Bool-cases (same o "")) [
      | inl blank ↦ absurd (ground (arith, room_state-members room sessions "", shown_in, nonempty))
      | inr full ↦ ground arith
    ] in
    let (v, shown, by, url, name) =
      with_owner-shown video members candidates owner o m ho resolved real found its there in
    (v, o, rw hv shown, url, by, shown_in, name)
