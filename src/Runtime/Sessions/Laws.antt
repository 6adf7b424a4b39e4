-- ===== src/Runtime/Sessions/Laws.antt =====
-- Where each connection sits: theorems on Runtime/Sessions.antt.
use bili_sync_play.Prelude.{
  Bool, List, Option, Option-cases, String, [], arith, false, if◌then◌else◌, inl, inr, none, refl,
  same, some, true, truthy, ◌&&◌, ◌∷◌, ◌≡◌,
}
use bili_sync_play.Prelude.Dict
use bili_sync_play.Prelude.Dict.{Dict}
use bili_sync_play.Prelude.Sets
use bili_sync_play.Session.{Session}
use bili_sync_play.Runtime.Store.{Runtime}
use bili_sync_play.Runtime.Sessions.{
  detach_session_from_room_indexes, mark_session_joined_room, mark_session_left_room, put_in,
  resolve_room_code_to_leave, unregister_session,
}
use bili_sync_play.Runtime.Sessions.Index.{detach_is_pointwise, get-take_from, without}

abbrev pub lists : String → Option (List String) → Bool
lists id none = false
lists id (some ids) = Sets.contains id ids

-- The session's id is listed under the room.
abbrev pub seated : Runtime → String → String → Bool
seated rt code id = lists id (Dict.get code rt.room_session_ids)

lists-without :
    (id x : String) (ids : Option (List String))
    → lists x (without id ids) ≡ (if same id x then false else lists x ids)
unfolding Sets.contains
lists-without id x none = ground arith
lists-without id x (some ids) = go (Sets.delete id ids) refl
  where
    go :
        (left : List String)
        → Sets.delete id ids ≡ left
        → lists x (without id (some ids)) ≡ (if same id x then false else Sets.contains x ids)
    go [] e = ground (arith, e, Sets.contains-delete x id ids)
    go (y ∷ ys) e = ground (arith, e, Sets.contains-delete x id ids)

lists-put_in :
    (id code other x : String) (index : Dict (List String))
    → lists x (Dict.get other (put_in id code index))
      ≡ (if same code other && same id x then true else lists x (Dict.get other index))
unfolding Sets.contains
lists-put_in id code other x index = elim (Option-cases (Dict.get code index)) [
  | inl e ↦
      ground (arith, e, Dict.get-put code other (Sets.add id []) index, Sets.contains-add x id [])
  | inr (ids, e) ↦
      ground (arith, e, Dict.get-put code other (Sets.add id ids) index, Sets.contains-add x id ids)
]

-- A registered session that joins a room sits in that room alone; nobody else moves.
pub mark_session_joined_room-seated :
    (id code : String) (rt : Runtime) (session : Session)
    → Dict.get id rt.sessions_by_id ≡ some session
    → (other x : String)
    → seated (mark_session_joined_room id code rt) other x
      ≡ (if same id x then same code other else seated rt other x)
unfolding mark_session_joined_room
mark_session_joined_room-seated id code rt session e other x =
    let detached = detach_session_from_room_indexes id session.room_code rt.room_session_ids in
    let gone : lists x (Dict.get other detached)
        ≡ (if same id x then false else seated rt other x) =
      ground (
        arith,
        detach_is_pointwise id other session.room_code rt.room_session_ids,
        lists-without id x (Dict.get other rt.room_session_ids),
      ) in
    let came : lists x (Dict.get other (put_in id code detached))
        ≡ (if same code other && same id x then true else lists x (Dict.get other detached)) =
      lists-put_in id code other x detached in
    let end : seated (mark_session_joined_room id code rt) other x
        ≡ lists x (Dict.get other (put_in id code detached)) =
      rw (mark_session_joined_room, e) refl in
    ground (arith, end, came, gone)

pub unregister_session-seated :
    (id : String) (rt : Runtime) (other x : String)
    → seated (unregister_session id rt) other x ≡ (if same id x then false else seated rt other x)
unfolding unregister_session
unregister_session-seated id rt other x = elim (Option-cases (Dict.get id rt.sessions_by_id)) [
  | inl e ↦ ground (
    arith,
    e,
    detach_is_pointwise id other none rt.room_session_ids,
    lists-without id x (Dict.get other rt.room_session_ids),
  )
  | inr (session, e) ↦ ground (
    arith,
    e,
    detach_is_pointwise id other session.room_code rt.room_session_ids,
    lists-without id x (Dict.get other rt.room_session_ids),
  )
]

-- A departure takes the session out of the room that is named, or else of its own, and moves nobody
-- else; without a room nothing happens.
pub mark_session_left_room-seated :
    (id : String) (requested : Option String) (rt : Runtime) (other x : String)
    → let current : Option String = elim (Dict.get id rt.sessions_by_id) [
      | none ↦ none
      | some session ↦ session.room_code
    ] in
      let left : Bool = elim (truthy (resolve_room_code_to_leave current requested)) [
        | none ↦ false
        | some code ↦ same code other && same id x
      ] in
      seated (mark_session_left_room id requested rt) other x
      ≡ (if left then false else seated rt other x)
unfolding mark_session_left_room
mark_session_left_room-seated id requested rt other x =
    let current : Option String = elim (Dict.get id rt.sessions_by_id) [
      | none ↦ none
      | some session ↦ session.room_code
    ] in
    elim (Option-cases (truthy (resolve_room_code_to_leave current requested))) [
      | inl e ↦ ground (arith, e)
      | inr (code, e) ↦ ground (
        arith,
        e,
        get-take_from id code other rt.room_session_ids,
        lists-without id x (Dict.get other rt.room_session_ids),
      )
    ]
