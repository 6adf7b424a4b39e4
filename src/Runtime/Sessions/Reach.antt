-- ===== src/Runtime/Sessions/Reach.antt =====
-- The calls on sessions as the steps of a system, and what every state it reaches satisfies:
-- server/src/runtime-store.ts. What else happens to the store, such as a write to the room of a
-- session object that is shared with it, is a step that leaves the index of rooms alone.
use bili_sync_play.Prelude.{
  Bool-cases, Option, Option-cases, String, arith, inl, inr, none, same, some, true, truthy, ◌≡◌,
}
use bili_sync_play.Prelude.Dict
use bili_sync_play.Session.{Session}
use bili_sync_play.Runtime.Store.{Runtime, delete_room}
use bili_sync_play.Runtime.Sessions.{
  mark_session_joined_room, mark_session_left_room, register_session, resolve_room_code_to_leave,
  unregister_session,
}
use bili_sync_play.Runtime.Sessions.Laws.{
  mark_session_joined_room-seated, mark_session_left_room-seated, seated, unregister_session-seated,
}

-- The calls that write to the index of rooms, with any arguments and in any order, a registration,
-- be it the first of the session or another, and whatever leaves that index alone.
pub data Step : Runtime → Runtime → Type 0 where
  registered : (rt : Runtime) (session : Session) → Step rt (register_session session rt)
  unregistered : (rt : Runtime) (id : String) → Step rt (unregister_session id rt)
  joined : (rt : Runtime) (id code : String) → Step rt (mark_session_joined_room id code rt)
  left :
      (rt : Runtime) (id : String) (requested : Option String)
      → Step rt (mark_session_left_room id requested rt)
  deleted :
      (rt : Runtime) (code : String) (expected : Option String)
      → Step rt (delete_room code expected rt).0
  elsewhere : (rt rt' : Runtime) → rt'.room_session_ids ≡ rt.room_session_ids → Step rt rt'

pub data Reaches (start : Runtime) : Runtime → Type 0 where
  here : Reaches start start
  onward : {rt rt' : Runtime} → Reaches start rt → Step rt rt' → Reaches start rt'

-- No id is listed under two codes.
abbrev pub IsSeatedOnce : Runtime → Type 0
IsSeatedOnce rt =
    (code other id : String) → seated rt code id ≡ true → seated rt other id ≡ true → code ≡ other

-- What a step that seats nobody leaves of the seats.
abbrev IsWithin : Runtime → Runtime → Type 0
IsWithin rt rt' = (code id : String) → seated rt' code id ≡ true → seated rt code id ≡ true

within-IsSeatedOnce : (rt rt' : Runtime) → IsWithin rt rt' → IsSeatedOnce rt → IsSeatedOnce rt'
within-IsSeatedOnce rt rt' within once code other id h k =
    once code other id (within code id h) (within other id k)

register_session-IsWithin :
    (session : Session) (rt : Runtime) → IsWithin rt (register_session session rt)
unfolding register_session
register_session-IsWithin session rt code id h = h

unregister_session-IsWithin :
    (gone : String) (rt : Runtime) → IsWithin rt (unregister_session gone rt)
unregister_session-IsWithin gone rt code id h =
    ground (arith, unregister_session-seated gone rt code id)

mark_session_left_room-IsWithin :
    (who : String) (requested : Option String) (rt : Runtime)
    → IsWithin rt (mark_session_left_room who requested rt)
mark_session_left_room-IsWithin who requested rt code id h =
    let current : Option String = elim (Dict.get who rt.sessions_by_id) [
      | none ↦ none
      | some session ↦ session.room_code
    ] in
    let moved = mark_session_left_room-seated who requested rt code id in
    elim (Option-cases (truthy (resolve_room_code_to_leave current requested))) [
      | inl e ↦ ground (arith, e, moved)
      | inr (room, e) ↦ ground (arith, e, moved)
    ]

delete_room-IsWithin :
    (gone : String) (expected : Option String) (rt : Runtime)
    → IsWithin rt (delete_room gone expected rt).0
unfolding delete_room
delete_room-IsWithin gone expected rt code id h =
    ground (arith, Dict.get-remove gone code rt.room_session_ids)

elsewhere-IsWithin :
    (rt rt' : Runtime) → rt'.room_session_ids ≡ rt.room_session_ids → IsWithin rt rt'
elsewhere-IsWithin rt rt' e code id h = ground (arith, h, e)

mark_session_joined_room-IsSeatedOnce :
    (who room : String) (rt : Runtime)
    → IsSeatedOnce rt
    → IsSeatedOnce (mark_session_joined_room who room rt)
unfolding mark_session_joined_room
mark_session_joined_room-IsSeatedOnce who room rt once code other id h k =
    elim (Option-cases (Dict.get who rt.sessions_by_id)) [
      | inl e ↦ once code other id (ground (arith, e)) (ground (arith, e))
      | inr (session, e) ↦
          let here = mark_session_joined_room-seated who room rt session e code id in
          let there = mark_session_joined_room-seated who room rt session e other id in
          elim (Bool-cases (same who id)) [
            | inl mine ↦ ground (arith, here, there, mine)
            | inr else ↦
                once code other id (ground (arith, here, else)) (ground (arith, there, else))
          ]
    ]

step-IsSeatedOnce : {rt rt' : Runtime} → Step rt rt' → IsSeatedOnce rt → IsSeatedOnce rt'
step-IsSeatedOnce (registered rt session) once =
    within-IsSeatedOnce rt (register_session session rt) (register_session-IsWithin session rt) once
step-IsSeatedOnce (unregistered rt id) once =
    within-IsSeatedOnce rt (unregister_session id rt) (unregister_session-IsWithin id rt) once
step-IsSeatedOnce (joined rt id code) once = mark_session_joined_room-IsSeatedOnce id code rt once
step-IsSeatedOnce (left rt id requested) once =
    within-IsSeatedOnce rt (mark_session_left_room id requested rt)
      (mark_session_left_room-IsWithin id requested rt) once
step-IsSeatedOnce (deleted rt code expected) once =
    within-IsSeatedOnce rt (delete_room code expected rt).0 (delete_room-IsWithin code expected rt)
      once
step-IsSeatedOnce (elsewhere rt rt' same_index) once =
    within-IsSeatedOnce rt rt' (elsewhere-IsWithin rt rt' same_index) once

-- From a store whose index of rooms lists no session under two codes, whatever sequence of
-- registrations, departures, moves and teardowns follows, with any changes between them that leave
-- this index alone, no session is listed under two codes.
pub Reaches-IsSeatedOnce :
    (start rt : Runtime) → IsSeatedOnce start → Reaches start rt → IsSeatedOnce rt
Reaches-IsSeatedOnce start rt once here = once
Reaches-IsSeatedOnce start rt once (onward run step) =
    step-IsSeatedOnce step (Reaches-IsSeatedOnce start _ once run)
