-- ===== src/Runtime/Sessions.antt =====
-- Which connection sits where: detachSessionFromRoomIndexes and resolveRoomCodeToLeave of
-- server/src/runtime-store-state.ts, and the operations on sessions of the in-memory store of
-- server/src/runtime-store.ts. A session object is shared, so its room is what `sessions_by_id` has.
use bili_sync_play.Prelude.{
  List, Option, String, [], if◌then◌else◌, is_nil, length, none, or_else, same_option, some, truthy,
  ℕ, ◌+◌, ◌∷◌,
}
use bili_sync_play.Prelude.Dict
use bili_sync_play.Prelude.Dict.{Dict}
use bili_sync_play.Prelude.Sets
use bili_sync_play.Session.{Session}
use bili_sync_play.Runtime.Store.{Runtime}
pub mod Index
pub mod Laws
pub mod Reach

-- `ids?.delete(sessionId)`, and the entry goes with its last id.
unfoldable pub take_from : String → String → Dict (List String) → Dict (List String)
take_from id code index = elim (Dict.get code index) [
  | none ↦ index
  | some ids ↦
      let left = Sets.delete id ids in
      if is_nil left then Dict.remove code index else Dict.put code left index
]

-- The loop over the candidates, with the codes that were visited.
unfoldable pub detach_from :
    String → List String → List String → Dict (List String) → Dict (List String)
unfolding take_from
detach_from id visited [] index = index
detach_from id visited (code ∷ codes) index =
    let seen = detach_from id visited codes index in
    let rest = detach_from id (code ∷ visited) codes (take_from id code index) in
    if Sets.contains code visited then seen else rest

unfoldable pub detach_session_from_room_indexes :
    String → Option String → Dict (List String) → Dict (List String)
unfolding detach_from
detach_session_from_room_indexes id preferred_room_code index = elim (truthy preferred_room_code) [
  | none ↦ detach_from id [] (Dict.keys index) index
  | some code ↦ detach_from id [] (code ∷ Dict.keys index) index
]

-- `requestedRoomCode ?? currentRoomCode ?? null`
abbrev pub resolve_room_code_to_leave : Option String → Option String → Option String
resolve_room_code_to_leave current requested = elim requested [ none ↦ current | some c ↦ some c ]

-- `map.get(key) ?? new Set()` with the id added and stored.
abbrev pub put_in : String → String → Dict (List String) → Dict (List String)
put_in id key index = Dict.put key (Sets.add id (or_else (Dict.get key index) [])) index

unfoldable pub register_session : Session → Runtime → Runtime
register_session session rt = record rt {
  sessions_by_id = Dict.put session.id session rt.sessions_by_id;
  session_ids_by_remote_address = elim (truthy session.remote_address) [
    | none ↦ rt.session_ids_by_remote_address
    | some address ↦ put_in session.id address rt.session_ids_by_remote_address
  ];
}

unfoldable pub unregister_session : String → Runtime → Runtime
unfolding detach_session_from_room_indexes take_from
unregister_session id rt = elim (Dict.get id rt.sessions_by_id) [
  | none ↦ record rt {
    room_session_ids = detach_session_from_room_indexes id none rt.room_session_ids;
  }
  | some session ↦ record rt {
    room_session_ids = detach_session_from_room_indexes id session.room_code rt.room_session_ids;
    session_ids_by_remote_address = elim (truthy session.remote_address) [
      | none ↦ rt.session_ids_by_remote_address
      | some address ↦ take_from id address rt.session_ids_by_remote_address
    ];
    sessions_by_id = Dict.remove id rt.sessions_by_id;
  }
]

unfoldable pub mark_session_joined_room : String → String → Runtime → Runtime
unfolding detach_session_from_room_indexes
mark_session_joined_room id code rt = elim (Dict.get id rt.sessions_by_id) [
  | none ↦ rt
  | some session ↦ record rt {
    room_session_ids =
        put_in id code (detach_session_from_room_indexes id session.room_code rt.room_session_ids);
    sessions_by_id = Dict.put id (record session { room_code = some code }) rt.sessions_by_id;
  }
]

-- `session.roomCode = null`, if the session is in the room.
abbrev pub leave_named : String → String → Dict Session → Dict Session
leave_named id code sessions = elim (Dict.get id sessions) [
  | none ↦ sessions
  | some session ↦
      if same_option session.room_code (some code)
      then Dict.put id (record session { room_code = none }) sessions
      else sessions
]

unfoldable pub mark_session_left_room : String → Option String → Runtime → Runtime
unfolding take_from
mark_session_left_room id requested rt =
    let current : Option String = elim (Dict.get id rt.sessions_by_id) [
      | none ↦ none
      | some session ↦ session.room_code
    ] in
    elim (truthy (resolve_room_code_to_leave current requested)) [
      | none ↦ rt
      | some code ↦ record rt {
        room_session_ids = take_from id code rt.room_session_ids;
        sessions_by_id = leave_named id code rt.sessions_by_id;
      }
    ]

-- The ids that are registered, with their sessions, in order.
unfoldable pub known_sessions : List String → Dict Session → List Session
known_sessions [] sessions = []
known_sessions (id ∷ ids) sessions =
    let rest = known_sessions ids sessions in
    elim (Dict.get id sessions) [ none ↦ rest | some session ↦ session ∷ rest ]

unfoldable pub list_sessions_by_room : String → Runtime → List Session
unfolding known_sessions
list_sessions_by_room code rt = elim (Dict.get code rt.room_session_ids) [
  | none ↦ []
  | some ids ↦ known_sessions ids rt.sessions_by_id
]

abbrev pub get_connection_count : Runtime → ℕ
get_connection_count rt = length rt.sessions_by_id

abbrev pub get_active_room_count : Runtime → ℕ
get_active_room_count rt = length rt.room_session_ids

unfoldable pub size_all : Dict (List String) → ℕ
size_all [] = 0
size_all ((_, ids) ∷ index) = length ids + size_all index

abbrev pub get_active_member_count : Runtime → ℕ
get_active_member_count rt = size_all rt.room_session_ids
