-- ===== src/Service/Resolve.antt =====
-- server/src/room-service.ts, resolveRoom, collectExpiredRoom, collectRuntimeStateForDeletedRooms
-- and withVersionRetry, on stores that answer: an expired room is collected by whoever reads it.
use bili_sync_play.Prelude.{
  Option, String, if◌then◌else◌, none, not, same_option, some, suc, zero, ℕ, ◌+◌,
}
use bili_sync_play.Prelude.Dict
use bili_sync_play.RoomStore.{
  PersistedRoom, RoomDeleteOutcome, already_deleted, delete_expired_room, deleted, get_room,
  has_expired, superseded,
}
use bili_sync_play.Runtime.Store as Live
use bili_sync_play.Service.State.{
  Env, Result, Service, err, internal_error, later, ok, with_rooms, with_runtime,
}
pub mod Laws
pub mod Retry

-- The pin of the generation, the look for a room under the code, the confirmation of the pin, and
-- the guarded delete; the other requests act after each of the three reads.
unfoldable pub collect_runtime_state : (ℕ → Service → Service) → String → Service → Service
collect_runtime_state others code s =
    let pinned = Live.get_room_generation code s.runtime in
    let s1 = others 0 s in
    let found = Dict.has code s1.rooms in
    let s2 = others 1 s1 in
    let confirmed = Live.get_room_generation code s2.runtime in
    let s3 = others 2 s2 in
    if found
    then s2
    else if same_option confirmed pinned
    then with_runtime s3 (Live.delete_room code pinned s3.runtime).0
    else s3

-- The guarded delete, and what a successful one owes; the expiry is judged by the store.
unfoldable pub collect_expired_room : Env → String → Service → Service × RoomDeleteOutcome
unfolding collect_runtime_state
collect_expired_room env code s =
    let (rooms, outcome) = delete_expired_room code (env.at 1) s.rooms in
    let s' = with_rooms s rooms in
    elim outcome [
      | superseded ↦ (s', superseded)
      | deleted ↦ (
        collect_runtime_state (later 1 env).others code
            (record s' { rooms_expired_deleted = s'.rooms_expired_deleted + 1 }),
        deleted,
      )
      | already_deleted ↦ (collect_runtime_state (later 1 env).others code s', already_deleted)
    ]

-- After a delete that was declined: a fresh read, and an error if it has expired again. What others do
-- between the two is not modelled apart from what they did before the delete.
abbrev pub reread : ℕ → String → Service → Result (Option PersistedRoom)
reread t code s = elim (get_room code s.rooms) [
  | none ↦ ok none
  | some fresh ↦ if has_expired t fresh then err internal_error else ok (some fresh)
]

-- What a reader of an expired room is told, once the collection has answered.
abbrev pub after_collection :
    ℕ → String → Service × RoomDeleteOutcome → Service × Result (Option PersistedRoom)
after_collection t code (s, superseded) = (s, reread t code s)
after_collection t code (s, deleted) = (s, ok none)
after_collection t code (s, already_deleted) = (s, ok none)

unfoldable pub resolve_room : Env → String → Service → Service × Result (Option PersistedRoom)
unfolding collect_expired_room
resolve_room env code s = elim (get_room code s.rooms) [
  | none ↦ (s, ok none)
  | some room ↦
      if not (has_expired (env.at 0) room)
      then (s, ok (some room))
      else if s.closing
      then (s, err internal_error)
      else after_collection (env.at 2) code (collect_expired_room env code (env.others 0 s))
]

abbrev pub max_version_retries : ℕ
max_version_retries = 3

-- A round resolves the room and runs the action on it; an action that returns none is tried again.
-- A round has ten readings and waits of its own.
unfoldable pub with_version_retry {ℓ} :
    {A : Type ℓ}
    → ℕ
    → Env
    → String
    → (Env → PersistedRoom → Service → Service × Result (Option A))
    → Service
    → Service × Result (Option A)
with_version_retry zero env code action s = (s, ok none)
with_version_retry (suc attempts) env code action s =
    let (s', resolved) = resolve_room env code s in
    elim resolved [
      | err e ↦ (s', err e)
      | ok found ↦ elim found [
        | none ↦ (s', ok none)
        | some room ↦
            let (s'', answer) = action env room s' in
            let rest = with_version_retry attempts (later 10 env) code action s'' in
            elim answer [
              | err e ↦ (s'', err e)
              | ok outcome ↦ elim outcome [ none ↦ rest | some a ↦ (s'', ok (some a)) ]
            ]
      ]
    ]
