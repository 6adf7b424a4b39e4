-- ===== src/Service/Join.antt =====
-- server/src/room-service.ts: the admission of a session to a room, from the checks of
-- ensureJoinRequestAllowed to the part of joinRoomForSession that runs under the room's join lock.
-- `max_members` is config.maxMembersPerRoom, `expires_at` the end of the lock and `fresh_token`
-- what generateToken returns. The lock itself and the leave before it are not part of this file.
use bili_sync_play.Prelude.{
  Bool, Option, String, [], false, if◌then◌else◌, is_some, leb, ltb, none, not, or_else, same, some,
  suc, truthy, ℕ, ◌&&◌, ◌+◌, ◌==◌, ◌∷◌,
}
use bili_sync_play.Prelude.Dict
use bili_sync_play.Prelude.Dict.{Dict}
use bili_sync_play.Session.{Session}
use bili_sync_play.RoomStore.{
  PersistedRoom, at_version, empty_patch, get_room, not_found, update_room, updated,
  version_conflict,
}
use bili_sync_play.Runtime.Rooms.{ActiveRooms, ActiveRoom}
use bili_sync_play.Runtime.Store as Live
use bili_sync_play.Service.State.{
  Env, Result, Service, err, join_token_invalid, ok, room_full, with_rooms, with_runtime,
}
use bili_sync_play.Service.Resolve.{max_version_retries, with_version_retry}

pub record JoinRequest : Type 0 where
  pub room_code : String
  pub join_token : String
  pub previous_member_token : Option String

pub record JoinTargetState : Type 0 where
  pub active_room : Option ActiveRoom
  pub reconnect_member_id : Option String
  pub reconnect_holds_seat : Bool
  pub active_member_count : ℕ

pub record JoinIdentity : Type 0 where
  pub member_id : String
  pub member_token : String

pub record PersistedJoin : Type 0 where
  pub room : PersistedRoom
  pub target : JoinTargetState

unfoldable pub size {ℓ} : {V : Type ℓ} → Dict V → ℕ
size [] = 0
size (_ ∷ m) = suc (size m)

abbrev pub member_count : Option ActiveRoom → ℕ
member_count none = 0
member_count (some room) = size room.members

abbrev pub holds_seat : Option ActiveRoom → Option String → Bool
holds_seat (some room) (some member_id) = Dict.has member_id room.members
holds_seat _ _ = false

-- The lookup is made only for a token that is given, in a room that is live; the call is made at
-- once, and its answer awaited.
abbrev pub find_reconnecting :
    Env → String → Option String → Option ActiveRoom → Service → Service × Option String
find_reconnecting env code previous_token none s = (s, none)
find_reconnecting env code previous_token (some active) s = elim (truthy previous_token) [
  | none ↦ (s, none)
  | some token ↦
      let (runtime, found) = Live.find_member_id_by_token (env.at 6) code token s.runtime in
      (env.others 6 (with_runtime s runtime), found)
]

-- The members of a live room that was read before are those it has by now. The source keeps a
-- reference to the room, which is looked up again here; the two differ only if the room was torn
-- down meanwhile.
abbrev pub by_now : String → Option ActiveRoom → ActiveRooms → Option ActiveRoom
by_now code none rooms = none
by_now code (some _) rooms = Dict.get code rooms

unfoldable pub resolve_join_target_state :
    Env → String → Option String → Service → Service × JoinTargetState
resolve_join_target_state env code previous_token s =
    let (runtime, active) = Live.get_room (env.at 5) code s.runtime in
    let (s', member_id) =
      find_reconnecting env code previous_token active (env.others 5 (with_runtime s runtime)) in
    let live = by_now code active s'.runtime.rooms in
    (
      s',
      record {
        active_room = live;
        reconnect_member_id = member_id;
        reconnect_holds_seat = holds_seat live member_id;
        active_member_count = member_count live;
      },
    )

-- Whether the token that is given was kicked from the room.
abbrev pub check_blocked : Env → String → Option String → Service → Service × Bool
check_blocked env code previous_token s = elim (truthy previous_token) [
  | none ↦ (s, false)
  | some token ↦
      let (runtime, blocked) = Live.is_member_token_blocked code token (env.at 4) s.runtime in
      (env.others 4 (with_runtime s runtime), blocked)
]

unfoldable pub ensure_join_request_allowed :
    ℕ → Env → PersistedRoom → JoinRequest → Service → Service × Result JoinTargetState
ensure_join_request_allowed max_members env room request s =
    let (s', blocked) = check_blocked env request.room_code request.previous_member_token s in
    let (s'', target) =
      resolve_join_target_state env request.room_code request.previous_member_token s' in
    if not (same room.join_token request.join_token)
    then (s, err join_token_invalid)
    else if blocked
    then (s', err join_token_invalid)
    else if leb max_members target.active_member_count && not target.reconnect_holds_seat
    then (s'', err room_full)
    else (s'', ok target)

abbrev pub room_last_active_write_interval_ms : ℕ
room_last_active_write_interval_ms = 30000

abbrev pub never_expires : PersistedRoom → Bool
never_expires room = not (is_some room.expires_at)

-- One attempt: the checks, and the write that revives the room and marks it as active. A member
-- who is back in a seat spares the write if the last one is recent.
unfoldable pub join_attempt :
    ℕ → JoinRequest → Env → PersistedRoom → Service → Service × Result (Option PersistedJoin)
join_attempt max_members request env room s =
    let t = env.at 3 in
    let (s', allowed) = ensure_join_request_allowed max_members env room request s in
    elim allowed [
      | err e ↦ (s', err e)
      | ok target ↦
          let s'' = env.others 7 s' in
          if never_expires room
            && ltb t (room.last_active_at + room_last_active_write_interval_ms)
            && target.reconnect_holds_seat
          then elim (get_room request.room_code s''.rooms) [
            | none ↦ (s'', ok none)
            | some latest ↦
                if latest.version == room.version
                then (env.others 8 s'', ok (some (record { room = latest; target = target })))
                else (s'', ok none)
          ]
          else let (rooms, result) =
              update_room t request.room_code (at_version room.version)
                (record empty_patch {
                  expires_at = if never_expires room then none else some none;
                  last_active_at = some t;
                })
                s''.rooms in
            elim result [
              | updated next ↦ (
                env.others 8 (with_rooms s'' rooms),
                ok (some (record { room = next; target = target })),
              )
              | version_conflict ↦ (with_rooms s'' rooms, ok none)
              | not_found ↦ (with_rooms s'' rooms, ok none)
            ]
    ]

unfoldable pub persist_joined_room :
    ℕ → Env → JoinRequest → Service → Service × Result (Option PersistedJoin)
persist_joined_room max_members env request s =
    with_version_retry max_version_retries env request.room_code (join_attempt max_members request)
      s

unfoldable pub build_join_identity : Session → String → Option String → Option String → JoinIdentity
build_join_identity session fresh_token reconnect_member_id previous_token = record {
  member_id = or_else reconnect_member_id session.id;
  member_token = elim (truthy reconnect_member_id) [
    | none ↦ fresh_token
    | some _ ↦ or_else (truthy previous_token) fresh_token
  ];
}

unfoldable pub apply_joined_session_state : Session → String → ℕ → JoinIdentity → Session
apply_joined_session_state session room_code joined_at identity = record session {
  member_id = some identity.member_id;
  room_code = some room_code;
  member_token = some identity.member_token;
  joined_at = some joined_at;
}
