-- ===== src/Tests/Handlers.antt =====
-- The handlers of the service, at concrete inputs.
use bili_sync_play.Prelude.{
  Option, String, [], arith, false, none, refl, some, true, ℕ, ◌<◌, ◌∷◌, ◌≡◌, ◌≤◌,
}
use bili_sync_play.Prelude.Tests.{text_discrete}
use bili_sync_play.Prelude.Dict
use bili_sync_play.Protocol.{PlaybackState}
use bili_sync_play.Authority.{decide_playback_acceptance, share, video_share}
use bili_sync_play.Authority.Window.Laws.{live_authority}
use bili_sync_play.Session.{Session}
use bili_sync_play.RoomStore.{PersistedRoom, get_room, patch_room, update_room}
use bili_sync_play.Runtime.Rooms.{ActiveRoom}
use bili_sync_play.Runtime.Slots.{try_claim_message_slot}
use bili_sync_play.Runtime.Store as Live
use bili_sync_play.Service.State.{Env, Service, alone, ok}
use bili_sync_play.Service.Resolve.{resolve_room, with_version_retry}
use bili_sync_play.Service.Resolve.Laws.{resolve_room-revived}
use bili_sync_play.Service.Access.{JoinedRoomAccess, require_joined_room_session, require_seat}
use bili_sync_play.Service.Access.Laws.{
  IsAuthenticated, require_joined_room_session-IsAuthenticated,
}
use bili_sync_play.Service.Playback.{
  judge_playback, stamp, store_playback, update_after_access, update_claimed,
  update_playback_for_session,
}
use bili_sync_play.Service.Playback.Laws.{IsApplied, update_playback_for_session-IsApplied}
use bili_sync_play.Service.Playback.Stale.{store_playback-raced}
use bili_sync_play.Service.Share.{share_after_access}
use bili_sync_play.Service.Share.Laws.{IsShared, share_after_access-IsShared}
use bili_sync_play.Service.Join.{
  persist_joined_room, JoinRequest, PersistedJoin, build_join_identity, ensure_join_request_allowed,
  join_attempt, resolve_join_target_state, size,
}
use bili_sync_play.Service.Admission.{join_under_lock, JoinAnswer, JoinContext, admit}
use bili_sync_play.Service.Admission.Laws.{admitted_holds_seat}
use bili_sync_play.Service.Admission.Places.{present}
use bili_sync_play.Service.Admission.Capacity.{join_respects_capacity}
use bili_sync_play.Tests.Values.{active, clock, frame, room, service, session_of, video}

abbrev expiring : PersistedRoom
expiring = record room { expires_at = some 1200 }

abbrev with_expiring : Service
with_expiring = record service { rooms = ("R", expiring) ∷ [] }

-- Another request revives the room before the delete is sent.
abbrev reviving : Env
reviving = record { at = clock; others = λ _ _. service }

resolve_room-revived_example : resolve_room reviving "R" with_expiring ≡ (service, ok (some room))
unfolding Dict.get text_discrete
resolve_room-revived_example =
    resolve_room-revived reviving "R" with_expiring expiring room refl refl refl refl refl

abbrev ann : Session
ann = session_of "a"

require_joined_room_session-IsAuthenticated_example :
    let (s', session', _) = require_joined_room_session (alone clock) ann "tok" service in
    (session' ≡ ann)
    × IsAuthenticated s' ann "tok" (record { persisted_room = room; active_room = active })
unfolding require_joined_room_session require_seat resolve_room Live.get_room
    Live.prune_expired_member_tokens Dict.get text_discrete
require_joined_room_session-IsAuthenticated_example =
    require_joined_room_session-IsAuthenticated (alone clock) ann "tok" service
      (record { persisted_room = room; active_room = active }) refl

abbrev sent : PlaybackState
sent = record frame { current_time = 9000; actor_id = "somebody else"; server_time = 1; seq = 2 }

abbrev at_home : String → Option String
at_home url = some url

abbrev answered : PersistedRoom
answered = record room { playback = some (stamp 2006 ann sent); version = 4; last_active_at = 2006 }

update_playback_for_session-IsApplied_example :
    let (s1, _, verdict) = require_joined_room_session (alone clock) ann "tok" service in
    let s' = (update_playback_for_session at_home (alone clock) ann "tok" sent "slot" service).0 in
    (access : JoinedRoomAccess) × (verdict ≡ ok access)
    × IsAuthenticated s1 ann "tok" access
    × (get_room access.persisted_room.code s'.rooms ≡ some answered)
    × IsApplied (stamp 2006 ann sent) access.persisted_room answered
unfolding update_playback_for_session require_joined_room_session require_seat resolve_room
    Live.get_room Live.prune_expired_member_tokens update_after_access update_claimed judge_playback
    store_playback update_room patch_room Dict.get text_discrete try_claim_message_slot
    Dict.keep_values decide_playback_acceptance
update_playback_for_session-IsApplied_example =
    update_playback_for_session-IsApplied at_home (alone clock) ann "tok" sent "slot" service
      answered refl

abbrev newer : PersistedRoom
newer = record room { version = 4 }

abbrev racing : Env
racing = record { at = clock; others = λ _ s. record s { rooms = ("R", newer) ∷ [] } }

store_playback-raced_example :
    store_playback racing room none frame "k" "slot" service
    ≡ (record service { rooms = ("R", newer) ∷ [] }, ok (record { room = none; ignored = true }))
unfolding Dict.get text_discrete
store_playback-raced_example =
    store_playback-raced racing room none frame "k" "slot" service newer refl (ground arith)

share_after_access-IsShared_example :
    let (s', answer) = share_after_access (alone clock) room ann video none "slot" service in
    (next : PersistedRoom) × (answer ≡ ok next)
    × (s'.rooms ≡ Dict.put "R" next service.rooms)
    × (next.version ≡ 4)
    × (next.code ≡ "R")
    × (next.join_token ≡ "J")
    × IsShared 2004 ann video next
    × ((now : ℕ)
        → now < 3215
        → live_authority now "R" s'.authorities
          ≡ some (record { actor_id = "a"; until = 3215; kind = share; source = video_share }))
unfolding Dict.get text_discrete
share_after_access-IsShared_example =
    share_after_access-IsShared (alone clock) room room ann video none "slot" service refl
      (ground arith) refl refl refl refl

abbrev context : JoinContext
context = record {
  max_members = 2;
  retention_ms = 1800000;
  lock_expires_at = 9000;
  fresh_token = "new";
}

abbrev bob : Session
bob = record (session_of "b") {
  room_code = none;
  member_id = none;
  member_token = none;
  joined_at = none;
}

abbrev request : JoinRequest
request = record { room_code = "R"; join_token = "J"; previous_member_token = none }

abbrev joined : PersistedJoin
joined = record {
  room = record room { version = 4; last_active_at = 2003 };
  target = record {
    active_room = some active;
    reconnect_member_id = none;
    reconnect_holds_seat = false;
    active_member_count = 1;
  };
}

abbrev answer : JoinAnswer
answer = record { room = joined.room; member_token = "new" }

admitted_holds_seat_example :
    let (s', session', _) = admit context (alone clock) bob none joined service in
    let identity = build_join_identity bob "new" none none in
    (live : ActiveRoom) × (Dict.get "R" s'.runtime.rooms ≡ some live)
    × (Dict.get identity.member_id live.members ≡ some "b")
    × (Dict.get identity.member_id live.member_tokens ≡ some "new")
    × (session'.room_code ≡ some "R")
    × (session'.member_id ≡ some identity.member_id)
    × (session'.member_token ≡ some "new")
    × ("new" ≡ identity.member_token)
unfolding admit build_join_identity
admitted_holds_seat_example = admitted_holds_seat context clock bob none joined service answer refl

join_respects_capacity_example :
    present "R" (join_under_lock context (alone clock) bob request service).0 ≤ 2
unfolding join_under_lock persist_joined_room with_version_retry resolve_room join_attempt
    ensure_join_request_allowed resolve_join_target_state update_room patch_room admit
    build_join_identity size Live.get_room Live.prune_expired_member_tokens Dict.get text_discrete
join_respects_capacity_example =
    join_respects_capacity context clock bob request service answer refl refl (ground arith)
