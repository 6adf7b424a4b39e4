-- ===== src/Messages.antt =====
-- server/src/message-handler.ts, createMessageHandler: how the messages of a client are dispatched.
-- The room service and the hooks are interfaces here as in the source; what a handler does is a
-- list of outputs, in order. The session is attached, as the handler demands, and stays so.
use bili_sync_play.Prelude.{
  Bool, List, Option, String, [], if◌then◌else◌, max, none, some, ℕ, ◌++◌, ◌-◌, ◌∷◌,
}
use bili_sync_play.Protocol.{PlaybackState, RoomState, SharedVideo}
use bili_sync_play.Protocol.Messages.{ErrorCode, ServerMessage, error, room_state}
use bili_sync_play.Protocol.Messages as Wire
use bili_sync_play.Session.{Session}
use bili_sync_play.RoomStore.{PersistedRoom}
use bili_sync_play.Service.State.{Result, Service, ServiceError}
use bili_sync_play.Service.State as Failure
use bili_sync_play.Service.Join.{JoinRequest}
use bili_sync_play.Service.Admission.{JoinAnswer}
use bili_sync_play.Service.Create.{CreateAnswer}
use bili_sync_play.Service.Leave.{LeaveAnswer, LeaveRoomReason}
use bili_sync_play.Service.Playback.{PlaybackAnswer}
pub mod Leave
pub mod Enter
pub mod Handle
pub mod Answers
pub mod Limits
pub mod App

-- options.roomService
pub record RoomService : Type 0 where
  pub create_room : Session → Option String → Service → Service × Session × Result CreateAnswer
  pub join_room :
      Session → JoinRequest → Option String → Service → Service × Session × Result JoinAnswer
  pub leave_room : LeaveRoomReason → Session → Service → Service × Session × Result LeaveAnswer
  pub share_video :
      Session
      → String
      → SharedVideo
      → Option PlaybackState
      → Service
      → Service × Session × Result PersistedRoom
  pub update_playback :
      Session → String → PlaybackState → Service → Service × Session × Result PlaybackAnswer
  pub update_profile :
      Session → String → String → Service → Service × Session × Result PersistedRoom
  pub get_room_state : Session → String → Service → Service × Session × Result RoomState

-- onRoomJoined and onRoomLeft, with whether they succeed.
pub record Hooks : Type 0 where
  pub on_room_joined : Session → String → Service → Service × Bool
  pub on_room_left : Session → String → Service → Service × Bool

-- The events of the room event bus that a handler publishes.
pub data RoomEvent : Type 0 where
  room_state_updated : String → RoomEvent
  room_member_joined room_member_left : String → String → String → RoomEvent

-- config.rateLimits
pub record RateLimits : Type 0 where
  pub room_create_per_minute : ℕ
  pub room_join_per_minute : ℕ
  pub video_share_per_10_seconds : ℕ
  pub playback_update_per_second : ℕ
  pub playback_update_burst : ℕ
  pub sync_request_per_10_seconds : ℕ
  pub sync_ping_per_second : ℕ
  pub sync_ping_burst : ℕ

-- `at` are the readings of the clock; `admits` tells for which events a pending publish slot is free
-- in time, and `rollback_in_time` whether the rollback of a refused join ends before its timeout.
pub record Context : Type 0 where
  pub rate_limits : RateLimits
  pub service : RoomService
  pub hooks : Hooks
  pub admits : RoomEvent → Bool
  pub rollback_in_time : Bool
  pub at : ℕ → ℕ

-- Messages to the sender, events on the bus, requests to the resync queue, the call of
-- onRoomEntered, and the close of the socket with a code.
pub data Output : Type 0 where
  sends : ServerMessage → Output
  publishes : RoomEvent → Output
  requests_resync : String → Output
  enters : Output
  closes : ℕ → Output

pub record Turn : Type 0 where
  pub state : Service
  pub session : Session
  pub outputs : List Output

abbrev pub emit : Output → Turn → Turn
emit o turn = record turn { outputs = turn.outputs ++ (o ∷ []) }

abbrev pub send_error : ErrorCode → Turn → Turn
send_error code turn = emit (sends (error code)) turn

-- firePublishRoomEvent: an event for which no slot comes free in time is dropped.
unfoldable pub fire_publish_room_event : Context → RoomEvent → Turn → Turn
fire_publish_room_event ctx event turn =
    if ctx.admits event then emit (publishes event) turn else turn

-- publishSharedOwnerResync
abbrev pub publish_shared_owner_resync : String → Turn → Turn
publish_shared_owner_resync code turn = emit (requests_resync code) turn

-- error.code of a RoomServiceError
abbrev pub code_of : ServiceError → ErrorCode
code_of Failure.room_not_found = Wire.room_not_found
code_of Failure.join_token_invalid = Wire.join_token_invalid
code_of Failure.member_token_invalid = Wire.member_token_invalid
code_of Failure.not_in_room = Wire.not_in_room
code_of Failure.room_full = Wire.room_full
code_of Failure.invalid_message = Wire.invalid_message
code_of Failure.internal_error = Wire.internal_error

-- server/src/room-state-age.ts, withPlaybackAge, as the message that is sent.
unfoldable pub with_playback_age : RoomState → ℕ → ServerMessage
with_playback_age state sent_at_ms = elim state.playback [
  | none ↦ room_state state none
  | some playback ↦ room_state state (some (sent_at_ms - playback.server_time))
]
