-- ===== src/Protocol/Messages.antt =====
-- packages/protocol/src/types/client-message.ts, server-message.ts and common.ts: the messages of a
-- client and the answers of the server to it, once the guards have accepted them.
use bili_sync_play.Prelude.{Option, String, ℕ}
use bili_sync_play.Protocol.{PlaybackState, RoomState, SharedVideo}

pub data ErrorCode : Type 0 where
  origin_not_allowed room_not_found join_token_invalid member_token_invalid not_in_room : ErrorCode
  rate_limited invalid_message payload_too_large room_full unsupported_protocol_version : ErrorCode
  internal_error : ErrorCode

pub record ClientHello : Type 0 where
  pub display_name : Option String
  pub protocol_version : Option ℕ

pub record JoinPayload : Type 0 where
  pub room_code : String
  pub join_token : String
  pub member_token : Option String
  pub display_name : Option String
  pub protocol_version : Option ℕ

pub data ClientMessage : Type 0 where
  room_create : Option ClientHello → ClientMessage
  room_join : JoinPayload → ClientMessage
  profile_update : String → String → ClientMessage  -- memberToken, displayName
  room_leave : Option String → ClientMessage  -- payload?.memberToken
  video_share : String → SharedVideo → Option PlaybackState → ClientMessage
  playback_update : String → PlaybackState → ClientMessage
  sync_request : String → ClientMessage
  sync_ping : ℕ → ClientMessage  -- clientSendTime

pub record RoomCreated : Type 0 where
  pub room_code : String
  pub member_id : String
  pub join_token : String
  pub member_token : String
  pub server_protocol_version : ℕ

pub record RoomJoined : Type 0 where
  pub room_code : String
  pub member_id : String
  pub member_token : String
  pub server_protocol_version : ℕ

-- The five of the eight variants that the message handler sends to a session itself: not those about
-- members, which its events on the bus turn into elsewhere, and not the announcements. `room_state state age`: the state and its playbackAgeMs.
pub data ServerMessage : Type 0 where
  room_created : RoomCreated → ServerMessage
  room_joined : RoomJoined → ServerMessage
  room_state : RoomState → Option ℕ → ServerMessage
  error : ErrorCode → ServerMessage
  sync_pong : ℕ → ℕ → ℕ → ServerMessage
