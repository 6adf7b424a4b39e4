-- ===== src/Protocol.antt =====
-- packages/protocol/src/types/domain.ts and common.ts: the values that clients and server exchange.
-- A position is a number of milliseconds and a rate a number of thousandths.
use bili_sync_play.Prelude.{ℕ, String, Bool, true, false, Option, none, some, List}
pub mod Messages

pub data PlayState : Type 0 where
  playing paused buffering : PlayState

pub data SyncIntent : Type 0 where
  explicit_seek explicit_ratechange : SyncIntent

PlayState-discrete : Discrete PlayState
PlayState-discrete = hlevel

abbrev pub is_playing : PlayState → Bool
is_playing playing = true
is_playing _ = false

-- `playState === "paused" || playState === "buffering"`
abbrev pub is_stop_like : PlayState → Bool
is_stop_like playing = false
is_stop_like _ = true

abbrev pub same_play_state : PlayState → PlayState → Bool
same_play_state playing playing = true
same_play_state paused paused = true
same_play_state buffering buffering = true
same_play_state _ _ = false

abbrev pub is_explicit_control : Option SyncIntent → Bool
is_explicit_control none = false
is_explicit_control (some _) = true

abbrev pub is_seek_intent : Option SyncIntent → Bool
is_seek_intent (some explicit_seek) = true
is_seek_intent _ = false

pub record SharedVideo : Type 0 where
  pub video_id : String
  pub url : String
  pub title : String
  pub shared_by_member_id : Option String
  pub shared_by_display_name : Option String

pub record PlaybackState : Type 0 where
  pub url : String
  pub current_time : ℕ  -- milliseconds
  pub play_state : PlayState
  pub sync_intent : Option SyncIntent
  pub user_initiated : Option Bool
  pub natural_end : Option Bool
  pub playback_rate : ℕ  -- thousandths
  pub updated_at : ℕ
  pub server_time : ℕ
  pub actor_id : String
  pub seq : ℕ

pub record RoomMember : Type 0 where
  pub id : String
  pub name : String

pub record RoomState : Type 0 where
  pub room_code : String
  pub shared_video : Option SharedVideo
  pub playback : Option PlaybackState
  pub members : List RoomMember
