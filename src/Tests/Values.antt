-- ===== src/Tests/Values.antt =====
-- Concrete rooms, sessions and frames.
use bili_sync_play.Prelude.{String, [], false, none, some, true, ℕ, ◌+◌, ◌∷◌}
use bili_sync_play.Protocol.{PlaybackState, SharedVideo, playing}
use bili_sync_play.Session.{Session}
use bili_sync_play.RateLimit.{create_session_rate_limit_state}
use bili_sync_play.RoomStore.{PersistedRoom}
use bili_sync_play.Runtime.Rooms.{ActiveRoom}
use bili_sync_play.Runtime.Store.{Runtime}
use bili_sync_play.Service.State.{Service}

abbrev pub frame : PlaybackState
frame = record {
  url = "u";
  current_time = 5000;
  play_state = playing;
  sync_intent = none;
  user_initiated = none;
  natural_end = none;
  playback_rate = 1000;
  updated_at = 900;
  server_time = 1000;
  actor_id = "a";
  seq = 1;
}

abbrev pub video : SharedVideo
video = record {
  video_id = "BV1";
  url = "u";
  title = "t";
  shared_by_member_id = some "a";
  shared_by_display_name = some "Ann";
}

abbrev pub room : PersistedRoom
room = record {
  code = "R";
  join_token = "J";
  created_at = 0;
  owner_member_id = some "a";
  owner_display_name = some "Ann";
  shared_video = some video;
  playback = some frame;
  version = 3;
  last_active_at = 1000;
  expires_at = none;
}

abbrev pub session_of : String → Session
session_of id = record {
  id = id;
  remote_address = none;
  origin = none;
  room_code = some "R";
  member_id = some id;
  display_name = id;
  member_token = some "tok";
  protocol_version = some 2;
  joined_at = some 10;
  invalid_message_count = 0;
  rate_limit_state = create_session_rate_limit_state 10 10 0;
  socket_open = true;
}

abbrev pub active : ActiveRoom
active = record { code = "R"; members = ("a", "a") ∷ []; member_tokens = ("a", "tok") ∷ [] }

abbrev pub runtime : Runtime
runtime = record {
  sessions_by_id = [];
  session_ids_by_remote_address = [];
  room_session_ids = [];
  rooms = ("R", active) ∷ [];
  blocked_member_tokens = [];
  claimed_slots = [];
  owned_room_locks = [];
  member_token_expiry = [];
  room_generations = ("R", "g1") ∷ [];
}

abbrev pub service : Service
service = record {
  rooms = ("R", room) ∷ [];
  runtime = runtime;
  authorities = record { by_room = []; last_sweep_at = 0 };
  closing = false;
  rooms_expired_deleted = 0;
}

-- A clock that shows 2000 at the first reading and one more at each further one.
abbrev pub clock : ℕ → ℕ
clock n = n + 2000
