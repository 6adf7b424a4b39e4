-- ===== src/Session.antt =====
-- server/src/types.ts: a connection. Sessions are shared objects that handlers change in place; a
-- reference to one is its id, and its fields stand in the runtime store.
use bili_sync_play.Prelude.{Bool, Option, String, false, none, or_else, same, some, ℕ}
use bili_sync_play.RateLimit.{SessionRateLimitState}

-- `socket_open`: the session is attached and its socket's readyState is OPEN.
pub record Session : Type 0 where
  pub id : String
  pub remote_address : Option String
  pub origin : Option String
  pub room_code : Option String
  pub member_id : Option String
  pub display_name : String
  pub member_token : Option String
  pub protocol_version : Option ℕ
  pub joined_at : Option ℕ
  pub invalid_message_count : ℕ
  pub rate_limit_state : SessionRateLimitState
  pub socket_open : Bool

-- `session.memberId ?? session.id`
abbrev pub member_or_id : Session → String
member_or_id session = or_else session.member_id session.id

abbrev pub names_room : String → Session → Bool
names_room code session = elim session.room_code [ none ↦ false | some c ↦ same c code ]
