-- ===== src/Service/State.antt =====
-- server/src/room-service.ts: the state of the service, its errors, and what happens around a
-- handler while it waits.
use bili_sync_play.Prelude.{Bool, none, ℕ, ◌+◌}
use bili_sync_play.Session.{Session}
use bili_sync_play.RoomStore.{Rooms}
use bili_sync_play.Runtime.Store.{Runtime}
use bili_sync_play.Authority.Window.{Authorities}

pub data ServiceError : Type 0 where
  room_not_found join_token_invalid member_token_invalid not_in_room room_full invalid_message :
      ServiceError
  internal_error : ServiceError

pub data Result {ℓ} (A : Type ℓ) : Type ℓ where
  ok : A → Result A
  err : ServiceError → Result A

-- `rooms_expired_deleted` is the counter of `recordRoomsExpiredDeleted`.
pub record Service : Type 0 where
  pub rooms : Rooms
  pub runtime : Runtime
  pub authorities : Authorities
  pub closing : Bool
  pub rooms_expired_deleted : ℕ

-- One call of a handler: `at n` is its reading of `now()` with the number n, and `others n` what
-- other requests do to the service during its wait with the number n.
pub record Env : Type 0 where
  pub at : ℕ → ℕ
  pub others : ℕ → Service → Service

-- The readings and waits from the number `k` on.
abbrev pub later : ℕ → Env → Env
later k env = record { at = λ n. env.at (n + k); others = λ n. env.others (n + k) }

-- Nobody else acts.
abbrev pub alone : (ℕ → ℕ) → Env
alone at = record { at = at; others = λ n s. s }

abbrev pub with_rooms : Service → Rooms → Service
with_rooms s rooms = record s { rooms = rooms }

abbrev pub with_runtime : Service → Runtime → Service
with_runtime s runtime = record s { runtime = runtime }

-- clearSessionRoom
unfoldable pub clear_session_room : Session → Session
clear_session_room session = record session {
  room_code = none;
  member_id = none;
  member_token = none;
  joined_at = none;
}
