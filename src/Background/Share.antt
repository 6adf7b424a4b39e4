-- ===== src/Background/Share.antt =====
-- extension/src/background/room-state.ts, and of share-controller.ts and room-session-controller.ts what
-- stands around it: a video that the member shares is pending until the room confirms it or the time
-- is over, and until then room states about other pages are stale. `normalize` is normalizeUrl of a
-- text; a timer is its number.
use bili_sync_play.Prelude.{
  Bool, Option, String, false, if◌then◌else◌, is_some, ltb, none, not, same, same_option, some,
  true, truthy, ℕ, ◌&&◌, ◌+◌, ◌||◌,
}
use bili_sync_play.Protocol.{RoomState}
pub mod Laws

abbrev pub pending_local_share_timeout_ms : ℕ
pending_local_share_timeout_ms = 10000

pub record PendingLocalShareState : Type 0 where
  pub pending_local_share_url : Option String
  pub pending_local_share_expires_at : Option ℕ
  pub pending_local_share_timer : Option ℕ

pub record ShareState : Type 0 where
  pub pending : PendingLocalShareState
  pub pending_local_share_generation : Option ℕ
  pub pending_local_share_is_auto_share : Bool
  pub last_opened_shared_url : Option String

pub record PendingLocalShareCleanupPlan : Type 0 where
  pub next_state : PendingLocalShareState
  pub had_pending_local_share : Bool
  pub should_cancel_timer : Bool

pub data IncomingRoomStateDecision : Type 0 where
  ignore_stale : IncomingRoomStateDecision
  apply : Option String → Bool → IncomingRoomStateDecision

abbrev pub create_pending_local_share_expiry : ℕ → ℕ
create_pending_local_share_expiry now = now + pending_local_share_timeout_ms

unfoldable pub get_active_pending_local_share_url : PendingLocalShareState → ℕ → Option String
get_active_pending_local_share_url pending now = elim (truthy pending.pending_local_share_url) [
  | none ↦ none
  | some url ↦ elim pending.pending_local_share_expires_at [
    | none ↦ none
    | some expires_at ↦ if ltb now expires_at then some url else none
  ]
]

unfoldable pub should_clear_pending_local_share_on_server_url_change :
    String → String → Option String → Bool
should_clear_pending_local_share_on_server_url_change current_server_url next_server_url pending =
    is_some pending && not (same current_server_url next_server_url)

abbrev pub clear_pending_local_share_state : PendingLocalShareState
clear_pending_local_share_state = record {
  pending_local_share_url = none;
  pending_local_share_expires_at = none;
  pending_local_share_timer = none;
}

unfoldable pub prepare_pending_local_share_cleanup :
    PendingLocalShareState → PendingLocalShareCleanupPlan
prepare_pending_local_share_cleanup pending = record {
  next_state = clear_pending_local_share_state;
  had_pending_local_share =
      is_some (truthy pending.pending_local_share_url)
      || is_some pending.pending_local_share_expires_at;
  should_cancel_timer = is_some pending.pending_local_share_timer;
}

abbrev pub shared_url : Option RoomState → Option String
shared_url none = none
shared_url (some room) = elim room.shared_video [ none ↦ none | some video ↦ some video.url ]

unfoldable pub decide_incoming_room_state :
    Option RoomState → Option String → Option String → IncomingRoomStateDecision
decide_incoming_room_state current pending incoming =
    if is_some (truthy pending) && not (same_option incoming pending)
    then ignore_stale
    else apply (shared_url current) (is_some pending && same_option incoming pending)

unfoldable pub is_shared_video_change : Option String → RoomState → Bool
is_shared_video_change previous next = not (same_option previous (shared_url (some next)))

-- clearPendingLocalShare
unfoldable pub clear_pending_local_share : ShareState → ShareState
unfolding prepare_pending_local_share_cleanup
clear_pending_local_share s =
    let cleanup = prepare_pending_local_share_cleanup s.pending in
    record s {
      pending = if cleanup.had_pending_local_share then cleanup.next_state else s.pending;
      pending_local_share_generation = none;
      pending_local_share_is_auto_share = false;
    }

unfoldable pub expire_pending_local_share_if_needed : ℕ → ShareState → ShareState
unfolding get_active_pending_local_share_url clear_pending_local_share
expire_pending_local_share_if_needed now s =
    if is_some (truthy s.pending.pending_local_share_url)
      && not (is_some (get_active_pending_local_share_url s.pending now))
    then clear_pending_local_share s
    else s

-- `timer` is the one that setTimeout returns.
unfoldable pub set_pending_local_share : ℕ → ℕ → ℕ → String → Bool → ShareState → ShareState
set_pending_local_share now generation timer url is_auto_share s = record s {
  pending = record {
    pending_local_share_url = some url;
    pending_local_share_expires_at = some (create_pending_local_share_expiry now);
    pending_local_share_timer = some timer;
  };
  pending_local_share_generation = some generation;
  pending_local_share_is_auto_share = is_auto_share;
}

abbrev pub normalized : (String → Option String) → Option String → Option String
normalized normalize none = none
normalized normalize (some url) = normalize url

-- What handleRoomStateMessage does with a decision, as far as the share goes.
unfoldable pub settle_decision : IncomingRoomStateDecision → RoomState → ShareState → ShareState
unfolding is_shared_video_change clear_pending_local_share
settle_decision ignore_stale next s = s
settle_decision (apply previous confirmed) next s =
    let opened =
      if is_shared_video_change previous next && not confirmed
      then record s { last_opened_shared_url = none }
      else s in
    if confirmed then clear_pending_local_share opened else opened

-- handleRoomStateMessage, as far as the share goes, but for the toast. `now` is the reading with which a
-- share that is over is dropped, `now'` the one with which the pending share is looked up.
unfoldable pub judge_room_state :
    (String → Option String)
    → ℕ
    → ℕ
    → Option RoomState
    → RoomState
    → ShareState
    → ShareState × IncomingRoomStateDecision
unfolding expire_pending_local_share_if_needed decide_incoming_room_state settle_decision
judge_room_state normalize now now' current next before =
    let s = expire_pending_local_share_if_needed now before in
    let decision =
      decide_incoming_room_state current
        (normalized normalize (get_active_pending_local_share_url s.pending now'))
        (normalized normalize (shared_url (some next))) in
    (settle_decision decision next s, decision)
