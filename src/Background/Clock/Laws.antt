-- ===== src/Background/Clock/Laws.antt =====
-- Where a client shows a room that plays: theorems on Background/Clock.antt and on the age that the server
-- sends along (Messages.antt).
use bili_sync_play.Prelude.{
  Bool, Option, arith, none, not, some, true, ℕ, ◌*◌, ◌+◌, ◌-◌, ◌/◌, ◌≡◌, ◌≤◌,
}
use bili_sync_play.Protocol.{PlaybackState, RoomState, is_playing}
use bili_sync_play.Protocol.Messages.{ServerMessage, room_state}
use bili_sync_play.Messages.{with_playback_age}
use bili_sync_play.Background.Clock.{
  PlaybackAnchor, compensate_room_state, extrapolate_playing_room_state, mark_playback_arrival,
  resolve_playback_anchor_at_ms, same_snapshot,
}

-- The playbackAgeMs of a message.
abbrev pub age_of : ServerMessage → Option ℕ
age_of (room_state _ age) = age
age_of _ = none

-- No anchor stands for this very snapshot.
abbrev pub is_new : Option PlaybackAnchor → PlaybackState → Bool
is_new none playback = true
is_new (some anchor) playback = not (same_snapshot anchor.key playback)

same_snapshot_refl : (p : PlaybackState) → same_snapshot p p ≡ true
same_snapshot_refl p = ground arith

-- The room on the client: a snapshot of a playing room that the server took at `server_time` and sent
-- within ten seconds, at `sent_at` on its own clock, and that arrived at `received` on the client's, is
-- shown at `now` where the room is by then: forward by the time that passed on the server's clock
-- until it was sent, and on the client's since it arrived. How far the two clocks are apart does not
-- matter. The client had no anchor for this snapshot before.
pub snapshot_is_caught_up :
    (state : RoomState) (playback : PlaybackState) (sent_at received now : ℕ)
    (before : Option PlaybackAnchor)
    → state.playback ≡ some playback
    → is_playing playback.play_state ≡ true
    → playback.server_time ≤ sent_at
    → sent_at ≤ playback.server_time + 10000
    → 10000 ≤ received
    → received ≤ now
    → is_new before playback ≡ true
    → let anchor =
        mark_playback_arrival state.playback
          (resolve_playback_anchor_at_ms received (age_of (with_playback_age state sent_at)))
          before in
      let position =
        playback.current_time
        + ((sent_at - playback.server_time) + (now - received)) * playback.playback_rate / 1000 in
      (compensate_room_state state none now anchor).1
      ≡ record state { playback = some (record playback { current_time = position }) }
unfolding mark_playback_arrival resolve_playback_anchor_at_ms with_playback_age
    compensate_room_state extrapolate_playing_room_state
snapshot_is_caught_up state playback sent_at received now before at plays h1 h2 h3 h4 new =
    ground (arith, at, plays, h1, h2, h3, h4, new, same_snapshot_refl playback)
