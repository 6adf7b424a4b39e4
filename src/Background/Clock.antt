-- ===== src/Background/Clock.antt =====
-- extension/src/background/clock-controller.ts and clock-sync.ts: where a room that plays is by now, from
-- the snapshot that arrived. Times of the monotonic clock are counted from ten seconds before its zero,
-- so that an anchor is a natural number; a position is rounded down to a millisecond. The texts of the
-- keys of two snapshots are equal when their seven fields are.
use bili_sync_play.Prelude.{
  Bool, Option, if◌then◌else◌, leb, ltb, none, not, or_else, same, some, ℕ, ◌&&◌, ◌*◌, ◌+◌, ◌-◌,
  ◌/◌, ◌==◌, ◌||◌,
}
use bili_sync_play.Protocol.{PlaybackState, RoomState, is_playing, same_play_state}
pub mod Laws

abbrev pub max_trusted_playback_age_ms : ℕ
max_trusted_playback_age_ms = 10000

unfoldable pub resolve_playback_anchor_at_ms : ℕ → Option ℕ → ℕ
resolve_playback_anchor_at_ms received_at_ms none = received_at_ms
resolve_playback_anchor_at_ms received_at_ms (some playback_age_ms) =
    if playback_age_ms == 0 || ltb max_trusted_playback_age_ms playback_age_ms
    then received_at_ms
    else received_at_ms - playback_age_ms

unfoldable pub extrapolate_playing_room_state : RoomState → ℕ → RoomState
extrapolate_playing_room_state state elapsed_ms = elim state.playback [
  | none ↦ state
  | some playback ↦ if not (is_playing playback.play_state) then state else record state {
    playback = some (record playback {
      current_time = playback.current_time + elapsed_ms * playback.playback_rate / 1000;
    });
  }
]

-- playbackSnapshotKey(p) === playbackSnapshotKey(q)
abbrev pub same_snapshot : PlaybackState → PlaybackState → Bool
same_snapshot p q =
    same p.actor_id q.actor_id
    && p.seq == q.seq
    && p.server_time == q.server_time
    && same_play_state p.play_state q.play_state
    && same p.url q.url
    && p.current_time == q.current_time
    && p.playback_rate == q.playback_rate

pub record PlaybackAnchor : Type 0 where
  pub key : PlaybackState
  pub at_ms : ℕ

unfoldable pub mark_playback_arrival :
    Option PlaybackState → ℕ → Option PlaybackAnchor → Option PlaybackAnchor
mark_playback_arrival none at_ms anchor = none
mark_playback_arrival (some playback) at_ms anchor =
    if not (is_playing playback.play_state) then none else elim anchor [
      | none ↦ some (record { key = playback; at_ms = at_ms })
      | some known ↦
          if not (same_snapshot known.key playback) || ltb at_ms known.at_ms
          then some (record { key = playback; at_ms = at_ms })
          else some known
    ]

abbrev pub anchored_at : Option PlaybackAnchor → ℕ → ℕ
anchored_at none now = now
anchored_at (some anchor) now = anchor.at_ms

unfoldable pub compensate_room_state :
    RoomState → Option ℕ → ℕ → Option PlaybackAnchor → Option PlaybackAnchor × RoomState
unfolding mark_playback_arrival extrapolate_playing_room_state
compensate_room_state state anchor_at_ms now anchor = elim state.playback [
  | none ↦ (none, state)
  | some playback ↦
      let marked = mark_playback_arrival (some playback) (or_else anchor_at_ms now) anchor in
      if not (is_playing playback.play_state)
      then (none, state)
      else (marked, extrapolate_playing_room_state state (now - anchored_at marked now))
]
