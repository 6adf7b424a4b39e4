-- ===== src/Authority/Laws.antt =====
-- What a rejected playback update says about the room: theorems on Authority.antt.
use bili_sync_play.Prelude.{
  ℕ, ◌+◌, ◌≤◌, ◌<◌, ◌≡◌, ◌≢◌, refl, true, false, Option, none, some, arith, dist,
}
use bili_sync_play.Protocol.{PlaybackState, playing, is_stop_like}
use bili_sync_play.Authority.{
  pause, PlaybackAuthority, ignore_as_follow, is_accept, decide_playback_acceptance,
}

-- An update that is ignored as a follow comes without an explicit intent, from a member who
-- neither set the room's playback nor holds the window, and the window is open.
pub follow_needs_window :
    (cur : PlaybackState) (authority : Option PlaybackAuthority) (inc : PlaybackState) (t : ℕ)
    → decide_playback_acceptance (some cur) authority inc t ≡ ignore_as_follow
    → (a : PlaybackAuthority) × (authority ≡ some a)
      × (t < a.until)
      × (a.actor_id ≢ inc.actor_id)
      × (cur.actor_id ≢ inc.actor_id)
      × (inc.sync_intent ≡ none)
unfolding decide_playback_acceptance
follow_needs_window cur none inc t h = ground arith
follow_needs_window cur (some a) inc t h =
    (a, refl, ground arith, ground arith, ground arith, ground arith)

-- A pause or a stall is ignored only if the room plays, the sender stands within 1.2 s of the room
-- and at most 0.15 s ahead of it, and the window was not opened by a pause.
pub stop_ignored :
    (cur : PlaybackState) (authority : Option PlaybackAuthority) (inc : PlaybackState) (t : ℕ)
    → is_stop_like inc.play_state ≡ true
    → is_accept (decide_playback_acceptance (some cur) authority inc t) ≡ false
    → (cur.play_state ≡ playing)
      × (dist inc.current_time cur.current_time < 1200)
      × (inc.current_time ≤ cur.current_time + 150)
      × ((a : PlaybackAuthority) × (authority ≡ some a) × (a.kind ≢ pause))
unfolding decide_playback_acceptance
stop_ignored cur none inc t s h = absurd (ground arith)
stop_ignored cur (some a) inc t s h =
    (ground arith, ground arith, ground arith, (a, refl, ground arith))
