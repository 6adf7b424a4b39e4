-- ===== src/Content/Suppression/Laws.antt =====
-- Echoes are kept from the room, and what is kept as the effect of an apply is close to it: theorems on
-- Content/Suppression.antt.
use bili_sync_play.Prelude.{
  String, arith, dist, false, if◌then◌else◌, ltb, none, some, true, truthy, ℕ, ◌+◌, ◌≡◌, ◌≤◌,
}
use bili_sync_play.Protocol.{PlaybackState}
use bili_sync_play.Content.Guards.{LocalEvent}
use bili_sync_play.Content.Suppression.{
  remember_remote_playback_for_suppression, should_suppress_local_echo,
}

-- What was just applied from the room comes back from the video as an echo: until the memory of it
-- ends, a report of the same page (which is not empty), state and rate, at a position within 0.2 s of
-- it, is suppressed, and
-- from then on nothing is and the memory is dropped.
pub echo_is_suppressed :
    (playback : PlaybackState) (url : String) (t echo_ms transition_ms : ℕ) (event : LocalEvent)
    → truthy (some url) ≡ some url
    → event.normalized_current_url ≡ some url
    → event.play_state ≡ playback.play_state
    → event.playback_rate ≡ playback.playback_rate
    → dist event.current_time playback.current_time ≤ 200
    → let (memory, _) =
        remember_remote_playback_for_suppression playback (some url) t echo_ms transition_ms in
      should_suppress_local_echo memory event
      ≡ (if ltb event.now (t + echo_ms) then (true, memory) else (false, none))
unfolding remember_remote_playback_for_suppression should_suppress_local_echo
echo_is_suppressed playback url t echo_ms transition_ms event u page state rate near = ground arith
