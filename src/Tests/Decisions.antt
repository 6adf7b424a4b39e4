-- ===== src/Tests/Decisions.antt =====
-- Decisions of the server and of the page, at concrete inputs.
use bili_sync_play.Prelude.{
  String, [], any, arith, dist, false, if◌then◌else◌, ltb, ne_of_test, none, refl, some, true, ◌*◌,
  ◌+◌, ◌-◌, ◌<◌, ◌∷◌, ◌≡◌, ◌≢◌, ◌≤◌,
}
use bili_sync_play.Prelude.Tests.{text_discrete}
use mathlib.Core.List.{Memᴰ}
use bili_sync_play.Prelude.Dict
use bili_sync_play.Protocol.{PlaybackState, RoomState, SharedVideo, paused, playing}
use bili_sync_play.Authority.{
  PlaybackAuthority, decide_playback_acceptance, pause, play, playback_update,
}
use bili_sync_play.Authority.Laws.{stop_ignored}
use bili_sync_play.RateLimit.{create_token_bucket, create_window_counter}
use bili_sync_play.RateLimit.Laws.{
  admitted_by_bucket, admitted_by_bucket-le, admitted_by_window, admitted_by_window-le,
}
use bili_sync_play.Owner.{Candidate, resolve_shared_video_owner_id}
use bili_sync_play.Owner.Laws.{IsLongest, resolve_elected}
use bili_sync_play.RoomStore.View.{room_state_from_sessions}
use bili_sync_play.RoomStore.View.Laws.{
  IsShownAs, lists_member, room_state-members, room_state-owner_listed, speaks_for,
}
use bili_sync_play.Content.Guards.{pause as pause_event_source, LocalEvent, all_events}
use bili_sync_play.Content.Suppression.{
  ProgrammaticApply, remember_remote_playback_for_suppression, should_suppress_local_echo,
}
use bili_sync_play.Content.Suppression.Laws.{echo_is_suppressed}
use bili_sync_play.Content.Reconcile.{decide_playback_reconcile_mode}
use bili_sync_play.Content.Reconcile.Laws.{correction_grows_with_drift, strength}
use bili_sync_play.Content.Apply.{PlaybackApplyDecisionInput, applied_run}
use bili_sync_play.Content.Apply.Laws.{IsForward, applied_run-IsForward, by_actor}
use bili_sync_play.Tests.Values.{frame, room, session_of, video}

abbrev window : PlaybackAuthority
window = record { actor_id = "a"; until = 2200; kind = play; source = playback_update }

abbrev pause_frame : PlaybackState
pause_frame = record frame { actor_id = "b"; play_state = paused; current_time = 5100 }

stop_ignored_example :
    (frame.play_state ≡ playing)
    × (dist 5100 5000 < 1200)
    × (5100 ≤ 5000 + 150)
    × ((w : PlaybackAuthority) × (some window ≡ some w) × (w.kind ≢ pause))
unfolding decide_playback_acceptance text_discrete
stop_ignored_example = stop_ignored frame (some window) pause_frame 1500 refl refl

admitted_by_window-le_example :
    admitted_by_window 2 1000 (create_window_counter 0) (500 ∷ 600 ∷ 700 ∷ []) ≤ 2 * 2
admitted_by_window-le_example =
    admitted_by_window-le 2 1000 500 (create_window_counter 0) (500 ∷ 600 ∷ 700 ∷ []) (ground arith)

admitted_by_bucket-le_example :
    1000 * admitted_by_bucket 2 3 (create_token_bucket 3 0) (500 ∷ 600 ∷ [])
    ≤ 1000 * 3 + (600 - 0) * 2
admitted_by_bucket-le_example =
    admitted_by_bucket-le 2 3 600 (create_token_bucket 3 0) (500 ∷ 600 ∷ [])
      (ground arith, (ground arith, ground arith))

abbrev early : Candidate
early = record { id = "b"; joined_at = some 10 }

abbrev late : Candidate
late = record { id = "c"; joined_at = some 20 }

resolve_elected_example :
    (c : Candidate) × (resolve_shared_video_owner_id (some "a") (late ∷ early ∷ []) ≡ some c.id)
    × Memᴰ c (late ∷ early ∷ [])
    × IsLongest c (late ∷ early ∷ [])
unfolding text_discrete
resolve_elected_example = resolve_elected "a" (ne_of_test "a" "" refl) late (early ∷ []) refl

room_state-members_example :
    lists_member "a" (room_state_from_sessions room (session_of "a" ∷ [])).members
    ≡ any (speaks_for "R" "a") (session_of "a" ∷ [])
room_state-members_example = room_state-members room (session_of "a" ∷ []) "a"

room_state-owner_listed_example :
    let state = room_state_from_sessions room (session_of "b" ∷ []) in
    (v : SharedVideo) × (o : String) × (state.shared_video ≡ some v)
    × (v.url ≡ "u")
    × (v.shared_by_member_id ≡ some o)
    × (lists_member o state.members ≡ true)
    × IsShownAs video v "a" o state.members
unfolding text_discrete
room_state-owner_listed_example =
    room_state-owner_listed room (session_of "b" ∷ []) video "a" (session_of "b") refl refl
      (ne_of_test "a" "" refl) (Memᴰ.head refl) refl refl

abbrev pause_event : LocalEvent
pause_event = record {
  normalized_current_url = some "u";
  play_state = paused;
  current_time = 5100;
  playback_rate = 1000;
  event_source = pause_event_source;
  now = 1100;
  user_gesture_grace_ms = 1200;
}

abbrev applying : ProgrammaticApply
applying = record {
  until = 1700;
  opened_at = 1000;
  scope = all_events;
  signature =
      some (record { url = "u"; play_state = paused; current_time = 5000; playback_rate = 1000 });
}

echo_is_suppressed_example :
    let (memory, _) =
      remember_remote_playback_for_suppression
        (record frame { play_state = paused })
        (some "u")
        1000
        700
        1800 in
    should_suppress_local_echo memory pause_event
    ≡ (if ltb 1100 (1000 + 700) then (true, memory) else (false, none))
unfolding text_discrete
echo_is_suppressed_example =
    echo_is_suppressed (record frame { play_state = paused }) "u" 1000 700 1800 pause_event refl
      refl refl refl (ground arith)

correction_grows_with_drift_example :
    strength (decide_playback_reconcile_mode 5000 5500 playing false none true).mode
    ≤ strength (decide_playback_reconcile_mode 4000 5500 playing false none true).mode
correction_grows_with_drift_example =
    correction_grows_with_drift 5000 4000 5500 false none true (ground arith)

abbrev state : RoomState
state = record { room_code = "R"; shared_video = some video; playback = some frame; members = [] }

abbrev input : PlaybackApplyDecisionInput
input = record {
  room_state = state;
  current_video = some video;
  normalized_shared_url = some "u";
  normalized_current_url = some "u";
  normalized_playback_url = some "u";
  pending_room_state_hydration = false;
  now = 5000;
  last_local_intent_at = 0;
  last_local_intent_play_state = none;
  local_intent_guard_ms = 1200;
  last_applied_version = some (record { server_time = 900; seq = 7 });
  last_local_playback_version = none;
  local_member_id = some "b";
}

abbrev behind : PlaybackApplyDecisionInput
behind = record input {
  room_state = record state { playback = some (record frame { server_time = 950; seq = 9 }) };
}

applied_run-IsForward_example :
    IsForward (Dict.get "a" (("a", record { server_time = 900; seq = 7 }) ∷ [])) (
      by_actor "a" (
        applied_run
          (λ _. true)
          (("a", record { server_time = 900; seq = 7 }) ∷ [])
          ((input, true) ∷ (behind, true) ∷ [])))
applied_run-IsForward_example =
    applied_run-IsForward (λ _. true) "a" (("a", record { server_time = 900; seq = 7 }) ∷ [])
      ((input, true) ∷ (behind, true) ∷ [])
