-- ===== src/Content/Suppression.antt =====
-- extension/src/content/sync-guards.ts: which events of the page's video are kept from the room,
-- since they only repeat what was applied from it. A null page is `none`.
use bili_sync_play.Prelude.{
  Bool, Option, String, dist, false, if◌then◌else◌, leb, ltb, none, not, same, same_option, some,
  true, truthy, ℕ, ◌&&◌, ◌+◌, ◌==◌, ◌||◌,
}
use bili_sync_play.Protocol.{
  PlayState, PlaybackState, buffering, is_playing, is_stop_like, paused, playing,
}
use bili_sync_play.Content.Guards.{
  ApplyScope, canplay, play, playing_event, ratechange, stalled, waiting, EventSource,
  ExplicitPlaybackAction, ExplicitUserAction, LocalEvent, ProgrammaticPlaybackSignature,
  RecentRemotePlayingIntent, SuppressedRemotePlayback, all_events, is_programmatic_state_compatible,
  is_recent, is_remote_state_compatible_for_local_echo, map_event_source_to_explicit_action,
  programmatic_event_threshold, ratechange_only, same_kind, seek_action,
}
pub mod Laws

unfoldable pub remember_remote_playback_for_suppression :
    PlaybackState
    → Option String
    → ℕ
    → ℕ
    → ℕ
    → Option SuppressedRemotePlayback × Option RecentRemotePlayingIntent
remember_remote_playback_for_suppression playback normalized_url now echo_ms transition_ms =
    elim (truthy normalized_url) [
      | none ↦ (none, none)
      | some url ↦ (
        some (record {
          until = now + echo_ms;
          url = url;
          play_state = playback.play_state;
          current_time = playback.current_time;
          playback_rate = playback.playback_rate;
        }),
        if is_playing playback.play_state
            then some (record {
              until = now + transition_ms;
              url = url;
              current_time = playback.current_time;
            })
            else none,
      )
    ]

abbrev pub same_rate : ℕ → ℕ → Bool
same_rate a b = leb (dist a b) 10

-- Whether to suppress, and the next `suppressedRemotePlayback`.
unfoldable pub should_suppress_local_echo :
    Option SuppressedRemotePlayback → LocalEvent → Bool × Option SuppressedRemotePlayback
should_suppress_local_echo none event = (false, none)
should_suppress_local_echo (some remote) event =
    if leb remote.until event.now
    then (false, none)
    else if not (
        same_option event.normalized_current_url (some remote.url)
        && is_remote_state_compatible_for_local_echo event.play_state remote.play_state
        && same_rate event.playback_rate remote.playback_rate)
    then (false, some remote)
    else let threshold =
        if is_playing event.play_state && is_playing remote.play_state then 900 else 200 in
      (leb (dist event.current_time remote.current_time) threshold, some remote)

pub record ProgrammaticApply : Type 0 where
  pub until : ℕ
  pub opened_at : ℕ
  pub scope : ApplyScope
  pub signature : Option ProgrammaticPlaybackSignature

-- the action that the event stands for was taken by the user, within the grace and not before `since`
abbrev pub is_own_action : Option ExplicitUserAction → LocalEvent → ℕ → Bool
is_own_action none event since = false
is_own_action (some action) event since =
    elim (map_event_source_to_explicit_action event.event_source) [
      | none ↦ false
      | some kind ↦
          same_kind action.kind kind
          && leb since action.at
          && is_recent event.now action.at event.user_gesture_grace_ms
    ]

abbrev pub is_out_of_scope : ApplyScope → EventSource → Bool
is_out_of_scope ratechange_only ratechange = false
is_out_of_scope ratechange_only source = true
is_out_of_scope all_events source = false

abbrev pub on_page : Option String → String → Bool
on_page current url = same_option (truthy current) (some url)

abbrev pub matches_signature : ProgrammaticPlaybackSignature → LocalEvent → Bool
matches_signature signature event =
    is_programmatic_state_compatible event.play_state signature.play_state
    && same_rate event.playback_rate signature.playback_rate
    && leb (dist event.current_time signature.current_time)
        (programmatic_event_threshold event.event_source event.play_state)

-- Whether to suppress, the next `programmaticApplyUntil` and the next signature.
unfoldable pub should_suppress_programmatic_event :
    ProgrammaticApply
    → Option ExplicitUserAction
    → LocalEvent
    → Bool × ℕ × Option ProgrammaticPlaybackSignature
should_suppress_programmatic_event apply action event = elim apply.signature [
  | none ↦ (false, 0, none)
  | some signature ↦
      if leb apply.until event.now
      then (false, 0, none)
      else if not (on_page event.normalized_current_url signature.url)
      then (false, apply.until, some signature)
      else if is_out_of_scope apply.scope event.event_source
      then (false, apply.until, some signature)
      else if is_own_action action event apply.opened_at
      then (false, apply.until, some signature)
      else (matches_signature signature event, apply.until, some signature)
]

abbrev pub is_stall : EventSource → Bool
is_stall waiting = true
is_stall stalled = true
is_stall _ = false

abbrev pub starts_playback : EventSource → Bool
starts_playback play = true
starts_playback playing_event = true
starts_playback canplay = true
starts_playback _ = false

abbrev pub has_recent_explicit_seek : Option ExplicitUserAction → LocalEvent → Bool
has_recent_explicit_seek none event = false
has_recent_explicit_seek (some action) event =
    same_kind action.kind seek_action && is_recent event.now action.at event.user_gesture_grace_ms

-- the branches of `shouldSuppressRemoteFollowupBroadcast` inside the window, on its page
unfoldable pub suppress_followup_inside :
    ℕ → String → Option ExplicitUserAction → LocalEvent → PlayState → Bool × ℕ × Option String
suppress_followup_inside until url action event paused = (false, 0, none)
suppress_followup_inside until url action event buffering =
    (is_stall event.event_source, until, some url)
suppress_followup_inside until url action event playing = (
  not (
      is_own_action action event 0
      || (has_recent_explicit_seek action event && starts_playback event.event_source)),
  until,
  some url,
)

-- Whether to suppress, the next `remoteFollowPlayingUntil` and the next `remoteFollowPlayingUrl`.
unfoldable pub should_suppress_remote_followup_broadcast :
    ℕ → Option String → Option ExplicitUserAction → LocalEvent → Bool × ℕ × Option String
unfolding suppress_followup_inside
should_suppress_remote_followup_broadcast until follow_url action event = elim (truthy follow_url) [
  | none ↦ (false, 0, none)
  | some url ↦
      if until == 0 || leb until event.now || not (on_page event.normalized_current_url url)
      then (false, 0, none)
      else suppress_followup_inside until url action event event.play_state
]

abbrev pub is_paused : PlayState → Bool
is_paused paused = true
is_paused _ = false

abbrev pub is_suppressed_pause : Option SuppressedRemotePlayback → String → Bool
is_suppressed_pause none url = false
is_suppressed_pause (some remote) url = same url remote.url && is_paused remote.play_state

abbrev pub is_elsewhere : Option String → String → Bool
is_elsewhere active_shared_url url = elim (truthy active_shared_url) [
  | none ↦ false
  | some shared ↦ not (same url shared)
]

-- `pause_hold_until`, the room's page, the state intended for the video, what was applied last
unfoldable pub has_recent_remote_stop_intent :
    ℕ → Option String → PlayState → Option SuppressedRemotePlayback → LocalEvent → Bool
has_recent_remote_stop_intent pause_hold_until active_shared_url intended remote event =
    elim (truthy event.normalized_current_url) [
      | none ↦ false
      | some url ↦
          ltb event.now pause_hold_until
          && not (is_elsewhere active_shared_url url)
          && (is_paused intended || is_suppressed_pause remote url)
    ]

abbrev pub has_recent_explicit_pause : Option ExplicitPlaybackAction → LocalEvent → Bool
has_recent_explicit_pause none event = false
has_recent_explicit_pause (some action) event =
    not action.starts
    && is_paused event.play_state
    && is_recent event.now action.at event.user_gesture_grace_ms

-- Whether to suppress, and the next `recentRemotePlayingIntent`.
unfoldable pub should_suppress_remote_play_transition :
    Option RecentRemotePlayingIntent
    → Option ExplicitPlaybackAction
    → LocalEvent
    → Bool × Option RecentRemotePlayingIntent
should_suppress_remote_play_transition none action event = (false, none)
should_suppress_remote_play_transition (some intent) action event =
    if leb intent.until event.now
    then (false, none)
    else if not (same_option event.normalized_current_url (some intent.url))
        || is_playing event.play_state
    then (false, some intent)
    else if has_recent_explicit_pause action event
    then (false, some intent)
    else (leb (dist event.current_time intent.current_time) 1500, some intent)

unfoldable pub should_apply_self_playback : Bool → ℕ → ℕ → PlaybackState → Bool
should_apply_self_playback video_paused time rate playback =
    if is_stop_like playback.play_state && not video_paused
    then true
    else if is_playing playback.play_state && video_paused
    then true
    else ltb 600 (dist time playback.current_time) || not (same_rate rate playback.playback_rate)
