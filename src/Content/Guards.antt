-- ===== src/Content/Guards.antt =====
-- extension/src/content/sync-guards.ts and the values of runtime-state.ts that it reads: which
-- events of the page's video are the member's own, and which only follow from what was applied.
use bili_sync_play.Prelude.{
  Bool, Option, String, false, if◌then◌else◌, is_some, ltb, none, not, same_option, some, true,
  truthy, ℕ, ◌&&◌, ◌+◌,
}
use bili_sync_play.Protocol.{PlayState, buffering, is_playing, paused, playing, same_play_state}
pub mod Laws

pub data EventSource : Type 0 where
  play pause waiting stalled loadedmetadata canplay playing_event seeking seeked ratechange
        timeupdate manual :
      EventSource

pub data ActionKind : Type 0 where
  play_action pause_action seek_action ratechange_action : ActionKind

pub data ApplyScope : Type 0 where
  all_events ratechange_only : ApplyScope

-- `play_state: "playing" | "paused"`
pub record ExplicitPlaybackAction : Type 0 where
  pub starts : Bool
  pub at : ℕ

pub record ExplicitUserAction : Type 0 where
  pub kind : ActionKind
  pub at : ℕ

pub record SuppressedRemotePlayback : Type 0 where
  pub until : ℕ
  pub url : String
  pub play_state : PlayState
  pub current_time : ℕ
  pub playback_rate : ℕ

pub record RecentRemotePlayingIntent : Type 0 where
  pub until : ℕ
  pub url : String
  pub current_time : ℕ

pub record ProgrammaticPlaybackSignature : Type 0 where
  pub url : String
  pub play_state : PlayState
  pub current_time : ℕ
  pub playback_rate : ℕ

-- What the page shows at an event: the page, the video's state, and the time.
pub record LocalEvent : Type 0 where
  pub normalized_current_url : Option String
  pub play_state : PlayState
  pub current_time : ℕ
  pub playback_rate : ℕ
  pub event_source : EventSource
  pub now : ℕ
  pub user_gesture_grace_ms : ℕ

abbrev pub is_remote_state_compatible_for_local_echo : PlayState → PlayState → Bool
is_remote_state_compatible_for_local_echo buffering playing = true
is_remote_state_compatible_for_local_echo here there = same_play_state here there

abbrev pub is_programmatic_state_compatible : PlayState → PlayState → Bool
is_programmatic_state_compatible buffering playing = true
is_programmatic_state_compatible paused buffering = true
is_programmatic_state_compatible event signature = same_play_state event signature

abbrev pub programmatic_event_threshold : EventSource → PlayState → ℕ
programmatic_event_threshold seeking state = 600
programmatic_event_threshold seeked state = 600
programmatic_event_threshold loadedmetadata state = 600
programmatic_event_threshold canplay state = 600
programmatic_event_threshold timeupdate state = 1000
programmatic_event_threshold ratechange state = 1200
programmatic_event_threshold source state = if is_playing state then 900 else 250

abbrev pub map_event_source_to_explicit_action : EventSource → Option ActionKind
map_event_source_to_explicit_action play = some play_action
map_event_source_to_explicit_action playing_event = some play_action
map_event_source_to_explicit_action pause = some pause_action
map_event_source_to_explicit_action seeking = some seek_action
map_event_source_to_explicit_action seeked = some seek_action
map_event_source_to_explicit_action ratechange = some ratechange_action
map_event_source_to_explicit_action source = none

abbrev pub same_kind : ActionKind → ActionKind → Bool
same_kind play_action play_action = true
same_kind pause_action pause_action = true
same_kind seek_action seek_action = true
same_kind ratechange_action ratechange_action = true
same_kind _ _ = false

unfoldable pub should_force_pause_while_waiting_for_initial_room_state :
    Option String → Bool → Bool → Bool
should_force_pause_while_waiting_for_initial_room_state active_room_code pending_hydration
      video_paused =
    is_some (truthy active_room_code) && pending_hydration && not video_paused

pub record NonSharedPageGuardInput : Type 0 where
  pub active_room_code : Option String
  pub active_shared_url : Option String
  pub normalized_current_url : Option String
  pub video_paused : Bool
  pub explicit_non_shared_playback_url : Option String
  pub last_explicit_playback_action : Option ExplicitPlaybackAction
  pub now : ℕ
  pub user_gesture_grace_ms : ℕ

-- `now - at < grace`, where `at` is not after `now`
abbrev pub is_recent : ℕ → ℕ → ℕ → Bool
is_recent now at grace = ltb now (at + grace)

abbrev pub has_recent_explicit_play : Option ExplicitPlaybackAction → ℕ → ℕ → Bool
has_recent_explicit_play none now grace = false
has_recent_explicit_play (some action) now grace = action.starts && is_recent now action.at grace

-- the page is another one than the room's, at `url`
unfoldable pub guard_other_page : NonSharedPageGuardInput → String → Bool × Option String
guard_other_page input url =
    let explicit = input.explicit_non_shared_playback_url in
    if input.video_paused
    then (true, explicit)
    else if same_option explicit (some url)
    then (false, explicit)
    else if has_recent_explicit_play input.last_explicit_playback_action input.now
        input.user_gesture_grace_ms
    then (false, some url)
    else (true, explicit)

-- Whether to pause, and the next `explicitNonSharedPlaybackUrl`.
unfoldable pub evaluate_non_shared_page_guard : NonSharedPageGuardInput → Bool × Option String
unfolding guard_other_page
evaluate_non_shared_page_guard input =
    if not (is_some (truthy input.active_room_code) && is_some (truthy input.active_shared_url))
    then (false, input.explicit_non_shared_playback_url)
    else elim (truthy input.normalized_current_url) [
      | none ↦ (false, none)
      | some url ↦
          if same_option (some url) input.active_shared_url
          then (false, none)
          else guard_other_page input url
    ]
