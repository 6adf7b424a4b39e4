-- ===== src/Content/Apply.antt =====
-- extension/src/content/playback-apply.ts: whether a state of the room is applied to the page's
-- video. The parameter `has_stable_shared_video_identity` is the function of that name in
-- video-identity.ts, which rests on the platform's regular expressions. The versions that are kept per
-- actor are those of room-state-apply-controller.ts, applyRoomState.
use bili_sync_play.Prelude.{
  Bool, List, Option, String, [], false, if◌then◌else◌, is_some, leb, ltb, none, not, same,
  same_option, some, truthy, ℕ, ◌&&◌, ◌+◌, ◌==◌, ◌||◌, ◌∷◌,
}
use bili_sync_play.Prelude.Dict
use bili_sync_play.Prelude.Dict.{Dict}
use bili_sync_play.Protocol.{
  PlayState, PlaybackState, RoomState, SharedVideo, is_playing, is_stop_like,
}
pub mod Laws

pub record PlaybackVersion : Type 0 where
  pub server_time : ℕ
  pub seq : ℕ

pub record PlaybackApplyDecisionInput : Type 0 where
  pub room_state : RoomState
  pub current_video : Option SharedVideo
  pub normalized_shared_url : Option String
  pub normalized_current_url : Option String
  pub normalized_playback_url : Option String
  pub pending_room_state_hydration : Bool
  pub now : ℕ
  pub last_local_intent_at : ℕ
  pub last_local_intent_play_state : Option PlayState
  pub local_intent_guard_ms : ℕ
  pub last_applied_version : Option PlaybackVersion
  pub last_local_playback_version : Option PlaybackVersion
  pub local_member_id : Option String

pub data PlaybackApplyDecision : Type 0 where
  empty_room : Bool → PlaybackApplyDecision
  no_current_video : PlaybackApplyDecision
  -- `acceptedHydration` and `shouldPauseNonSharedVideo`
  ignore_non_shared : Bool → Bool → PlaybackApplyDecision
  ignore_local_guard ignore_stale_playback ignore_self_playback_version : PlaybackApplyDecision
  -- `isSelfPlayback` and `playback`
  apply : Bool → PlaybackState → PlaybackApplyDecision

abbrev pub is_guarded_intent : Option PlayState → Bool
is_guarded_intent none = false
is_guarded_intent (some state) = is_stop_like state

-- What is kept of a playback that was applied.
abbrev pub version_of : PlaybackState → PlaybackVersion
version_of playback = record { server_time = playback.server_time; seq = playback.seq }

-- `lastAppliedVersionByActor.get(state.playback.actorId) ?? null`
abbrev pub last_applied_for : Dict PlaybackVersion → RoomState → Option PlaybackVersion
last_applied_for versions state = elim state.playback [
  | none ↦ none
  | some playback ↦ Dict.get playback.actor_id versions
]

-- a frame that is not newer than the version applied last
abbrev pub is_stale : Option PlaybackVersion → PlaybackState → Bool
is_stale none playback = false
is_stale (some last) playback =
    ltb playback.server_time last.server_time
    || (playback.server_time == last.server_time && leb playback.seq last.seq)

abbrev pub is_own : Option String → PlaybackState → Bool
is_own local_member_id playback = same_option (truthy local_member_id) (some playback.actor_id)

abbrev pub is_not_newer : Option PlaybackVersion → PlaybackState → Bool
is_not_newer none playback = false
is_not_newer (some last) playback = leb playback.seq last.seq

abbrev pub is_on_shared_page : PlaybackApplyDecisionInput → Bool
is_on_shared_page input = elim (truthy input.normalized_shared_url) [
  | none ↦ false
  | some url ↦
      same_option input.normalized_current_url (some url)
      && same_option input.normalized_playback_url (some url)
]

-- the tests that follow once the page shows the room's video
unfoldable pub decide_on_shared_page :
    PlaybackApplyDecisionInput → PlaybackState → PlaybackApplyDecision
decide_on_shared_page input playback =
    if is_guarded_intent input.last_local_intent_play_state
      && ltb input.now (input.last_local_intent_at + input.local_intent_guard_ms)
      && is_playing playback.play_state
    then ignore_local_guard
    else if is_stale input.last_applied_version playback
    then ignore_stale_playback
    else if is_own input.local_member_id playback
        && is_not_newer input.last_local_playback_version playback
    then ignore_self_playback_version
    else apply (is_own input.local_member_id playback) playback

-- `lastAppliedVersionByActor.set`, and what is let through to the page's
-- video: a playback goes through unless one of the other
-- tests of applyRoomState stops it.
abbrev pub keep_version :
    Dict PlaybackVersion
    → Bool
    → PlaybackApplyDecision
    → Dict PlaybackVersion × Option PlaybackState
keep_version versions goes_through (apply own playback) =
    if goes_through
    then (Dict.put playback.actor_id (version_of playback) versions, some playback)
    else (versions, none)
keep_version versions goes_through (empty_room hydrated) = (versions, none)
keep_version versions goes_through no_current_video = (versions, none)
keep_version versions goes_through (ignore_non_shared hydrated pauses) = (versions, none)
keep_version versions goes_through ignore_local_guard = (versions, none)
keep_version versions goes_through ignore_stale_playback = (versions, none)
keep_version versions goes_through ignore_self_playback_version = (versions, none)

abbrev pub with_applied : Option PlaybackState → List PlaybackState → List PlaybackState
with_applied none rest = rest
with_applied (some playback) rest = playback ∷ rest

module _ (has_stable_shared_video_identity : SharedVideo → Bool) where
  unfoldable pub is_confirmed_different_shared_video :
      SharedVideo → SharedVideo → Option String → Option String → Bool
  is_confirmed_different_shared_video current shared current_url shared_url =
      not (same current.video_id shared.video_id)
      && has_stable_shared_video_identity current
      && has_stable_shared_video_identity shared
      && is_some (truthy current_url)
      && is_some (truthy shared_url)
      && not (same_option current_url shared_url)

  unfoldable pub decide_playback_application : PlaybackApplyDecisionInput → PlaybackApplyDecision
  decide_playback_application input = elim input.room_state.shared_video [
    | none ↦ empty_room input.pending_room_state_hydration
    | some shared ↦ elim input.room_state.playback [
      | none ↦ empty_room input.pending_room_state_hydration
      | some playback ↦ elim input.current_video [
        | none ↦ no_current_video
        | some video ↦
            if is_on_shared_page input
            then decide_on_shared_page input playback
            else ignore_non_shared input.pending_room_state_hydration (
                input.pending_room_state_hydration
                && is_stop_like playback.play_state
                && not (
                    is_confirmed_different_shared_video video shared input.normalized_current_url
                      input.normalized_shared_url))
      ]
    ]
  ]

  -- The decision is taken with the version that was kept for the playback's own actor.
  unfoldable pub apply_room_state :
      Dict PlaybackVersion
      → PlaybackApplyDecisionInput
      → Bool
      → Dict PlaybackVersion × Option PlaybackState
  apply_room_state versions input goes_through = keep_version versions goes_through (
      decide_playback_application
        (record input { last_applied_version = last_applied_for versions input.room_state }))

  -- The room states that come in one after the other, and the playbacks that are let through, in order.
  unfoldable pub applied_run :
      Dict PlaybackVersion → List (PlaybackApplyDecisionInput × Bool) → List PlaybackState
  applied_run versions [] = []
  applied_run versions ((input, goes_through) ∷ states) =
      let (next, applied) = apply_room_state versions input goes_through in
      with_applied applied (applied_run next states)
