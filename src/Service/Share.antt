-- ===== src/Service/Share.antt =====
-- server/src/room-service.ts, shareVideoForSession: a member shares a video. The in-memory stores
-- answer every call, so that a claimed slot is given back after a refusal or after the retries.
use bili_sync_play.Prelude.{Option, String, [], if◌then◌else◌, none, some, ℕ, ◌+◌, ◌∷◌}
use bili_sync_play.Prelude.Text.{concat, decimal}
use bili_sync_play.Protocol.{PlaybackState, SharedVideo, paused}
use bili_sync_play.Authority.{share, video_share}
use bili_sync_play.Authority.Window.{record_playback_authority}
use bili_sync_play.Session.{Session, member_or_id}
use bili_sync_play.RoomStore.{
  PersistedRoom, at_version, empty_patch, not_found, update_room, updated, version_conflict,
}
use bili_sync_play.Runtime.Slots.{try_claim_message_slot}
use bili_sync_play.Service.State.{Env, Result, Service, err, internal_error, later, ok, with_rooms}
use bili_sync_play.Service.Resolve.{max_version_retries, with_version_retry}
use bili_sync_play.Service.Access.{require_joined_room_session}
use bili_sync_play.Service.Playback.{release, with_authorities, with_slots}
pub mod Laws

-- `playback?.seq ?? 0`
abbrev pub seq_of : Option PlaybackState → ℕ
seq_of none = 0
seq_of (some playback) = playback.seq

unfoldable pub share_dedup_key : Session → SharedVideo → Option PlaybackState → String
share_dedup_key session video playback =
    concat
      ("share:" ∷ member_or_id session ∷ ":" ∷ video.url ∷ ":" ∷ decimal (seq_of playback) ∷ [])

-- The playback that comes with the video: the sharer's, or a stop at its beginning.
unfoldable pub shared_playback : ℕ → Session → SharedVideo → Option PlaybackState → PlaybackState
shared_playback t session video (some playback) = record playback {
  url = video.url;
  sync_intent = none;
  actor_id = member_or_id session;
  server_time = t;
}
shared_playback t session video none = record {
  url = video.url;
  current_time = 0;
  play_state = paused;
  sync_intent = none;
  user_initiated = none;
  natural_end = none;
  playback_rate = 1000;
  updated_at = t;
  server_time = t;
  actor_id = member_or_id session;
  seq = 0;
}

abbrev pub attributed : Session → SharedVideo → SharedVideo
attributed session video = record video {
  shared_by_member_id = some (member_or_id session);
  shared_by_display_name = some session.display_name;
}

-- One attempt: the guarded write, and the window that it opens.
unfoldable pub share_attempt :
    ℕ
    → Session
    → SharedVideo
    → Option PlaybackState
    → Env
    → PersistedRoom
    → Service
    → Service × Result (Option PersistedRoom)
share_attempt t session video playback env room before =
    let s = env.others 4 before in
    let (rooms, result) =
      update_room t room.code (at_version room.version)
        (record empty_patch {
          shared_video = some (some (attributed session video));
          playback = some (some (shared_playback t session video playback));
          expires_at = some none;
          last_active_at = some t;
        })
        s.rooms in
    let s' = with_rooms s rooms in
    elim result [
      | updated next ↦ (
        with_authorities s' (
            record_playback_authority (env.at 4) (env.at 5) room.code (member_or_id session) share
              video_share s'.authorities),
        ok (some next),
      )
      | version_conflict ↦ (s', ok none)
      | not_found ↦ (s', ok none)
    ]

unfoldable pub share_after_access :
    Env
    → PersistedRoom
    → Session
    → SharedVideo
    → Option PlaybackState
    → String
    → Service
    → Service × Result PersistedRoom
unfolding share_attempt
share_after_access env room session video playback dedup_token s =
    let t = env.at 4 in
    let key = share_dedup_key session video playback in
    let (slots, claimed) =
      try_claim_message_slot (env.at 5) room.code key dedup_token (t + 5000)
        s.runtime.claimed_slots in
    let (s', answer) =
      with_version_retry max_version_retries (later 10 env) room.code
        (share_attempt t session video playback) (env.others 5 (with_slots s slots)) in
    if claimed
    then elim answer [
      | err e ↦ (release room.code key dedup_token s', err e)
      | ok outcome ↦ elim outcome [
        | none ↦ (release room.code key dedup_token s', err internal_error)
        | some next ↦ (s', ok next)
      ]
    ]
    else (with_slots s slots, ok room)

unfoldable pub share_video_for_session :
    Env
    → Session
    → String
    → SharedVideo
    → Option PlaybackState
    → String
    → Service
    → Service × Session × Result PersistedRoom
share_video_for_session env session member_token video playback dedup_token s =
    let (s', session', access) = require_joined_room_session env session member_token s in
    elim access [
      | err e ↦ (s', session', err e)
      | ok granted ↦
          let (s'', answer) =
            share_after_access env granted.persisted_room session' video playback dedup_token s' in
          (s'', session', answer)
    ]
