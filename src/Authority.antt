-- ===== src/Authority.antt =====
-- server/src/playback-authority.ts: whether the server takes a playback update, given the playback
-- that the room holds and the member who has the authority window.
use bili_sync_play.Prelude.{
  ℕ, ◌+◌, String, Bool, true, false, not, ◌&&◌, ◌||◌, Option, none, some, ltb, leb, dist, same,
  if◌then◌else◌,
}
use bili_sync_play.Protocol.{PlaybackState, is_playing, is_stop_like, is_explicit_control}
pub mod Laws
pub mod Window

pub data AuthorityKind : Type 0 where
  share play pause seek ratechange : AuthorityKind

pub data AuthoritySource : Type 0 where
  video_share playback_update : AuthoritySource

pub record PlaybackAuthority : Type 0 where
  pub actor_id : String
  pub until : ℕ
  pub kind : AuthorityKind
  pub source : AuthoritySource

pub data AcceptReason : Type 0 where
  same_actor no_current by_default : AcceptReason

-- `ignore_as_follow` is for the reason "authority-window-follow", `ignore_stale_like` for
-- "timeline-regression".
pub data Acceptance : Type 0 where
  accept : AcceptReason → Acceptance
  ignore_as_follow ignore_stale_like : Acceptance

abbrev pub is_accept : Acceptance → Bool
is_accept (accept _) = true
is_accept _ = false

abbrev pub kind_prefers_continuity : AuthorityKind → Bool
kind_prefers_continuity pause = false
kind_prefers_continuity _ = true

abbrev pub within_authority_window : Option PlaybackAuthority → ℕ → Bool
within_authority_window none t = false
within_authority_window (some a) t = ltb t a.until

abbrev pub prefers_continuity : Option PlaybackAuthority → Bool
prefers_continuity none = false
prefers_continuity (some a) = kind_prefers_continuity a.kind

abbrev pub owns_current : Option PlaybackAuthority → PlaybackState → Bool
owns_current none cur = false
owns_current (some a) cur = same cur.actor_id a.actor_id && is_playing cur.play_state

-- `authority.actorId !== incoming.actorId`; it is only read inside the window
abbrev pub held_by_other : Option PlaybackAuthority → PlaybackState → Bool
held_by_other none inc = false
held_by_other (some a) inc = not (same a.actor_id inc.actor_id)

-- what the three tests of `decidePlaybackAcceptance` share: an ordinary update inside another
-- member's window
abbrev pub is_vetoable : Option PlaybackAuthority → PlaybackState → ℕ → Bool
is_vetoable authority inc t =
    not (is_explicit_control inc.sync_intent)
    && within_authority_window authority t
    && held_by_other authority inc

abbrev pub close_in_timeline : PlaybackState → PlaybackState → Bool
close_in_timeline cur inc = ltb (dist inc.current_time cur.current_time) 1200

abbrev pub follows_while_playing :
    PlaybackState → Option PlaybackAuthority → PlaybackState → ℕ → Bool
follows_while_playing cur authority inc t =
    is_vetoable authority inc t
    && is_playing inc.play_state
    && (is_stop_like cur.play_state
        || close_in_timeline cur inc
        || (prefers_continuity authority && owns_current authority cur))

abbrev pub follows_while_stopping :
    PlaybackState → Option PlaybackAuthority → PlaybackState → ℕ → Bool
follows_while_stopping cur authority inc t =
    is_vetoable authority inc t
    && prefers_continuity authority
    && is_stop_like inc.play_state
    && not (is_stop_like cur.play_state)
    && close_in_timeline cur inc
    && leb inc.current_time (cur.current_time + 150)

abbrev pub regresses : PlaybackState → PlaybackState → Bool
regresses cur inc =
    not (is_explicit_control inc.sync_intent)
    && is_playing inc.play_state
    && ltb (inc.current_time + 600) cur.current_time

unfoldable pub decide_playback_acceptance :
    Option PlaybackState → Option PlaybackAuthority → PlaybackState → ℕ → Acceptance
decide_playback_acceptance none authority inc t = accept no_current
decide_playback_acceptance (some cur) authority inc t =
    if same cur.actor_id inc.actor_id
    then accept same_actor
    else if follows_while_playing cur authority inc t
    then ignore_as_follow
    else if follows_while_stopping cur authority inc t
    then ignore_as_follow
    else if regresses cur inc
    then ignore_stale_like
    else accept by_default
