-- ===== src/Content/Override.antt =====
-- extension/src/content/pending-local-override.ts: while a seek or a rate that the member has set is on
-- its way, states of the room that would undo it are ignored. `normalize` is normalizeUrl of a text.
use bili_sync_play.Prelude.{
  Bool, Option, String, dist, false, if◌then◌else◌, is_some, leb, ltb, none, not, or_else, same,
  some, true, truthy, ℕ, ◌&&◌, ◌+◌,
}
use bili_sync_play.Protocol.{PlaybackState, is_playing, is_seek_intent}
use bili_sync_play.Content.Guards.{ExplicitUserAction, ratechange_action}
pub mod Laws

abbrev pub pending_local_explicit_seek_guard_ms : ℕ
pending_local_explicit_seek_guard_ms = 5000

abbrev pub pending_local_explicit_seek_settle_threshold : ℕ
pending_local_explicit_seek_settle_threshold = 350

abbrev pub pending_local_explicit_ratechange_guard_ms : ℕ
pending_local_explicit_ratechange_guard_ms = 5000

abbrev pub pending_local_explicit_ratechange_settle_threshold : ℕ
pending_local_explicit_ratechange_settle_threshold = 10

-- The kind with the field that it has: the target time or the rate.
pub data PendingLocalPlaybackOverrideKind : Type 0 where
  seek ratechange : Option ℕ → PendingLocalPlaybackOverrideKind

pub record PendingLocalPlaybackOverride : Type 0 where
  pub kind : PendingLocalPlaybackOverrideKind
  pub url : String
  pub seq : ℕ
  pub expires_at : ℕ

-- The pending override that remains, and whether the playback is ignored.
abbrev pub Decision : Type 0
Decision = Option PendingLocalPlaybackOverride × Bool

unfoldable pub get_pending_local_seek_override_decision :
    PlaybackState → PendingLocalPlaybackOverride → Option ℕ → Decision
get_pending_local_seek_override_decision playback pending none = (some pending, false)
get_pending_local_seek_override_decision playback pending (some target_time) =
    if leb (dist playback.current_time target_time) pending_local_explicit_seek_settle_threshold
    then (none, false)
    else (some pending, true)

unfoldable pub get_pending_local_rate_override_decision :
    PlaybackState → PendingLocalPlaybackOverride → Option ℕ → Decision
get_pending_local_rate_override_decision playback pending none = (some pending, false)
get_pending_local_rate_override_decision playback pending (some playback_rate) =
    if not (is_playing playback.play_state)
    then (some pending, false)
    else if leb (dist playback.playback_rate playback_rate)
        pending_local_explicit_ratechange_settle_threshold
    then (none, false)
    else (some pending, true)

-- The playback is the member's own, and no older than what is pending.
abbrev pub is_self_echo : Option String → PlaybackState → PendingLocalPlaybackOverride → Bool
is_self_echo local_member_id playback pending = elim (truthy local_member_id) [
  | none ↦ false
  | some id ↦ same playback.actor_id id && leb pending.seq playback.seq
]

abbrev pub is_about : (String → Option String) → PlaybackState → String → Bool
is_about normalize playback url = elim (truthy (normalize playback.url)) [
  | none ↦ false
  | some page ↦ same page url
]

unfoldable pub get_pending_local_playback_override_decision :
    (String → Option String)
    → Option String
    → ℕ
    → Option PlaybackState
    → Option PendingLocalPlaybackOverride
    → Decision
unfolding get_pending_local_seek_override_decision get_pending_local_rate_override_decision
get_pending_local_playback_override_decision normalize local_member_id now incoming none =
    (none, false)
get_pending_local_playback_override_decision normalize local_member_id now incoming (some pending) =
    if leb pending.expires_at now then (none, false) else elim incoming [
      | none ↦ (some pending, false)
      | some playback ↦
          if not (is_about normalize playback pending.url)
          then (some pending, false)
          else if is_self_echo local_member_id playback pending
          then (none, false)
          else elim pending.kind [
            | seek target ↦ get_pending_local_seek_override_decision playback pending target
            | ratechange rate ↦ get_pending_local_rate_override_decision playback pending rate
          ]
    ]

abbrev pub has_recent_ratechange : Option ExplicitUserAction → ℕ → ℕ → Bool
has_recent_ratechange none grace_ms now = false
has_recent_ratechange (some action) grace_ms now = elim action.kind [
  | ratechange_action ↦ ltb now (action.at + grace_ms)
  | _ ↦ false
]

unfoldable pub remember_pending_local_playback_override :
    (String → Option String)
    → ℕ
    → Option ExplicitUserAction
    → PlaybackState
    → ℕ
    → Option PendingLocalPlaybackOverride
    → Option PendingLocalPlaybackOverride
remember_pending_local_playback_override normalize grace_ms action payload now pending =
    if is_seek_intent payload.sync_intent
    then some (record {
      kind = seek (some payload.current_time);
      url = or_else (normalize payload.url) payload.url;
      seq = payload.seq;
      expires_at = now + pending_local_explicit_seek_guard_ms;
    })
    else if has_recent_ratechange action grace_ms now
    then some (record {
      kind = ratechange (some payload.playback_rate);
      url = or_else (normalize payload.url) payload.url;
      seq = payload.seq;
      expires_at = now + pending_local_explicit_ratechange_guard_ms;
    })
    else pending
