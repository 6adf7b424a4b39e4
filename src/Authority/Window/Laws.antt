-- ===== src/Authority/Window/Laws.antt =====
-- How long an authority window lasts, and that the sweep is not seen: theorems on
-- Authority/Window.antt.
use bili_sync_play.Prelude.{
  Option, String, arith, dist, if◌then◌else◌, ltb, none, some, ℕ, ◌+◌, ◌<◌, ◌↔◌, ◌≡◌, ◌≢◌, ◌≤◌,
}
use bili_sync_play.Prelude.Dict
use bili_sync_play.Prelude.Dict.{Dict}
use bili_sync_play.Protocol.{PlaybackState, explicit_seek, playing}
use bili_sync_play.Authority.{AuthorityKind, AuthoritySource, PlaybackAuthority}
use bili_sync_play.Authority.Window.{
  Authorities, derive_playback_authority_kind, get_playback_authority, record_playback_authority,
  sweep_expired_playback_authorities,
}

-- What a reader is told of a room at time `t`.
abbrev pub live_authority : ℕ → String → Authorities → Option PlaybackAuthority
live_authority t code s = (get_playback_authority t code s).1

-- A recorded window is read until 1.2 s after it was stamped, and not from then on.
pub record-live_authority :
    (t t' now : ℕ) (code actor : String) (kind : AuthorityKind) (source : AuthoritySource)
    (s : Authorities)
    → live_authority now code (record_playback_authority t t' code actor kind source s) ≡ (
        if ltb now (t' + 1200)
        then some (record { actor_id = actor; until = t' + 1200; kind = kind; source = source })
        else none)
unfolding get_playback_authority record_playback_authority
record-live_authority t t' now code actor kind source s = ground (
  arith,
  Dict.get-put_self code
      (record { actor_id = actor; until = t' + 1200; kind = kind; source = source })
      (sweep_expired_playback_authorities t s).by_room,
)

-- Sweeping drops only what nobody can read any more.
sweep-live_authority :
    (t now : ℕ) (code : String) (s : Authorities)
    → t ≤ now
    → Dict.IsDistinct s.by_room
    → live_authority now code (sweep_expired_playback_authorities t s) ≡ live_authority now code s
unfolding get_playback_authority sweep_expired_playback_authorities
sweep-live_authority t now code s h d =
    ground (arith, Dict.get-keep_values (λ (a : PlaybackAuthority). ltb t a.until) code s.by_room d)

-- Recording a window for one room, sweep included, changes nothing that a reader of another room
-- is told from then on; the rooms of the map are distinct.
pub record-live_authority_ne :
    (t t' now : ℕ) (code other actor : String) (kind : AuthorityKind) (source : AuthoritySource)
    (s : Authorities)
    → code ≢ other
    → t ≤ now
    → Dict.IsDistinct s.by_room
    → live_authority now other (record_playback_authority t t' code actor kind source s)
      ≡ live_authority now other s
unfolding get_playback_authority record_playback_authority
record-live_authority_ne t t' now code other actor kind source s ne h d = ground (
  arith,
  sweep-live_authority t now other s h d,
  Dict.get-put_ne code other
      (record { actor_id = actor; until = t' + 1200; kind = kind; source = source })
      (sweep_expired_playback_authorities t s).by_room ne,
)

-- A frame of a playing room claims no window exactly when it still plays, carries no explicit
-- seek, keeps the rate within 0.01 and lies less than 2.5 s from where the room is.
pub derive-eq-none_iff :
    (cur next : PlaybackState)
    → cur.play_state ≡ playing
    → (derive_playback_authority_kind (some cur) next ≡ none) ↔ (
        (next.play_state ≡ playing)
        × (next.sync_intent ≢ some explicit_seek)
        × (dist next.playback_rate cur.playback_rate ≤ 10)
        × (dist next.current_time cur.current_time < 2500))
unfolding derive_playback_authority_kind
derive-eq-none_iff cur next p =
    (λ h. (ground arith, λ e. ground arith, ground arith, ground arith), λ h. ground arith)
