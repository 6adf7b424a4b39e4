-- ===== src/Authority/Window.antt =====
-- The authority windows that the room service keeps, one for each room: server/src/room-service.ts,
-- getPlaybackAuthority, derivePlaybackAuthorityKind, sweepExpiredPlaybackAuthorities and
-- recordPlaybackAuthority.
use bili_sync_play.Prelude.{
  Option, String, dist, if◌then◌else◌, leb, ltb, none, not, some, ℕ, ◌&&◌, ◌+◌,
}
use bili_sync_play.Prelude.Dict
use bili_sync_play.Prelude.Dict.{Dict}
use bili_sync_play.Protocol.{PlaybackState, is_playing, is_seek_intent, is_stop_like}
use bili_sync_play.Authority.{
  AuthorityKind, AuthoritySource, PlaybackAuthority, pause, play, ratechange, seek,
}
pub mod Laws

abbrev pub playback_authority_window_ms : ℕ
playback_authority_window_ms = 1200

abbrev pub playback_authority_sweep_interval_ms : ℕ
playback_authority_sweep_interval_ms = 60000

pub record Authorities : Type 0 where
  pub by_room : Dict PlaybackAuthority
  pub last_sweep_at : ℕ

-- `t` is the reading of the clock
unfoldable pub get_playback_authority :
    ℕ → String → Authorities → Authorities × Option PlaybackAuthority
get_playback_authority t code s = elim (Dict.get code s.by_room) [
  | none ↦ (s, none)
  | some a ↦
      if leb a.until t
      then (record s { by_room = Dict.remove code s.by_room }, none)
      else (s, some a)
]

unfoldable pub derive_playback_authority_kind :
    Option PlaybackState → PlaybackState → Option AuthorityKind
derive_playback_authority_kind none next = some play
derive_playback_authority_kind (some cur) next =
    if is_stop_like next.play_state
    then some pause
    else if ltb 10 (dist next.playback_rate cur.playback_rate)
    then some ratechange
    else if is_seek_intent next.sync_intent && is_playing next.play_state
    then some seek
    else if leb 2500 (dist next.current_time cur.current_time)
    then some seek
    else if not (is_playing cur.play_state) && is_playing next.play_state
    then some play
    else none

-- `currentTime - last < interval` on signed numbers
unfoldable pub sweep_expired_playback_authorities : ℕ → Authorities → Authorities
sweep_expired_playback_authorities t s =
    if ltb t (s.last_sweep_at + playback_authority_sweep_interval_ms)
    then s
    else record { by_room = Dict.keep_values (λ a. ltb t a.until) s.by_room; last_sweep_at = t }

-- The two readings of the clock, in the order of the calls.
unfoldable pub record_playback_authority :
    ℕ → ℕ → String → String → AuthorityKind → AuthoritySource → Authorities → Authorities
unfolding sweep_expired_playback_authorities
record_playback_authority t t' code actor kind source s =
    let swept = sweep_expired_playback_authorities t s in
    record swept {
      by_room =
          Dict.put code
            (record {
              actor_id = actor;
              until = t' + playback_authority_window_ms;
              kind = kind;
              source = source;
            })
            swept.by_room;
    }
