-- ===== src/Service/Playback.antt =====
-- server/src/room-service.ts, updatePlaybackForSession: a playback frame from a member. The parameter
-- `normalize` is normalizeBilibiliUrl of packages/protocol/src/video-ref.ts, which rests on the
-- platform's URL parser; `dedup_token` is the random token of the claim.
use bili_sync_play.Prelude.{
  Bool, Option, String, [], dist, false, if◌then◌else◌, ltb, none, same, some, true, truthy, ℕ,
  ◌&&◌, ◌*◌, ◌+◌, ◌∷◌,
}
use bili_sync_play.Prelude.Dict
use bili_sync_play.Prelude.Text.{concat, decimal}
use bili_sync_play.Protocol.{PlaybackState, SyncIntent, is_playing, same_play_state}
use bili_sync_play.Authority.{AuthorityKind, decide_playback_acceptance, is_accept, playback_update}
use bili_sync_play.Authority.Window.{
  Authorities, derive_playback_authority_kind, get_playback_authority, record_playback_authority,
}
use bili_sync_play.Session.{Session, member_or_id}
use bili_sync_play.RoomStore.{
  PersistedRoom, at_version, empty_patch, not_found, update_room, updated, version_conflict,
}
use bili_sync_play.Runtime.Slots.{Slots, release_message_slot, try_claim_message_slot}
use bili_sync_play.Runtime.Store as Live
use bili_sync_play.Service.State.{
  Env, Result, Service, err, invalid_message, ok, room_not_found, with_rooms,
}
use bili_sync_play.Service.Access.{require_joined_room_session}
pub mod Laws
pub mod Stale

-- What is answered: the room, or null, and whether the frame was ignored.
pub record PlaybackAnswer : Type 0 where
  pub room : Option PersistedRoom
  pub ignored : Bool

abbrev pub with_slots : Service → Slots → Service
with_slots s slots = record s { runtime = record (s.runtime) { claimed_slots = slots } }

abbrev pub with_authorities : Service → Authorities → Service
with_authorities s authorities = record s { authorities = authorities }

unfoldable pub playback_dedup_key : Session → PlaybackState → String
playback_dedup_key session playback =
    concat ("playback:" ∷ member_or_id session ∷ ":" ∷ session.id ∷ ":" ∷ decimal playback.seq ∷ [])

-- The frame as it is stored: the sender and the time are the server's.
abbrev pub stamp : ℕ → Session → PlaybackState → PlaybackState
stamp t session playback = record playback { actor_id = member_or_id session; server_time = t }

-- |1000 (next - previous) - rate * elapsed| < 1 s, in thousandths of a millisecond, over signed
-- differences
abbrev pub advances_naturally : PlaybackState → PlaybackState → Bool
advances_naturally prev next =
    if is_playing prev.play_state
    then ltb
        (dist (1000 * next.current_time + prev.playback_rate * prev.server_time)
          (1000 * prev.current_time + prev.playback_rate * next.server_time))
        1000000
    else ltb (dist next.current_time prev.current_time) 1000

abbrev pub is_none : Option SyncIntent → Bool
is_none none = true
is_none (some _) = false

unfoldable pub is_steady_tick : Option PlaybackState → PlaybackState → Bool
is_steady_tick none next = false
is_steady_tick (some prev) next =
    same_play_state prev.play_state next.play_state
    && ltb (dist prev.playback_rate next.playback_rate) 10
    && is_none next.sync_intent
    && advances_naturally prev next

-- Only a frame that changes something claims the window.
unfoldable pub claim_window :
    Env → String → Option AuthorityKind → Bool → PlaybackState → Authorities → Authorities
claim_window env code kind steady next authorities = elim kind [
  | none ↦ authorities
  | some k ↦
      if steady
      then authorities
      else record_playback_authority (env.at 9) (env.at 10) code next.actor_id k playback_update
          authorities
]

abbrev pub release : String → String → String → Service → Service
release code key token s =
    with_slots s (release_message_slot code key token s.runtime.claimed_slots).0

-- The guarded write of an accepted frame; other requests act while it is on its way.
unfoldable pub store_playback :
    Env
    → PersistedRoom
    → Option AuthorityKind
    → PlaybackState
    → String
    → String
    → Service
    → Service × Result PlaybackAnswer
unfolding claim_window
store_playback env room kind next key token before =
    let s = env.others 4 before in
    let (rooms, result) =
      update_room next.server_time room.code (at_version room.version)
        (record empty_patch {
          playback = some (some next);
          expires_at = some none;
          last_active_at = some next.server_time;
        })
        s.rooms in
    let s' = with_rooms s rooms in
    elim result [
      | updated stored ↦
          let claimed =
            claim_window env room.code kind (is_steady_tick room.playback next) next
              s'.authorities in
          let (authorities, _) = get_playback_authority (env.at 11) room.code claimed in
          (with_authorities s' authorities, ok (record { room = some stored; ignored = false }))
      | version_conflict ↦ (s', ok (record { room = none; ignored = true }))
      | not_found ↦ (release room.code key token s', err room_not_found)
    ]

unfoldable pub judge_playback :
    Env
    → PersistedRoom
    → PlaybackState
    → String
    → String
    → Service
    → Service × Result PlaybackAnswer
judge_playback env room next key token s =
    let kind = derive_playback_authority_kind room.playback next in
    let (authorities, authority) = get_playback_authority (env.at 7) room.code s.authorities in
    let s' = with_authorities s authorities in
    if is_accept (decide_playback_acceptance room.playback authority next next.server_time)
    then store_playback env room kind next key token s'
    else (
      with_authorities s' (get_playback_authority (env.at 8) room.code authorities).0,
      ok (record { room = some room; ignored = true }),
    )

-- `!sharedUrl || !playbackUrl || sharedUrl !== playbackUrl`
abbrev pub same_page : Option String → Option String → Bool
same_page shared playing_url = elim (truthy shared) [
  | none ↦ false
  | some a ↦ elim (truthy playing_url) [ none ↦ false | some b ↦ same a b ]
]

module _ (normalize : String → Option String) where
  unfoldable pub update_claimed :
      Env
      → PersistedRoom
      → Session
      → PlaybackState
      → String
      → String
      → Service
      → Service × Result PlaybackAnswer
  update_claimed env room session playback key token s = elim room.shared_video [
    | none ↦ (release room.code key token s, err invalid_message)
    | some video ↦
        if same_page (normalize video.url) (normalize playback.url)
        then judge_playback env room (stamp (env.at 6) session playback) key token s
        else (release room.code key token s, err invalid_message)
  ]

  unfoldable pub update_after_access :
      Env
      → PersistedRoom
      → Session
      → PlaybackState
      → String
      → Service
      → Service × Result PlaybackAnswer
  update_after_access env room session playback dedup_token s =
      let key = playback_dedup_key session playback in
      let (slots, claimed) =
        try_claim_message_slot (env.at 5) room.code key dedup_token (env.at 4 + 10000)
          s.runtime.claimed_slots in
      if claimed
      then update_claimed env room session playback key dedup_token
          (env.others 5 (with_slots s slots))
      else (with_slots s slots, ok (record { room = none; ignored = true }))

  unfoldable pub update_playback_for_session :
      Env
      → Session
      → String
      → PlaybackState
      → String
      → Service
      → Service × Session × Result PlaybackAnswer
  update_playback_for_session env session member_token playback dedup_token s =
      let (s', session', access) = require_joined_room_session env session member_token s in
      elim access [
        | err e ↦ (s', session', err e)
        | ok granted ↦
            let (s'', answer) =
              update_after_access env granted.persisted_room session' playback dedup_token s' in
            (s'', session', answer)
      ]
