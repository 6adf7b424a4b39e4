-- ===== src/Service/Playback/Stale.antt =====
-- Frames that change no room: theorems on Service/Playback.antt.
use bili_sync_play.Prelude.{
  Option, Option-cases, String, arith, false, inl, inr, none, some, true, ℕ, ◌+◌, ◌≡◌, ◌≢◌,
}
use bili_sync_play.Prelude.Dict
use bili_sync_play.Protocol.{PlaybackState, SharedVideo}
use bili_sync_play.Authority.{
  AuthorityKind, PlaybackAuthority, decide_playback_acceptance, is_accept,
}
use bili_sync_play.Authority.Window.{get_playback_authority}
use bili_sync_play.Session.{Session}
use bili_sync_play.Runtime.Slots.{release_message_slot, room_slots}
use bili_sync_play.Runtime.Slots.Laws.{is_held, slot_of, try_claim_message_slot_lem}
use bili_sync_play.RoomStore.{PersistedRoom, get_room, update_room}
use bili_sync_play.Service.State.{Env, Service, err, invalid_message, ok}
use bili_sync_play.Service.Playback.{
  judge_playback, playback_dedup_key, same_page, store_playback, update_after_access,
  update_claimed,
}

-- If the room was written since the frame was judged, the frame is reported as ignored, and the
-- rooms and the authority windows are as that other writer left them.
pub store_playback-raced :
    (env : Env) (room : PersistedRoom) (kind : Option AuthorityKind) (next : PlaybackState)
    (key token : String) (s : Service) (current : PersistedRoom)
    → get_room room.code (env.others 4 s).rooms ≡ some current
    → current.version ≢ room.version
    → store_playback env room kind next key token s
      ≡ (env.others 4 s, ok (record { room = none; ignored = true }))
unfolding store_playback update_room
store_playback-raced env room kind next key token s current h ne = ground arith

-- The authority that a frame of this call is judged by.
abbrev pub judging_authority : Env → String → Service → Option PlaybackAuthority
judging_authority env code s = (get_playback_authority (env.at 7) code s.authorities).1

-- A frame that the authority's rule turns down is answered with the room as it was, marked as
-- ignored, and neither a room nor the runtime changes: no write, no version, and the slot of the
-- frame stays claimed.
judge_playback-vetoed :
    (env : Env) (room : PersistedRoom) (next : PlaybackState) (key token : String) (s : Service)
    → is_accept (
        decide_playback_acceptance room.playback
          (judging_authority env room.code s)
          next
          next.server_time)
      ≡ false
    → let (s', answer) = judge_playback env room next key token s in
      (s'.rooms ≡ s.rooms)
      × (s'.runtime ≡ s.runtime)
      × (answer ≡ ok (record { room = some room; ignored = true }))
unfolding judge_playback
judge_playback-vetoed env room next key token s h = (ground arith, ground arith, ground arith)

module _ (normalize : String → Option String) where
  -- A frame whose key somebody still holds, in a room whose slots are distinct, is a repetition: it
  -- is ignored, and changes no room and no authority window.
  pub update_after_access-repeated :
      (env : Env) (room : PersistedRoom) (session : Session) (sent : PlaybackState) (token : String)
      (s : Service)
      → Dict.IsDistinct (room_slots room.code s.runtime.claimed_slots)
      → is_held
          (env.at 5)
          (slot_of s.runtime.claimed_slots room.code (playback_dedup_key session sent))
        ≡ true
      → let (s', answer) = update_after_access normalize env room session sent token s in
        (s'.rooms ≡ s.rooms)
        × (s'.authorities ≡ s.authorities)
        × (answer ≡ ok (record { room = none; ignored = true }))
  unfolding update_after_access
  update_after_access-repeated env room session sent token s d h =
      let key = playback_dedup_key session sent in
      let (refused, _) =
        try_claim_message_slot_lem (env.at 5) room.code key token (env.at 4 + 10000)
          s.runtime.claimed_slots d in
      (ground arith, ground arith, ground arith)

  -- A claim that leads nowhere gives its slot back: if the slot stands under the frame's token, and
  -- the room has no shared video or the frame is about another page than it, the sender is told that the message is invalid, no room and no
  -- window changes, and nobody holds the frame's key afterwards.
  pub update_claimed-elsewhere :
      (env : Env) (room : PersistedRoom) (session : Session) (sent : PlaybackState)
      (key token : String) (s : Service) (until : ℕ)
      → slot_of s.runtime.claimed_slots room.code key
        ≡ some (record { token = token; expires_at = until })
      → ((video : SharedVideo)
          → room.shared_video ≡ some video
          → same_page (normalize video.url) (normalize sent.url) ≡ false)
      → let (s', answer) = update_claimed normalize env room session sent key token s in
        (s'.rooms ≡ s.rooms)
        × (s'.authorities ≡ s.authorities)
        × (slot_of s'.runtime.claimed_slots room.code key ≡ none)
        × (answer ≡ err invalid_message)
  unfolding update_claimed release_message_slot
  update_claimed-elsewhere env room session sent key token s until mine other =
      let held = room_slots room.code s.runtime.claimed_slots in
      let back = Dict.get-put_self room.code (Dict.remove key held) s.runtime.claimed_slots in
      let gone = Dict.get-remove_self key held in
      elim (Option-cases room.shared_video) [
        | inl e ↦ (ground arith, ground arith, ground (arith, back, gone), ground arith)
        | inr (video, e) ↦
            let away = other video e in
            (ground arith, ground arith, ground (arith, back, gone), ground arith)
      ]
