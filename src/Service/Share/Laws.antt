-- ===== src/Service/Share/Laws.antt =====
-- What a share leaves behind: theorems on Service/Share.antt.
use bili_sync_play.Prelude.{
  Option, Option-cases, String, arith, false, inl, inr, none, refl, some, ℕ, ◌+◌, ◌<◌, ◌∙◌, ◌≡◌,
}
use bili_sync_play.Prelude.Dict
use bili_sync_play.Protocol.{PlaybackState, SharedVideo}
use bili_sync_play.Authority.{share, video_share}
use bili_sync_play.Authority.Window.Laws.{live_authority, record-live_authority}
use bili_sync_play.Session.{Session, member_or_id}
use bili_sync_play.RoomStore.{
  PersistedRoom, PersistedRoomPatch, empty_patch, get_room, has_expired, patch_room, update_room,
}
use bili_sync_play.Runtime.Slots.{room_slots, try_claim_message_slot}
use bili_sync_play.Runtime.Slots.Laws.{is_held, slot_of, try_claim_message_slot_lem}
use bili_sync_play.Service.State.{Env, Service, later, ok}
use bili_sync_play.Service.Resolve.{with_version_retry}
use bili_sync_play.Service.Resolve.Laws.{resolve_room-alive}
use bili_sync_play.Service.Playback.{with_slots}
use bili_sync_play.Service.Share.{
  attributed, share_after_access, share_attempt, share_dedup_key, shared_playback,
}

-- The room that a share leaves in the store.
pub record IsShared (t : ℕ) (session : Session) (video : SharedVideo) (room : PersistedRoom)
    : Type 0 where
  video_is : room.shared_video ≡ some (attributed session video)
  pub playback : PlaybackState
  playback_is : room.playback ≡ some playback
  pub same_page : playback.url ≡ video.url
  pub actor : playback.actor_id ≡ member_or_id session
  pub time : playback.server_time ≡ t
  no_intent : playback.sync_intent ≡ none
  pub alive : room.expires_at ≡ none

shared_playback_lem :
    (t : ℕ) (session : Session) (video : SharedVideo) (playback : Option PlaybackState)
    → let next = shared_playback t session video playback in
      (next.url ≡ video.url)
      × (next.actor_id ≡ member_or_id session)
      × (next.server_time ≡ t)
      × (next.sync_intent ≡ none)
unfolding shared_playback
shared_playback_lem t session video none = (refl, refl, refl, refl)
shared_playback_lem t session video (some playback) = (refl, refl, refl, refl)

abbrev share_patch : ℕ → Session → SharedVideo → Option PlaybackState → PersistedRoomPatch
share_patch t session video playback = record empty_patch {
  shared_video = some (some (attributed session video));
  playback = some (some (shared_playback t session video playback));
  expires_at = some none;
  last_active_at = some t;
}

-- An attempt on the room that the store has succeeds, and writes this room alone.
share_attempt-stores :
    (t : ℕ) (session : Session) (video : SharedVideo) (playback : Option PlaybackState) (env : Env)
    (room : PersistedRoom) (s : Service)
    → get_room room.code (env.others 4 s).rooms ≡ some room
    → let (s', answer) = share_attempt t session video playback env room s in
      let next = patch_room t (share_patch t session video playback) room in
      (s'.rooms ≡ Dict.put room.code next (env.others 4 s).rooms) × (answer ≡ ok (some next))
unfolding share_attempt update_room patch_room
share_attempt-stores t session video playback env room s h = (ground arith, ground arith)

-- An attempt at a share that succeeds leaves the room in the store with the video, attributed to the
-- session's member, and a playback of the same page by that member at the server's time, and the
-- member holds the room's authority window for 1.2 s.
share_attempt-IsShared :
    (t now : ℕ) (session : Session) (video : SharedVideo) (playback : Option PlaybackState)
    (env : Env) (room next : PersistedRoom) (s : Service)
    → (share_attempt t session video playback env room s).1 ≡ ok (some next)
    → let s' = (share_attempt t session video playback env room s).0 in
      (get_room room.code s'.rooms ≡ some next)
      × (next.version ≡ room.version + 1)
      × IsShared t session video next
      × (now < env.at 5 + 1200
          → live_authority now room.code s'.authorities
            ≡ some (record {
              actor_id = member_or_id session;
              until = env.at 5 + 1200;
              kind = share;
              source = video_share;
            }))
unfolding share_attempt update_room
share_attempt-IsShared t now session video playback env room next s h =
    elim (Option-cases (get_room room.code (env.others 4 s).rooms)) [
      | inl e ↦ absurd (ground arith)
      | inr (held, e) ↦
          let patch : PersistedRoomPatch = record empty_patch {
            shared_video = some (some (attributed session video));
            playback = some (some (shared_playback t session video playback));
            expires_at = some none;
            last_active_at = some t;
          } in
          let stored =
            Dict.get-put_self room.code (patch_room t patch held) (env.others 4 s).rooms in
          let claimed =
            record-live_authority (env.at 4) (env.at 5) now room.code (member_or_id session) share
              video_share (env.others 4 s).authorities in
          let (page, actor, time, intent) = shared_playback_lem t session video playback in
          (
            ground (arith, stored),
            ground arith,
            record {
              video_is = ground arith;
              playback = shared_playback t session video playback;
              playback_is = ground arith;
              same_page = page;
              actor = actor;
              time = time;
              no_intent = intent;
              alive = ground arith;
            },
            λ q. ground (arith, claimed),
          )
    ]

patch_room-keeps :
    (t : ℕ) (patch : PersistedRoomPatch) (room : PersistedRoom)
    → ((patch_room t patch room).code ≡ room.code)
      × ((patch_room t patch room).join_token ≡ room.join_token)
unfolding patch_room
patch_room-keeps t patch room = (refl, refl)

-- The state in which a share whose claim was granted reads the room again: what others have done since
-- is in it.
abbrev pub claimed_state :
    Env → PersistedRoom → Session → SharedVideo → Option PlaybackState → String → Service → Service
claimed_state env room session video playback token s = env.others 5 (
    with_slots s
      (try_claim_message_slot (env.at 5) room.code (share_dedup_key session video playback) token
        (env.at 4 + 5000) s.runtime.claimed_slots).0)

-- A share whose slot nobody holds, among slots that are distinct, succeeds if the room that is read again is
-- alive and nobody writes to it before the share's write, whatever else others do meanwhile: the
-- answer is the one room that changes, one version after the room that was read, under its code and
-- join token, never expiring, with the video under the name of the session's member and a playback of the
-- video's page by the same member at the server's time; and the member holds the room's authority
-- for 1.2 s.
pub share_after_access-IsShared :
    (env : Env) (room current : PersistedRoom) (session : Session) (video : SharedVideo)
    (playback : Option PlaybackState) (token : String) (s : Service)
    → is_held
        (env.at 5)
        (slot_of s.runtime.claimed_slots room.code (share_dedup_key session video playback))
      ≡ false
    → Dict.IsDistinct (room_slots room.code s.runtime.claimed_slots)
    → current.code ≡ room.code
    → has_expired (env.at 10) current ≡ false
    → let read = claimed_state env room session video playback token s in
      let written = env.others 14 read in
      get_room room.code read.rooms ≡ some current
      → get_room room.code written.rooms ≡ some current
      → let (s', answer) = share_after_access env room session video playback token s in
        (next : PersistedRoom) × (answer ≡ ok next)
        × (s'.rooms ≡ Dict.put room.code next written.rooms)
        × (next.version ≡ current.version + 1)
        × (next.code ≡ room.code)
        × (next.join_token ≡ current.join_token)
        × IsShared (env.at 4) session video next
        × ((now : ℕ)
            → now < env.at 15 + 1200
            → live_authority now room.code s'.authorities
              ≡ some (record {
                actor_id = member_or_id session;
                until = env.at 15 + 1200;
                kind = share;
                source = video_share;
              }))
unfolding share_after_access with_version_retry
share_after_access-IsShared env room current session video playback token s fresh d own alive read
      kept =
    let t = env.at 4 in
    let key = share_dedup_key session video playback in
    let (granted, _) =
      try_claim_message_slot_lem (env.at 5) room.code key token (t + 5000) s.runtime.claimed_slots
        d in
    let b = claimed_state env room session video playback token s in
    let resolved = resolve_room-alive (later 10 env) room.code b current read alive in
    let next = patch_room t (share_patch t session video playback) current in
    let (stored, answered) =
      share_attempt-stores t session video playback (later 10 env) current b (ground arith) in
    let (_, version, shared, _) =
      share_attempt-IsShared t 0 session video playback (later 10 env) current next b answered in
    (
      next,
      ground arith,
      ground arith,
      version,
      (patch_room-keeps t (share_patch t session video playback) current).0 ∙ own,
      (patch_room-keeps t (share_patch t session video playback) current).1,
      shared,
      λ now q.
          (let (_, _, _, held) =
              share_attempt-IsShared t now session video playback (later 10 env) current next b
                answered in
            ground (arith, held q)),
    )
