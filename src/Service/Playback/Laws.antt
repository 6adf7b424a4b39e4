-- ===== src/Service/Playback/Laws.antt =====
-- What an accepted frame writes: theorems on Service/Playback.antt.
use bili_sync_play.Prelude.{
  Option, Option-cases, String, arith, false, inl, inr, none, refl, some, ◌+◌, ◌≡◌,
}
use bili_sync_play.Prelude.Dict
use bili_sync_play.Protocol.{PlaybackState}
use bili_sync_play.Authority.{AuthorityKind}
use bili_sync_play.Authority.Window.{derive_playback_authority_kind, get_playback_authority}
use bili_sync_play.Session.{Session}
use bili_sync_play.Runtime.Slots.{try_claim_message_slot}
use bili_sync_play.RoomStore.{
  PersistedRoom, PersistedRoomPatch, empty_patch, get_room, patch_room, update_room,
}
use bili_sync_play.Service.State.{Env, Result, Service, err, ok}
use bili_sync_play.Service.Access.{JoinedRoomAccess, require_joined_room_session}
use bili_sync_play.Service.Access.Laws.{
  IsAuthenticated, require_joined_room_session-IsAuthenticated,
}
use bili_sync_play.Service.Playback.{
  PlaybackAnswer, judge_playback, playback_dedup_key, stamp, store_playback, update_after_access,
  update_claimed, update_playback_for_session, with_authorities, with_slots,
}

-- The room that an accepted frame leaves in the store.
pub record IsApplied (next : PlaybackState) (room stored : PersistedRoom) : Type 0 where
  pub playback : stored.playback ≡ some next
  pub version : stored.version ≡ room.version + 1
  pub alive : stored.expires_at ≡ none
  pub active : stored.last_active_at ≡ next.server_time

store_playback-IsApplied :
    (env : Env) (room : PersistedRoom) (kind : Option AuthorityKind) (next : PlaybackState)
    (key token : String) (s : Service) (stored : PersistedRoom)
    → (store_playback env room kind next key token s).1
      ≡ ok (record { room = some stored; ignored = false })
    → (get_room room.code (store_playback env room kind next key token s).0.rooms ≡ some stored)
      × IsApplied next room stored
unfolding store_playback update_room
store_playback-IsApplied env room kind next key token s stored h =
    elim (Option-cases (get_room room.code (env.others 4 s).rooms)) [
      | inl e ↦ absurd (ground arith)
      | inr (held, e) ↦
          let patch : PersistedRoomPatch = record empty_patch {
            playback = some (some next);
            expires_at = some none;
            last_active_at = some next.server_time;
          } in
          (
            ground (
              arith,
              Dict.get-put_self room.code (patch_room next.server_time patch held)
                  (env.others 4 s).rooms,
            ),
            ground arith,
          )
    ]

-- The answer of a frame that was applied, as opposed to ignored.
abbrev pub applied : PersistedRoom → Result PlaybackAnswer
applied stored = ok (record { room = some stored; ignored = false })

judge_playback-IsApplied :
    (env : Env) (room : PersistedRoom) (next : PlaybackState) (key token : String) (s : Service)
    (stored : PersistedRoom)
    → (judge_playback env room next key token s).1 ≡ applied stored
    → (get_room room.code (judge_playback env room next key token s).0.rooms ≡ some stored)
      × IsApplied next room stored
unfolding judge_playback
judge_playback-IsApplied env room next key token s stored h =
    let kind = derive_playback_authority_kind room.playback next in
    let s' = with_authorities s (get_playback_authority (env.at 7) room.code s.authorities).0 in
    ground (arith, store_playback-IsApplied env room kind next key token s' stored)

module _ (normalize : String → Option String) where
  update_claimed-IsApplied :
      (env : Env) (room : PersistedRoom) (session : Session) (sent : PlaybackState)
      (key token : String) (s : Service) (stored : PersistedRoom)
      → (update_claimed normalize env room session sent key token s).1 ≡ applied stored
      → let next = stamp (env.at 6) session sent in
        (get_room room.code (update_claimed normalize env room session sent key token s).0.rooms
          ≡ some stored)
        × IsApplied next room stored
  unfolding update_claimed
  update_claimed-IsApplied env room session sent key token s stored h =
      elim (Option-cases room.shared_video) [
        | inl e ↦ absurd (ground arith)
        | inr (video, e) ↦ ground (
          arith,
          judge_playback-IsApplied env room (stamp (env.at 6) session sent) key token s stored,
        )
      ]

  update_after_access-IsApplied :
      (env : Env) (room : PersistedRoom) (session : Session) (sent : PlaybackState) (token : String)
      (s : Service) (stored : PersistedRoom)
      → (update_after_access normalize env room session sent token s).1 ≡ applied stored
      → let next = stamp (env.at 6) session sent in
        (get_room room.code (update_after_access normalize env room session sent token s).0.rooms
          ≡ some stored)
        × IsApplied next room stored
  unfolding update_after_access
  update_after_access-IsApplied env room session sent token s stored h =
      let key = playback_dedup_key session sent in
      let slots =
        (try_claim_message_slot (env.at 5) room.code key token (env.at 4 + 10000)
          s.runtime.claimed_slots).0 in
      ground (
        arith,
        update_claimed-IsApplied env room session sent key token (env.others 5 (with_slots s slots))
            stored,
      )

  -- A frame that is applied has passed the access check, in whose outcome the session holds the seat and
  -- the token of its member in the room that is stored there. What is stored under the code of that
  -- room afterwards has the frame as its playback: the frame is as it was sent, but the actor is the
  -- member of the session and the time is the server's clock, whatever the frame claims; its version is one
  -- more than the room's at the check, and it no longer expires.
  pub update_playback_for_session-IsApplied :
      (env : Env) (session : Session) (member_token : String) (sent : PlaybackState)
      (token : String) (s : Service) (stored : PersistedRoom)
      → (update_playback_for_session normalize env session member_token sent token s).2
        ≡ applied stored
      → let (s1, _, verdict) = require_joined_room_session env session member_token s in
        let s' = (update_playback_for_session normalize env session member_token sent token s).0 in
        (access : JoinedRoomAccess) × (verdict ≡ ok access)
        × IsAuthenticated s1 session member_token access
        × (get_room access.persisted_room.code s'.rooms ≡ some stored)
        × IsApplied (stamp (env.at 6) session sent) access.persisted_room stored
  unfolding update_playback_for_session
  update_playback_for_session-IsApplied env session member_token sent token s stored h =
      go (require_joined_room_session env session member_token s).2 refl
    where
      go :
          (r : Result JoinedRoomAccess)
          → (require_joined_room_session env session member_token s).2 ≡ r
          → let (s1, _, verdict) = require_joined_room_session env session member_token s in
            let s' =
              (update_playback_for_session normalize env session member_token sent token s).0 in
            (access : JoinedRoomAccess) × (verdict ≡ ok access)
            × IsAuthenticated s1 session member_token access
            × (get_room access.persisted_room.code s'.rooms ≡ some stored)
            × IsApplied (stamp (env.at 6) session sent) access.persisted_room stored
      go (err e) q = absurd (ground arith)
      go (ok access) q =
          let (s1, session1, _) = require_joined_room_session env session member_token s in
          let (same_session, auth) =
            require_joined_room_session-IsAuthenticated env session member_token s access q in
          let (kept, is_applied) =
            update_after_access-IsApplied env access.persisted_room session sent token s1 stored
              (ground arith) in
          (access, q, auth, ground arith, is_applied)
