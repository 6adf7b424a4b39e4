-- ===== src/RoomStore/View.antt =====
-- server/src/room-store.ts, roomStateFromSessions and withResolvedSharedOwner: the `room:state` that
-- clients are sent, from the persisted room and the sessions listed for it.
use bili_sync_play.Prelude.{
  List, Option, String, [], if◌then◌else◌, none, same_option, some, truthy, ◌++◌, ◌∷◌,
}
use bili_sync_play.Prelude.Dict
use bili_sync_play.Prelude.Dict.{Dict}
use bili_sync_play.Protocol.{RoomMember, RoomState, SharedVideo}
use bili_sync_play.Owner.{Candidate, resolve_shared_video_owner_id}
use bili_sync_play.Session.{Session, member_or_id, names_room}
use bili_sync_play.RoomStore.{PersistedRoom}
pub mod Laws

abbrev pub member_of : Session → RoomMember
member_of session = record { id = member_or_id session; name = session.display_name }

abbrev pub candidate_of : Session → Candidate
candidate_of session = record { id = member_or_id session; joined_at = session.joined_at }

-- The loop: a session that does not name the room is residue of the index and is skipped.
unfoldable pub collect_members :
    String → Dict RoomMember → List Candidate → List Session → Dict RoomMember × List Candidate
collect_members code members candidates [] = (members, candidates)
collect_members code members candidates (session ∷ sessions) =
    let counts = names_room code session in
    collect_members code
      (if counts then Dict.put (member_or_id session) (member_of session) members else members)
      (if counts then candidates ++ candidate_of session ∷ [] else candidates) sessions

-- `(ownerId ? members.get(ownerId)?.name : undefined) ?? sharedByDisplayName`
abbrev pub owner_name : Option String → Dict RoomMember → Option String → Option String
owner_name owner members stored = elim (truthy owner) [
  | none ↦ stored
  | some id ↦ elim (Dict.get id members) [ none ↦ stored | some m ↦ some m.name ]
]

unfoldable pub with_resolved_shared_owner :
    Option SharedVideo → Dict RoomMember → List Candidate → Option SharedVideo
with_resolved_shared_owner none members candidates = none
with_resolved_shared_owner (some video) members candidates =
    let owner = resolve_shared_video_owner_id video.shared_by_member_id candidates in
    some (
      if same_option owner video.shared_by_member_id then video else record video {
        shared_by_member_id = owner;
        shared_by_display_name = owner_name owner members video.shared_by_display_name;
      })

unfoldable pub room_state_from_sessions : PersistedRoom → List Session → RoomState
unfolding with_resolved_shared_owner
room_state_from_sessions room sessions =
    let (members, candidates) = collect_members room.code [] [] sessions in
    record {
      room_code = room.code;
      shared_video = with_resolved_shared_owner room.shared_video members candidates;
      playback = room.playback;
      members = Dict.values members;
    }
