-- ===== src/Service/Admission/Laws.antt =====
-- What a join leaves behind: theorems on Service/Admission.antt.
use bili_sync_play.Prelude.{Option, String, arith, if◌then◌else◌, is_some, none, some, ℕ, ◌≡◌}
use bili_sync_play.Prelude.Dict
use bili_sync_play.Prelude.Dict.{Dict}
use bili_sync_play.Session.{Session}
use bili_sync_play.Runtime.Rooms.{ActiveRoom, add_member_to_room, get_or_create_active_room}
use bili_sync_play.Runtime.Store as Live
use bili_sync_play.Service.State.{Service, alone, ok}
use bili_sync_play.Service.Join.{PersistedJoin, apply_joined_session_state, build_join_identity}
use bili_sync_play.Service.Admission.{JoinAnswer, JoinContext, admit}

-- A member that was added holds the seat and the token.
add_member-seat :
    (t : ℕ) (code member_id session_id token : String) (rt : Live.Runtime)
    → (active : ActiveRoom) × (Dict.get code
          (Live.add_member t code member_id session_id token rt).0.rooms
        ≡ some active)
      × (Dict.get member_id active.members ≡ some session_id)
      × (Dict.get member_id active.member_tokens ≡ some token)
unfolding Live.add_member add_member_to_room
add_member-seat t code member_id session_id token rt =
    let pruned = Live.prune_expired_member_tokens t code rt in
    let (held, room) = get_or_create_active_room pruned.rooms code in
    let joined = record room {
      members = Dict.put member_id session_id room.members;
      member_tokens = Dict.put member_id token room.member_tokens;
    } in
    (
      joined,
      Dict.get-put_self code joined held,
      Dict.get-put_self member_id session_id room.members,
      Dict.get-put_self member_id token room.member_tokens,
    )

-- A session that was admitted, while nobody else acts, holds the seat of its member in the live
-- room, and the room, the session and the answer agree on the member and on one token for it.
pub admitted_holds_seat :
    (ctx : JoinContext) (at : ℕ → ℕ) (session : Session) (previous : Option String)
    (joined : PersistedJoin) (s : Service) (answer : JoinAnswer)
    → (admit ctx (alone at) session previous joined s).2 ≡ ok answer
    → let (s', session', _) = admit ctx (alone at) session previous joined s in
      let identity =
        build_join_identity session ctx.fresh_token joined.target.reconnect_member_id previous in
      (active : ActiveRoom) × (Dict.get joined.room.code s'.runtime.rooms ≡ some active)
      × (Dict.get identity.member_id active.members ≡ some session.id)
      × (Dict.get identity.member_id active.member_tokens ≡ some answer.member_token)
      × (session'.room_code ≡ some joined.room.code)
      × (session'.member_id ≡ some identity.member_id)
      × (session'.member_token ≡ some answer.member_token)
      × (answer.member_token ≡ identity.member_token)
unfolding admit apply_joined_session_state
admitted_holds_seat ctx at session previous joined s answer h =
    let identity =
      build_join_identity session ctx.fresh_token joined.target.reconnect_member_id previous in
    let runtime =
      (if is_some joined.target.reconnect_member_id
        then Live.get_room (at 40) joined.room.code s.runtime
        else (s.runtime, none)).0 in
    let (active, live, seat, token) =
      add_member-seat (at 42) joined.room.code identity.member_id session.id identity.member_token
        runtime in
    (
      active,
      ground arith,
      ground arith,
      ground arith,
      ground arith,
      ground arith,
      ground arith,
      ground arith,
    )
