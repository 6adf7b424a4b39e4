-- ===== src/Messages/Leave.antt =====
-- server/src/message-handler.ts, leaveRoom, runRoomLeftHook and runRoomJoinedHook, and what is owed to
-- a room that a session switched away from (releasePreviousRoom, publishPreviousRoomResync).
use bili_sync_play.Prelude.{
  Bool, Option, String, false, if◌then◌else◌, is_some, none, not, same, some, true, truthy, ◌&&◌,
  ◌||◌,
}
use bili_sync_play.Session.{Session, member_or_id}
use bili_sync_play.Service.State.{Result, err, ok}
use bili_sync_play.Service.Leave.{LeaveAnswer, LeaveRoomReason}
use bili_sync_play.Messages.{
  Context, Turn, fire_publish_room_event, publish_shared_owner_resync, room_member_left,
}

unfoldable pub run_room_left_hook : Context → String → Turn → Turn × Bool
run_room_left_hook ctx code turn =
    let (state, cleaned) = ctx.hooks.on_room_left turn.session code turn.state in
    (record turn { state = state }, cleaned)

unfoldable pub run_room_joined_hook : Context → String → Turn → Turn × Bool
run_room_joined_hook ctx code turn =
    let (state, seated) = ctx.hooks.on_room_joined turn.session code turn.state in
    (record turn { state = state }, seated)

abbrev pub resync_if : Bool → String → Turn → Turn
resync_if owed code turn = if owed then publish_shared_owner_resync code turn else turn

-- What follows a leave that the service has answered, for a session that was in a room.
unfoldable pub after_leave :
    Context → String → String → String → LeaveAnswer → Turn → Turn × Result Bool
unfolding run_room_left_hook fire_publish_room_event
after_leave ctx code member_id display_name answer turn =
    if not (is_some answer.room) && not answer.notify_room
    then (turn, ok false)
    else let (cleaned, index_cleaned) = run_room_left_hook ctx code turn in
      let owed = answer.needs_room_state_resync && index_cleaned in
      if not answer.member_removed && not answer.notify_room
      then (resync_if owed code cleaned, ok index_cleaned)
      else (
        resync_if owed code
            (fire_publish_room_event ctx (room_member_left code member_id display_name) cleaned),
        ok index_cleaned,
      )

-- The answer tells whether the session is provably out of the room's index.
unfoldable pub leave_room : Context → LeaveRoomReason → Turn → Turn × Result Bool
unfolding after_leave
leave_room ctx reason turn =
    let (state, session, answer) = ctx.service.leave_room reason turn.session turn.state in
    let left : Turn = record turn { state = state; session = session } in
    elim answer [
      | err e ↦ (left, err e)
      | ok a ↦ elim (truthy turn.session.room_code) [
        | none ↦ (left, ok true)
        | some code ↦
            after_leave ctx code (member_or_id turn.session) turn.session.display_name a left
      ]
    ]

-- The room that a session is in before it enters another one.
pub record PreviousRoom : Type 0 where
  pub room_code : String
  pub member_id : String
  pub display_name : String

abbrev pub previous_room : Session → Option PreviousRoom
previous_room session = elim (truthy session.room_code) [
  | none ↦ none
  | some code ↦ some (record {
    room_code = code;
    member_id = member_or_id session;
    display_name = session.display_name;
  })
]

unfoldable pub release_previous_room : Context → PreviousRoom → Turn → Turn × Bool
unfolding run_room_left_hook fire_publish_room_event
release_previous_room ctx previous turn =
    let (cleaned, index_cleaned) = run_room_left_hook ctx previous.room_code turn in
    (
      fire_publish_room_event ctx
          (room_member_left previous.room_code previous.member_id previous.display_name) cleaned,
      index_cleaned,
    )

unfoldable pub publish_previous_room_resync :
    Option PreviousRoom → String → Bool → Bool → Turn → Turn
publish_previous_room_resync none joined_code seated index_cleaned turn = turn
publish_previous_room_resync (some previous) joined_code seated index_cleaned turn =
    if same previous.room_code joined_code
    then turn
    else resync_if (seated || index_cleaned) previous.room_code turn
