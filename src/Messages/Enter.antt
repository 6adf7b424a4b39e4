-- ===== src/Messages/Enter.antt =====
-- server/src/message-handler.ts: what room:create and room:join share, enterRoom, abortJoin,
-- sendRoomStateToSession and checkProtocolVersion.
use bili_sync_play.Prelude.{
  Bool, Option, String, false, if◌then◌else◌, ltb, none, same, same_option, some, true, ℕ,
}
use bili_sync_play.Protocol.Messages.{unsupported_protocol_version}
use bili_sync_play.Protocol.Messages as Wire
use bili_sync_play.Session.{Session}
use bili_sync_play.Service.State.{Result, Service, err, ok}
use bili_sync_play.Service.Leave.{disconnect}
use bili_sync_play.Messages.{Context, Turn, closes, emit, send_error, sends, with_playback_age}
use bili_sync_play.Messages.Leave.{
  PreviousRoom, leave_room, publish_previous_room_resync, release_previous_room,
  run_room_joined_hook,
}

abbrev pub min_protocol_version : ℕ
min_protocol_version = 1

abbrev pub current_protocol_version : ℕ
current_protocol_version = 5

-- The turn, and whether the message goes on.
unfoldable pub check_protocol_version : Option ℕ → Turn → Turn × Bool
check_protocol_version none turn = (
  record turn { session = record turn.session { protocol_version = some min_protocol_version } },
  true,
)
check_protocol_version (some version) turn =
    if ltb version min_protocol_version
    then (send_error unsupported_protocol_version turn, false)
    else (record turn { session = record turn.session { protocol_version = some version } }, true)

-- The catch of enterRoom: the room that was left is released even if the entry fails.
unfoldable pub release_after_failure : Context → Option PreviousRoom → Turn → Turn
unfolding release_previous_room publish_previous_room_resync
release_after_failure ctx none turn = turn
release_after_failure ctx (some previous) turn =
    if same_option turn.session.room_code (some previous.room_code)
    then turn
    else let (released, index_cleaned) = release_previous_room ctx previous turn in
      publish_previous_room_resync (some previous) "" false index_cleaned released

unfoldable pub enter_room {ℓ} :
    {A : Type ℓ}
    → Context
    → Option PreviousRoom
    → (Session → Service → Service × Session × Result A)
    → Turn
    → Turn × Result A
enter_room ctx previous enter turn =
    let (state, session, answer) = enter turn.session turn.state in
    let entered : Turn = record turn { state = state; session = session } in
    elim answer [
      | err e ↦ (release_after_failure ctx previous entered, err e)
      | ok a ↦ (entered, ok a)
    ]

abbrev pub close_code_join_rollback_failed : ℕ
close_code_join_rollback_failed = 1011

abbrev pub is_rolled_back : Context → Result Bool → Bool
is_rolled_back ctx (ok verdict) = if ctx.rollback_in_time then verdict else false
is_rolled_back ctx (err e) = false

-- When its timeout passes first, the rollback goes on behind the answer; its outputs stand before the
-- answer here in either case.
unfoldable pub abort_join : Context → Turn → Turn
unfolding leave_room
abort_join ctx turn =
    let (left, verdict) = leave_room ctx disconnect turn in
    let told = send_error Wire.internal_error left in
    if is_rolled_back ctx verdict
    then told
    else if told.session.socket_open
    then emit (closes close_code_join_rollback_failed) told
    else told

abbrev pub release_if_switched : Context → Option PreviousRoom → String → Turn → Turn × Bool
release_if_switched ctx none code turn = (turn, false)
release_if_switched ctx (some previous) code turn =
    if same previous.room_code code then (turn, false) else release_previous_room ctx previous turn

-- From the service's answer on, up to the point where the client may be told: the room before is
-- released, the session is put into the index, or else the join is taken back.
unfoldable pub take_seat : Context → Option PreviousRoom → String → Turn → Turn × Bool
unfolding run_room_joined_hook abort_join release_previous_room publish_previous_room_resync
take_seat ctx previous code turn =
    let (released, index_cleaned) = release_if_switched ctx previous code turn in
    let (hooked, seated) = run_room_joined_hook ctx code released in
    let settled = if seated then hooked else abort_join ctx hooked in
    (publish_previous_room_resync previous code seated index_cleaned settled, seated)

-- none: the state is not known; otherwise the owner of the share that it names.
unfoldable pub send_room_state_to_session : Context → String → Turn → Turn × Option (Option String)
unfolding with_playback_age
send_room_state_to_session ctx member_token turn =
    let (state, session, answer) =
      ctx.service.get_room_state turn.session member_token turn.state in
    let read : Turn = record turn { state = state; session = session } in
    elim answer [
      | err e ↦ (read, none)
      | ok room ↦ (
        emit (sends (with_playback_age room (ctx.at 1))) read,
        some (elim room.shared_video [ none ↦ none | some video ↦ video.shared_by_member_id ]),
      )
    ]
