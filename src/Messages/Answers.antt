-- ===== src/Messages/Answers.antt =====
-- Who asks to enter a room is told once what became of it: theorems on Messages/Handle.antt.
use bili_sync_play.Prelude.{
  ◌-◌, truthy, Bool, List, Option, Option-cases, String, [], arith, false, if◌then◌else◌, inl, inr,
  none, refl, some, true, ℕ, ◌++◌, ◌+◌, ◌∷◌, ◌≡◌,
}
use bili_sync_play.Protocol.Messages.{
  ClientHello, ClientMessage, JoinPayload, error, internal_error, room_create, room_created,
  room_join, room_joined, room_state, playback_update, profile_update, rate_limited, room_leave,
  sync_ping, sync_request, unsupported_protocol_version, video_share,
}
use bili_sync_play.Protocol.{RoomState}
use bili_sync_play.RateLimit.{SessionRateLimitState, WindowCounter, consume_fixed_window}
use bili_sync_play.Session.{Session, member_or_id}
use bili_sync_play.Service.State.{Result, Service, ServiceError, err, ok}
use bili_sync_play.Service.Admission.{JoinAnswer}
use bili_sync_play.Service.Create.{CreateAnswer}
use bili_sync_play.Service.Leave.{LeaveAnswer, LeaveRoomReason, disconnect}
use bili_sync_play.Messages.{
  Context, Output, RoomEvent, Turn, code_of, closes, emit, enters, fire_publish_room_event,
  publishes, requests_resync, room_member_joined, room_member_left, sends, with_playback_age,
}
use bili_sync_play.Messages.Leave.{
  PreviousRoom, after_leave, leave_room, previous_room, publish_previous_room_resync,
  release_previous_room, run_room_joined_hook, run_room_left_hook,
}
use bili_sync_play.Messages.Enter.{
  abort_join, check_protocol_version, close_code_join_rollback_failed, current_protocol_version,
  enter_room, release_if_switched, release_after_failure, send_room_state_to_session, take_seat,
}
use bili_sync_play.Messages.Handle.{
  answer_error, announce_join, conclude, create_room, display_name_of, enter_within,
  handle_client_message, handle_room_create, handle_room_join, join_room, request_of, version_of,
  welcome_creator, welcome_joiner, window_minute_ms, with_limits,
}
use bili_sync_play.Messages.Answers.Steps.{
  is_verdict, verdicts, verdicts-append, told, told-publish, told-resync, told-after_leave,
  told-leave_room, told-release_previous_room, told-previous_resync, told-release_after_failure,
  told-abort_join, told-take_seat, told-send_room_state,
}
pub mod Steps

told-announce_join :
    (ctx : Context) (previous : Option PreviousRoom) (code member_id display_name : String)
    (owner : Option (Option String)) (turn : Turn)
    → told (announce_join ctx previous code member_id display_name owner turn) ≡ told turn
unfolding announce_join
told-announce_join ctx previous code member_id display_name owner turn =
    let event = room_member_joined code member_id display_name in
    let announced = fire_publish_room_event ctx event turn in
    ground (arith, told-publish ctx event turn, told-resync code announced)

told-refused :
    (ctx : Context) (previous : Option PreviousRoom) (e : ServiceError) (turn : Turn)
    → told (answer_error e (release_after_failure ctx previous turn)) ≡ told turn + 1
told-refused ctx previous e turn =
    let released = release_after_failure ctx previous turn in
    ground (
      arith,
      verdicts-append (sends (error (code_of e))) released.outputs,
      told-release_after_failure ctx previous turn,
    )

told-welcome_creator :
    (ctx : Context) (previous : Option PreviousRoom) (created : CreateAnswer) (entered : Turn)
    → told (welcome_creator ctx previous created entered) ≡ told entered + 1
unfolding welcome_creator
told-welcome_creator ctx previous created entered =
    let (settled, seated) = take_seat ctx previous created.room.code entered in
    let counted = told-take_seat ctx previous created.room.code entered in
    let verdict = room_created (record {
      room_code = created.room.code;
      member_id = member_or_id settled.session;
      join_token = created.room.join_token;
      member_token = created.member_token;
      server_protocol_version = current_protocol_version;
    }) in
    let answered = emit (sends verdict) settled in
    ground (
      arith,
      counted,
      told-send_room_state ctx created.member_token (emit enters answered),
      verdicts-append (sends verdict) settled.outputs,
      verdicts-append enters answered.outputs,
    )

told-conclude {ℓ} :
    {A : Type ℓ} (ctx : Context) (previous : Option PreviousRoom)
    (enter : Session → Service → Service × Session × Result A) (welcome : A → Turn → Turn)
    (turn : Turn)
    → ((a : A) (x : Turn) → told (welcome a x) ≡ told x + 1)
    → told (conclude welcome (enter_room ctx previous enter turn)) ≡ told turn + 1
unfolding conclude enter_room
told-conclude {A} ctx previous enter welcome turn once = go (enter turn.session turn.state).2 refl
  where
    go :
        (r : Result A)
        → (enter turn.session turn.state).2 ≡ r
        → told (conclude welcome (enter_room ctx previous enter turn)) ≡ told turn + 1
    go (err e) h =
        let (state, session, _) = enter turn.session turn.state in
        rw (enter_room, h)
          (told-refused ctx previous e (record turn { state = state; session = session }))
    go (ok a) h =
        let (state, session, _) = enter turn.session turn.state in
        rw (enter_room, h) (once a (record turn { state = state; session = session }))

told-create_room :
    (ctx : Context) (previous : Option PreviousRoom) (hello : Option ClientHello) (turn : Turn)
    → told (create_room ctx previous hello turn) ≡ told turn + 1
told-create_room ctx previous hello turn =
    unfold create_room in
    told-conclude ctx previous
      (λ session s. ctx.service.create_room session (display_name_of hello) s)
      (welcome_creator ctx previous) turn (told-welcome_creator ctx previous)

told-welcome_joiner :
    (ctx : Context) (previous : Option PreviousRoom) (joined : JoinAnswer) (entered : Turn)
    → told (welcome_joiner ctx previous joined entered) ≡ told entered + 1
unfolding welcome_joiner
told-welcome_joiner ctx previous joined entered =
    let code = joined.room.code in
    let (settled, seated) = take_seat ctx previous code entered in
    let counted = told-take_seat ctx previous code entered in
    let member_id = member_or_id settled.session in
    let verdict = room_joined (record {
      room_code = code;
      member_id = member_id;
      member_token = joined.member_token;
      server_protocol_version = current_protocol_version;
    }) in
    let answered = emit (sends verdict) settled in
    let (shown, owner) =
      send_room_state_to_session ctx joined.member_token (emit enters answered) in
    ground (
      arith,
      counted,
      told-send_room_state ctx joined.member_token (emit enters answered),
      told-announce_join ctx previous code member_id settled.session.display_name owner shown,
      verdicts-append (sends verdict) settled.outputs,
      verdicts-append enters answered.outputs,
    )

told-join_room :
    (ctx : Context) (previous : Option PreviousRoom) (payload : JoinPayload) (turn : Turn)
    → told (join_room ctx previous payload turn) ≡ told turn + 1
told-join_room ctx previous payload turn =
    unfold join_room in
    told-conclude ctx previous
      (λ session s. ctx.service.join_room session (request_of payload) payload.display_name s)
      (welcome_joiner ctx previous) turn (told-welcome_joiner ctx previous)

-- A version that is refused is the verdict.
told-check_version :
    (version : Option ℕ) (turn : Turn)
    → let (checked, accepted) = check_protocol_version version turn in
      told checked ≡ told turn + (if accepted then 0 else 1)
unfolding check_protocol_version
told-check_version none turn = ground arith
told-check_version (some version) turn =
    ground (arith, verdicts-append (sends (error unsupported_protocol_version)) turn.outputs)

told-enter_within :
    (store : SessionRateLimitState → WindowCounter → SessionRateLimitState)
    (counter : WindowCounter) (limit t : ℕ) (version : Option ℕ) (enter : Turn → Turn) (turn : Turn)
    → ((x : Turn) → told (enter x) ≡ told x + 1)
    → told (enter_within store counter limit t version enter turn) ≡ told turn + 1
told-enter_within store counter limit t version enter turn once =
    let counter' = (consume_fixed_window counter limit window_minute_ms t).0 in
    let counted = with_limits (store turn.session.rate_limit_state counter') turn in
    let checked = (check_protocol_version version counted).0 in
    ground (
      arith,
      once checked,
      told-check_version version counted,
      verdicts-append (sends (error rate_limited)) counted.outputs,
    )

abbrev pub is_entry : ClientMessage → Bool
is_entry (room_create _) = true
is_entry (room_join _) = true
is_entry _ = false

-- Whoever asks to create or to join a room is told exactly once what became of it, by room:created,
-- room:joined or one error: whatever the service answers, whether or not the index of rooms or the
-- bus take the entry, and also if the entry has to be taken back.
pub entry_is_answered_once :
    (ctx : Context) (message : ClientMessage) (turn : Turn)
    → is_entry message ≡ true
    → verdicts (handle_client_message ctx message turn).outputs ≡ verdicts turn.outputs + 1
unfolding handle_client_message handle_room_create handle_room_join
entry_is_answered_once ctx (room_create hello) turn h =
    told-enter_within (λ l c. record l { room_create = c })
      turn.session.rate_limit_state.room_create ctx.rate_limits.room_create_per_minute (ctx.at 0)
      (version_of hello) (create_room ctx (previous_room turn.session) hello) turn
      (told-create_room ctx (previous_room turn.session) hello)
entry_is_answered_once ctx (room_join payload) turn h =
    told-enter_within (λ l c. record l { room_join = c }) turn.session.rate_limit_state.room_join
      ctx.rate_limits.room_join_per_minute (ctx.at 0) payload.protocol_version
      (join_room ctx (previous_room turn.session) payload) turn
      (told-join_room ctx (previous_room turn.session) payload)
entry_is_answered_once ctx (profile_update _ _) turn h = cc
entry_is_answered_once ctx (room_leave _) turn h = cc
entry_is_answered_once ctx (video_share _ _ _) turn h = cc
entry_is_answered_once ctx (playback_update _ _) turn h = cc
entry_is_answered_once ctx (sync_request _) turn h = cc
entry_is_answered_once ctx (sync_ping _) turn h = cc
