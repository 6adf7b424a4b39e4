-- ===== src/Messages/Handle.antt =====
-- server/src/message-handler.ts, handleClientMessage: one message, from its rate limit to its answer.
use bili_sync_play.Prelude.{
  Bool, Option, String, false, if◌then◌else◌, none, not, same, same_option, some, true, truthy, ℕ,
  ◌&&◌, ◌||◌,
}
use bili_sync_play.Protocol.{PlaybackState, SharedVideo}
use bili_sync_play.Protocol.Messages.{
  ClientHello, ClientMessage, JoinPayload, member_token_invalid, playback_update, profile_update,
  rate_limited, room_create, room_created, room_join, room_joined, room_leave, sync_ping, sync_pong,
  sync_request, video_share,
}
use bili_sync_play.RateLimit.{
  SessionRateLimitState, WindowCounter, consume_fixed_window, consume_token_bucket,
}
use bili_sync_play.Session.{Session, member_or_id}
use bili_sync_play.Service.State.{Result, ServiceError, err, ok}
use bili_sync_play.Service.Join.{JoinRequest}
use bili_sync_play.Service.Admission.{JoinAnswer}
use bili_sync_play.Service.Create.{CreateAnswer}
use bili_sync_play.Service.Leave.{client_request}
use bili_sync_play.Messages.{
  Context, Turn, code_of, emit, enters, fire_publish_room_event, publish_shared_owner_resync,
  room_member_joined, room_state_updated, send_error, sends, with_playback_age,
}
use bili_sync_play.Messages.Leave.{PreviousRoom, leave_room, previous_room}
use bili_sync_play.Messages.Enter.{
  check_protocol_version, current_protocol_version, enter_room, send_room_state_to_session,
  take_seat,
}

abbrev pub window_minute_ms : ℕ
window_minute_ms = 60000

abbrev pub window_10_seconds_ms : ℕ
window_10_seconds_ms = 10000

abbrev pub with_limits : SessionRateLimitState → Turn → Turn
with_limits limits turn = record turn {
  session = record turn.session { rate_limit_state = limits };
}

-- The catch: an error of the service is the answer.
abbrev pub answer_error : ServiceError → Turn → Turn
answer_error e turn = send_error (code_of e) turn

-- A message that changes the room's state: an error is the answer, and success is published.
abbrev pub publish_update : Context → Turn → Result String → Turn
publish_update ctx turn (err e) = answer_error e turn
publish_update ctx turn (ok code) = fire_publish_room_event ctx (room_state_updated code) turn

-- An error of the service ends the entry.
unfoldable pub conclude {ℓ} : {A : Type ℓ} → (A → Turn → Turn) → Turn × Result A → Turn
conclude welcome (turn, err e) = answer_error e turn
conclude welcome (turn, ok a) = welcome a turn

-- What follows the service's answer; the outcome of the bootstrap state is not used.
unfoldable pub welcome_creator : Context → Option PreviousRoom → CreateAnswer → Turn → Turn
unfolding take_seat send_room_state_to_session
welcome_creator ctx previous created entered =
    let (settled, seated) = take_seat ctx previous created.room.code entered in
    if not seated
    then settled
    else let told =
        emit
          (sends (
            room_created (record {
              room_code = created.room.code;
              member_id = member_or_id settled.session;
              join_token = created.room.join_token;
              member_token = created.member_token;
              server_protocol_version = current_protocol_version;
            })))
          settled in
      (send_room_state_to_session ctx created.member_token (emit enters told)).0

abbrev pub display_name_of : Option ClientHello → Option String
display_name_of none = none
display_name_of (some hello) = hello.display_name

unfoldable pub create_room : Context → Option PreviousRoom → Option ClientHello → Turn → Turn
unfolding conclude welcome_creator
create_room ctx previous hello turn = conclude (welcome_creator ctx previous) (
    enter_room ctx previous (λ session s. ctx.service.create_room session (display_name_of hello) s)
      turn)

-- The share may have moved with the join, or it is not known.
abbrev pub owes_resync : Option (Option String) → String → Option PreviousRoom → String → Bool
owes_resync none member_id previous code = true
owes_resync (some owner) member_id previous code =
    same_option owner (some member_id)
    || elim previous [ none ↦ false | some p ↦ same p.room_code code ]

-- What follows the bootstrap state of a join, if the session is still the one that joined.
unfoldable pub announce_join :
    Context → Option PreviousRoom → String → String → String → Option (Option String) → Turn → Turn
unfolding fire_publish_room_event
announce_join ctx previous code member_id display_name owner turn =
    if same_option turn.session.room_code (some code)
      && same_option turn.session.member_id (some member_id)
    then (let announced =
          fire_publish_room_event ctx (room_member_joined code member_id display_name) turn in
        if owes_resync owner member_id previous code
        then publish_shared_owner_resync code announced
        else announced)
    else turn

unfoldable pub welcome_joiner : Context → Option PreviousRoom → JoinAnswer → Turn → Turn
unfolding take_seat send_room_state_to_session announce_join
welcome_joiner ctx previous joined entered =
    let code = joined.room.code in
    let (settled, seated) = take_seat ctx previous code entered in
    if not seated
    then settled
    else let member_id = member_or_id settled.session in
      let told =
        emit
          (sends (
            room_joined (record {
              room_code = code;
              member_id = member_id;
              member_token = joined.member_token;
              server_protocol_version = current_protocol_version;
            })))
          settled in
      let (shown, owner) = send_room_state_to_session ctx joined.member_token (emit enters told) in
      announce_join ctx previous code member_id settled.session.display_name owner shown

abbrev pub request_of : JoinPayload → JoinRequest
request_of payload = record {
  room_code = payload.room_code;
  join_token = payload.join_token;
  previous_member_token = payload.member_token;
}

unfoldable pub join_room : Context → Option PreviousRoom → JoinPayload → Turn → Turn
unfolding conclude welcome_joiner
join_room ctx previous payload turn = conclude (welcome_joiner ctx previous) (
    enter_room ctx previous
      (λ session s. ctx.service.join_room session (request_of payload) payload.display_name s) turn)

-- The rate limit and the version of a message that enters a room, and then the entry.
abbrev pub enter_within :
    (SessionRateLimitState → WindowCounter → SessionRateLimitState)
    → WindowCounter
    → ℕ
    → ℕ
    → Option ℕ
    → (Turn → Turn)
    → Turn
    → Turn
enter_within store counter limit t version enter turn =
    let (counter', admitted) = consume_fixed_window counter limit window_minute_ms t in
    let counted = with_limits (store turn.session.rate_limit_state counter') turn in
    if not admitted
    then send_error rate_limited counted
    else let (checked, accepted) = check_protocol_version version counted in
      if accepted then enter checked else checked

abbrev pub version_of : Option ClientHello → Option ℕ
version_of none = none
version_of (some hello) = hello.protocol_version

unfoldable pub handle_room_create : Context → Option ClientHello → Turn → Turn
unfolding create_room
handle_room_create ctx hello turn =
    enter_within (λ l c. record l { room_create = c }) turn.session.rate_limit_state.room_create
      ctx.rate_limits.room_create_per_minute (ctx.at 0) (version_of hello)
      (create_room ctx (previous_room turn.session) hello) turn

unfoldable pub handle_room_join : Context → JoinPayload → Turn → Turn
unfolding join_room
handle_room_join ctx payload turn =
    enter_within (λ l c. record l { room_join = c }) turn.session.rate_limit_state.room_join
      ctx.rate_limits.room_join_per_minute (ctx.at 0) payload.protocol_version
      (join_room ctx (previous_room turn.session) payload) turn

-- `payload?.memberToken && session.memberToken && they differ`
abbrev pub shows_other_token : Option String → Session → Bool
shows_other_token token session = elim (truthy token) [
  | none ↦ false
  | some given ↦ elim (truthy session.member_token) [
    | none ↦ false
    | some held ↦ not (same given held)
  ]
]

unfoldable pub handle_room_leave : Context → Option String → Turn → Turn
unfolding leave_room
handle_room_leave ctx token turn =
    if shows_other_token token turn.session
    then send_error member_token_invalid turn
    else let (left, verdict) = leave_room ctx client_request turn in
      elim verdict [ err e ↦ answer_error e left | ok _ ↦ left ]

unfoldable pub handle_profile_update : Context → String → String → Turn → Turn
handle_profile_update ctx token name turn =
    let (state, session, answer) = ctx.service.update_profile turn.session token name turn.state in
    publish_update ctx (record turn { state = state; session = session })
      (elim answer [ err e ↦ err e | ok room ↦ ok room.code ])

unfoldable pub handle_video_share :
    Context → String → SharedVideo → Option PlaybackState → Turn → Turn
handle_video_share ctx token video playback turn =
    let limits = turn.session.rate_limit_state in
    let (counter, admitted) =
      consume_fixed_window limits.video_share ctx.rate_limits.video_share_per_10_seconds
        window_10_seconds_ms (ctx.at 0) in
    let counted = with_limits (record limits { video_share = counter }) turn in
    let (state, session, answer) =
      ctx.service.share_video counted.session token video playback counted.state in
    if not admitted
    then send_error rate_limited counted
    else publish_update ctx (record counted { state = state; session = session })
        (elim answer [ err e ↦ err e | ok room ↦ ok room.code ])

-- A frame beyond its limit is dropped without an answer; one that is ignored is not published.
unfoldable pub handle_playback_update : Context → String → PlaybackState → Turn → Turn
handle_playback_update ctx token playback turn =
    let limits = turn.session.rate_limit_state in
    let (bucket, admitted) =
      consume_token_bucket limits.playback_update ctx.rate_limits.playback_update_per_second
        ctx.rate_limits.playback_update_burst (ctx.at 0) in
    let counted = with_limits (record limits { playback_update = bucket }) turn in
    let (state, session, answer) =
      ctx.service.update_playback counted.session token playback counted.state in
    let updated : Turn = record counted { state = state; session = session } in
    if not admitted then counted else elim answer [
      | err e ↦ answer_error e updated
      | ok a ↦ elim a.room [
        | none ↦ updated
        | some room ↦
            if a.ignored
            then updated
            else fire_publish_room_event ctx (room_state_updated room.code) updated
      ]
    ]

unfoldable pub handle_sync_request : Context → String → Turn → Turn
handle_sync_request ctx token turn =
    let limits = turn.session.rate_limit_state in
    let (counter, admitted) =
      consume_fixed_window limits.sync_request ctx.rate_limits.sync_request_per_10_seconds
        window_10_seconds_ms (ctx.at 0) in
    let counted = with_limits (record limits { sync_request = counter }) turn in
    let (state, session, answer) = ctx.service.get_room_state counted.session token counted.state in
    let read : Turn = record counted { state = state; session = session } in
    if not admitted then send_error rate_limited counted else elim answer [
      | err e ↦ answer_error e read
      | ok room ↦ emit (sends (with_playback_age room (ctx.at 1))) read
    ]

unfoldable pub handle_sync_ping : Context → ℕ → Turn → Turn
handle_sync_ping ctx client_send_time turn =
    let limits = turn.session.rate_limit_state in
    let (bucket, admitted) =
      consume_token_bucket limits.sync_ping ctx.rate_limits.sync_ping_per_second
        ctx.rate_limits.sync_ping_burst (ctx.at 0) in
    let counted = with_limits (record limits { sync_ping = bucket }) turn in
    if not admitted
    then counted
    else emit (sends (sync_pong client_send_time (ctx.at 0) (ctx.at 1))) counted

unfoldable pub handle_client_message : Context → ClientMessage → Turn → Turn
unfolding handle_room_create handle_room_join handle_room_leave handle_profile_update
    handle_video_share handle_playback_update handle_sync_request handle_sync_ping
handle_client_message ctx (room_create hello) turn = handle_room_create ctx hello turn
handle_client_message ctx (room_join payload) turn = handle_room_join ctx payload turn
handle_client_message ctx (profile_update token name) turn =
    handle_profile_update ctx token name turn
handle_client_message ctx (room_leave token) turn = handle_room_leave ctx token turn
handle_client_message ctx (video_share token video playback) turn =
    handle_video_share ctx token video playback turn
handle_client_message ctx (playback_update token playback) turn =
    handle_playback_update ctx token playback turn
handle_client_message ctx (sync_request token) turn = handle_sync_request ctx token turn
handle_client_message ctx (sync_ping client_send_time) turn =
    handle_sync_ping ctx client_send_time turn
