-- ===== src/Messages/Answers/Steps.antt =====
-- How often each step of an entry tells the client what became of it.
use bili_sync_play.Prelude.{
  ◌-◌, truthy, Bool, List, Option, Option-cases, String, [], arith, false, if◌then◌else◌, inl, inr,
  none, refl, some, true, ℕ, ◌++◌, ◌+◌, ◌∷◌, ◌≡◌,
}
use bili_sync_play.Protocol.Messages.{error, internal_error, room_created, room_joined, room_state}
use bili_sync_play.Protocol.{RoomState}
use bili_sync_play.Session.{Session, member_or_id}
use bili_sync_play.Service.State.{Result, Service, err, ok}
use bili_sync_play.Service.Leave.{LeaveAnswer, LeaveRoomReason, disconnect}
use bili_sync_play.Messages.{
  Context, Output, RoomEvent, Turn, closes, emit, fire_publish_room_event, publishes,
  requests_resync, room_member_left, sends, with_playback_age,
}
use bili_sync_play.Messages.Leave.{
  PreviousRoom, after_leave, leave_room, publish_previous_room_resync, release_previous_room,
  run_room_joined_hook, run_room_left_hook,
}
use bili_sync_play.Messages.Enter.{
  abort_join, close_code_join_rollback_failed, release_if_switched, release_after_failure,
  send_room_state_to_session, take_seat,
}

-- room:created, room:joined or an error.
abbrev pub is_verdict : Output → Bool
is_verdict (sends (room_created _)) = true
is_verdict (sends (room_joined _)) = true
is_verdict (sends (error _)) = true
is_verdict _ = false

unfoldable pub verdicts : List Output → ℕ
verdicts [] = 0
verdicts (o ∷ outputs) = (if is_verdict o then 1 else 0) + verdicts outputs

pub verdicts-append :
    (o : Output) (outputs : List Output)
    → verdicts (outputs ++ (o ∷ [])) ≡ verdicts outputs + (if is_verdict o then 1 else 0)
unfolding verdicts
verdicts-append o [] = ground arith
verdicts-append o (x ∷ xs) = ground (arith, verdicts-append o xs)

-- The verdicts that a turn has sent so far.
abbrev pub told : Turn → ℕ
told turn = verdicts turn.outputs

pub told-publish :
    (ctx : Context) (event : RoomEvent) (turn : Turn)
    → told (fire_publish_room_event ctx event turn) ≡ told turn
unfolding fire_publish_room_event
told-publish ctx event turn = ground (arith, verdicts-append (publishes event) turn.outputs)

pub told-resync :
    (code : String) (turn : Turn) → told (emit (requests_resync code) turn) ≡ told turn
told-resync code turn = ground (arith, verdicts-append (requests_resync code) turn.outputs)

pub told-after_leave :
    (ctx : Context) (code member_id display_name : String) (answer : LeaveAnswer) (turn : Turn)
    → told (after_leave ctx code member_id display_name answer turn).0 ≡ told turn
unfolding after_leave run_room_left_hook
told-after_leave ctx code member_id display_name answer turn =
    let cleaned = (run_room_left_hook ctx code turn).0 in
    let event = room_member_left code member_id display_name in
    let gone = fire_publish_room_event ctx event cleaned in
    ground (arith, told-publish ctx event cleaned, told-resync code cleaned, told-resync code gone)

pub told-leave_room :
    (ctx : Context) (reason : LeaveRoomReason) (turn : Turn)
    → told (leave_room ctx reason turn).0 ≡ told turn
unfolding leave_room
told-leave_room ctx reason turn = go (ctx.service.leave_room reason turn.session turn.state) refl
  where
    go :
        (r : Service × Session × Result LeaveAnswer)
        → ctx.service.leave_room reason turn.session turn.state ≡ r
        → told (leave_room ctx reason turn).0 ≡ told turn
    go (state, session, err e) h = ground (arith, h)
    go (state, session, ok a) h = elim (Option-cases (truthy turn.session.room_code)) [
      | inl none_of ↦ ground (arith, h, none_of)
      | inr (code, named) ↦ ground (
        arith,
        h,
        named,
        told-after_leave ctx code (member_or_id turn.session) turn.session.display_name a
            (record turn { state = state; session = session }),
      )
    ]

pub told-release_previous_room :
    (ctx : Context) (previous : PreviousRoom) (turn : Turn)
    → told (release_previous_room ctx previous turn).0 ≡ told turn
unfolding release_previous_room run_room_left_hook
told-release_previous_room ctx previous turn =
    told-publish ctx (room_member_left previous.room_code previous.member_id previous.display_name)
      (run_room_left_hook ctx previous.room_code turn).0

pub told-previous_resync :
    (previous : Option PreviousRoom) (code : String) (seated cleaned : Bool) (turn : Turn)
    → told (publish_previous_room_resync previous code seated cleaned turn) ≡ told turn
unfolding publish_previous_room_resync
told-previous_resync none code seated cleaned turn = refl
told-previous_resync (some previous) code seated cleaned turn =
    ground (arith, told-resync previous.room_code turn)

pub told-release_after_failure :
    (ctx : Context) (previous : Option PreviousRoom) (turn : Turn)
    → told (release_after_failure ctx previous turn) ≡ told turn
unfolding release_after_failure
told-release_after_failure ctx none turn = refl
told-release_after_failure ctx (some previous) turn =
    let (released, cleaned) = release_previous_room ctx previous turn in
    ground (
      arith,
      told-release_previous_room ctx previous turn,
      told-previous_resync (some previous) "" false cleaned released,
    )

pub told-abort_join : (ctx : Context) (turn : Turn) → told (abort_join ctx turn) ≡ told turn + 1
unfolding abort_join
told-abort_join ctx turn =
    let left = (leave_room ctx disconnect turn).0 in
    let told_so = emit (sends (error internal_error)) left in
    ground (
      arith,
      told-leave_room ctx disconnect turn,
      verdicts-append (sends (error internal_error)) left.outputs,
      verdicts-append (closes close_code_join_rollback_failed) told_so.outputs,
    )

-- A seat that is refused is the verdict; one that is taken has none yet.
pub told-take_seat :
    (ctx : Context) (previous : Option PreviousRoom) (code : String) (turn : Turn)
    → let (settled, seated) = take_seat ctx previous code turn in
      told settled ≡ told turn + (if seated then 0 else 1)
unfolding take_seat run_room_joined_hook
told-take_seat ctx previous code turn =
    let (released, cleaned) = release_if_switched ctx previous code turn in
    let (hooked, seated) = run_room_joined_hook ctx code released in
    let settled = if seated then hooked else abort_join ctx hooked in
    let same_so_far : told released ≡ told turn = told-switched previous in
    ground (
      arith,
      same_so_far,
      told-abort_join ctx hooked,
      told-previous_resync previous code seated cleaned settled,
    )
  where
    told-switched :
        (p : Option PreviousRoom) → told (release_if_switched ctx p code turn).0 ≡ told turn
    told-switched none = refl
    told-switched (some p) = ground (arith, told-release_previous_room ctx p turn)

pub told-send_room_state :
    (ctx : Context) (token : String) (turn : Turn)
    → told (send_room_state_to_session ctx token turn).0 ≡ told turn
unfolding send_room_state_to_session with_playback_age
told-send_room_state ctx token turn =
    go (ctx.service.get_room_state turn.session token turn.state) refl
  where
    go :
        (r : Service × Session × Result RoomState)
        → ctx.service.get_room_state turn.session token turn.state ≡ r
        → told (send_room_state_to_session ctx token turn).0 ≡ told turn
    go (state, session, err e) h = ground (arith, h)
    go (state, session, ok room) h = elim (Option-cases room.playback) [
      | inl n ↦ ground (arith, h, n, verdicts-append (sends (room_state room none)) turn.outputs)
      | inr (p, n) ↦ ground (
        arith,
        h,
        n,
        verdicts-append (sends (room_state room (some (ctx.at 1 - p.server_time)))) turn.outputs,
      )
    ]
