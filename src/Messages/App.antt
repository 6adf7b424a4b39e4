-- ===== src/Messages/App.antt =====
-- server/src/app.ts: the message handler over the room service and the in-memory runtime store, with
-- the hooks that keep the index of rooms.
use bili_sync_play.Prelude.{Option, String, if◌then◌else◌, none, refl, same, some, true, ℕ, ◌≡◌}
use bili_sync_play.Prelude.Dict
use bili_sync_play.Session.{Session}
use bili_sync_play.Runtime.Store.{Runtime}
use bili_sync_play.Runtime.Sessions.{
  mark_session_joined_room, mark_session_left_room, register_session,
}
use bili_sync_play.Runtime.Sessions.Laws.{mark_session_joined_room-seated, seated}
use bili_sync_play.Service.State.{Env, Result, Service, err, internal_error, with_runtime}
use bili_sync_play.Service.Admission.{JoinAnswer, JoinContext}
use bili_sync_play.Service.Create.{CreateContext, create_room_for_session}
use bili_sync_play.Service.Leave.{LeaveContext, leave_current_room}
use bili_sync_play.Service.Lock.{join_room_for_session}
use bili_sync_play.Service.Playback.{update_playback_for_session}
use bili_sync_play.Service.Profile.{get_room_state_for_session, update_profile_for_session}
use bili_sync_play.Service.Share.{share_video_for_session}
use bili_sync_play.Messages.{Hooks, RoomService}

-- The store answers every call, so that the hooks succeed.
abbrev pub app_hooks : Hooks
app_hooks = record {
  on_room_joined = λ session code s. (
    with_runtime s (mark_session_joined_room session.id code (register_session session s.runtime)),
    true,
  );
  on_room_left = λ session code s. (
    with_runtime s
        (mark_session_left_room session.id (some code) (register_session session s.runtime)),
    true,
  );
}

-- The configuration of one message's calls, with their readings, waits and random tokens, the trim of
-- a name, and the fuel of the wait for the join lock.
pub record Wiring : Type 0 where
  pub create : CreateContext
  pub join : JoinContext
  pub leave : LeaveContext
  pub env : Env
  pub leave_env : Env
  pub lock_env : Env
  pub lock_tokens : ℕ → String
  pub fuel : ℕ
  pub dedup_token : String
  pub trim : String → String
  pub normalize : String → Option String

abbrev pub trimmed : Wiring → Option String → Option String
trimmed w none = none
trimmed w (some name) = some (w.trim name)

-- A wait that outlasts its fuel has no answer; it does not occur with the fuel that is enough.
abbrev pub answered :
    Service × Session × Option (Result JoinAnswer) → Service × Session × Result JoinAnswer
answered (s, session, none) = (s, session, err internal_error)
answered (s, session, some answer) = (s, session, answer)

abbrev pub app_service : Wiring → RoomService
app_service w = record {
  create_room = λ session name s. create_room_for_session w.create w.env session (trimmed w name) s;
  join_room = λ session request name s. answered (
      join_room_for_session w.join w.leave w.lock_env w.leave_env w.env w.lock_tokens w.fuel session
        request (trimmed w name) s);
  leave_room = λ reason session s. leave_current_room w.leave w.leave_env reason session s;
  share_video = λ session token video playback s.
      share_video_for_session w.env session token video playback w.dedup_token s;
  update_playback = λ session token playback s.
      update_playback_for_session w.normalize w.env session token playback w.dedup_token s;
  update_profile =
      λ session token name s. update_profile_for_session w.env session token (some (w.trim name)) s;
  get_room_state = λ session token s. get_room_state_for_session w.env session token s;
}

seated-register :
    (session : Session) (rt : Runtime) (code x : String)
    → seated (register_session session rt) code x ≡ seated rt code x
unfolding register_session
seated-register session rt code x = refl

-- The hook of a join puts the session into the index under its new room and takes it out of every
-- other room; nobody else moves.
pub on_room_joined-seated :
    (session : Session) (code : String) (s : Service) (other x : String)
    → let (s', done) = app_hooks.on_room_joined session code s in
      (done ≡ true)
      × (seated s'.runtime other x
          ≡ (if same session.id x then same code other else seated s.runtime other x))
unfolding register_session
on_room_joined-seated session code s other x =
    let rt = register_session session s.runtime in
    let known : Dict.get session.id rt.sessions_by_id ≡ some session =
      Dict.get-put_self session.id session s.runtime.sessions_by_id in
    (refl, mark_session_joined_room-seated session.id code rt session known other x)
