-- ===== src/Service/Resolve/Retry.antt =====
-- What a retried action has done when it answers: theorems on with_version_retry of
-- Service/Resolve.antt.
use bili_sync_play.Prelude.{Option, String, arith, none, refl, some, suc, zero, ℕ, ◌≡◌}
use bili_sync_play.RoomStore.{PersistedRoom, get_room}
use bili_sync_play.Service.State.{Env, Result, Service, err, later, ok}
use bili_sync_play.Service.Resolve.{resolve_room, with_version_retry}
use bili_sync_play.Service.Resolve.Laws.{resolve_room-live}

module _ {ℓ} {A : Type ℓ} (code : String)
    (action : Env → PersistedRoom → Service → Service × Result (Option A)) where
  -- One run of the action, on a room that stands in the store under the code, ended with this
  -- outcome.
  abbrev pub IsRun : Service × Result (Option A) → Type ℓ
  IsRun outcome =
      (env : Env) × (room : PersistedRoom) × (s : Service) × (get_room code s.rooms ≡ some room)
      × (action env room s ≡ outcome)

  step :
      (n : ℕ) (env : Env) (s : Service) (a : A)
      → (r : Result (Option PersistedRoom)) → (resolve_room env code s).1 ≡ r
      → ((room : PersistedRoom)
          → let s' = (action env room (resolve_room env code s).0).0 in
            (with_version_retry n (later 10 env) code action s').1 ≡ ok (some a)
            → IsRun (with_version_retry n (later 10 env) code action s'))
      → (with_version_retry (suc n) env code action s).1 ≡ ok (some a)
      → IsRun (with_version_retry (suc n) env code action s)
  unfolding with_version_retry
  step n env s a (err e) q rest h = absurd (ground arith)
  step n env s a (ok none) q rest h = absurd (ground arith)
  step n env s a (ok (some room)) q rest h =
      ran (action env room (resolve_room env code s).0).1 refl
    where
      ran :
          (r : Result (Option A))
          → (action env room (resolve_room env code s).0).1 ≡ r
          → IsRun (with_version_retry (suc n) env code action s)
      ran (err e) p = absurd (ground arith)
      ran (ok none) p =
          let (env', room', s', held, same_run) = rest room (ground arith) in
          (env', room', s', held, ground arith)
      ran (ok (some b)) p = (
        env,
        room,
        (resolve_room env code s).0,
        (resolve_room-live env code s room q).0,
        ground arith,
      )

  -- A result comes from one run of the action, which is the last thing that was done, on a room
  -- that stood in the store under the code when the run began.
  pub with_version_retry-runs :
      (attempts : ℕ) (env : Env) (s : Service) (a : A)
      → (with_version_retry attempts env code action s).1 ≡ ok (some a)
      → IsRun (with_version_retry attempts env code action s)
  unfolding with_version_retry
  with_version_retry-runs zero env s a h = absurd (ground arith)
  with_version_retry-runs (suc n) env s a h =
      step n env s a (resolve_room env code s).1 refl
        (λ room.
          with_version_retry-runs n (later 10 env) (action env room (resolve_room env code s).0).0
            a)
        h
