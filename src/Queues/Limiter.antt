-- ===== src/Queues/Limiter.antt =====
-- server/src/concurrency-limiter.ts, createConcurrencyLimiter. A caller is a number; `acquire` tells
-- whether it has its slot at once, `release` to whom the slot goes.
use bili_sync_play.Prelude.{
  Bool, List, Option, [], false, if◌then◌else◌, ltb, none, some, true, ℕ, ◌++◌, ◌+◌, ◌-◌, ◌∷◌,
}
pub mod Fair

pub record Limiter : Type 0 where
  pub active : ℕ
  pub waiters : List ℕ

unfoldable pub acquire : ℕ → ℕ → Limiter → Limiter × Bool
acquire max_concurrent caller l =
    if ltb l.active max_concurrent
    then (record l { active = l.active + 1 }, true)
    else (record l { waiters = l.waiters ++ (caller ∷ []) }, false)

-- `waiters.shift()`, and the slot goes on to it; or one slot less is in use.
unfoldable pub release : Limiter → Limiter × Option ℕ
release l = elim l.waiters [
  | [] ↦ (record l { active = l.active - 1 }, none)
  | next ∷ rest ↦ (record l { waiters = rest }, some next)
]
