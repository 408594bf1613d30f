-- ===== src/Drain/Progress.antt =====
-- When a drain asks to be called again.
use redis_rate_limiter.Prelude.{
  ◌≤◌, ◌≡◌, ◌⊎◌, Bool, true, false, Option, none, some, List, [], ◌∷◌, arith,
}
use redis_rate_limiter.Prelude.Int.{pos, ◌≤ℤ◌}
use redis_rate_limiter.Prelude.Text.{Text}
use redis_rate_limiter.Redis.{Redis}
use redis_rate_limiter.Limiter.{Limiter}
use redis_rate_limiter.Limiter.Consume.{ConsumeResult, read_reply}
use redis_rate_limiter.Scripts.Task.{Task}
use redis_rate_limiter.Scripts.Consume.{Reply}
use redis_rate_limiter.Drain.{Action, schedule_drain, dispatch_task, Draw, after_consume}

abbrev pub schedules : List Action → Bool
schedules [] = false
schedules (schedule_drain delay ∷ actions) = true
schedules (dispatch_task task ∷ actions) = schedules actions

-- The results after which a drain may leave the limiter to other wake-ups: an empty buffer, no free
-- concurrency slot (a release will wake it), or an expired task while tokens are left.
abbrev pub MayRest : Limiter → ConsumeResult → Type 0
MayRest l r =
    (r.remaining_tasks ≡ 0)
    ⊎ (l.max_concurrency ≤ r.active_concurrency)
    ⊎ ((r.expired ≡ true) × (pos 1 ≤ℤ r.remaining_tokens))

module _ (R : Redis) (loads : Text → Task) (accepts : Task → Bool) (l : Limiter) (draw : Draw) where
  abbrev pub Follows : ConsumeResult → Type 0
  Follows r =
      ((after_consume accepts l draw r).raised ≡ true)
      ⊎ (schedules (after_consume accepts l draw r).actions ≡ true)
      ⊎ MayRest l r

  read_replies : Option Reply → Option ConsumeResult
  read_replies none = none
  read_replies (some reply) = some (read_reply R loads reply)

  -- What consume.lua documents as "the caller should retry" is not retried while tokens are left.
  pub expired_rests :
      (r : ConsumeResult)
      → r.yielded ≡ false
      → r.success ≡ false
      → r.marker_skipped ≡ false
      → r.expired ≡ true
      → pos 1 ≤ℤ r.remaining_tokens
      → after_consume accepts l draw r ≡ record { actions = []; raised = false }
  unfolding after_consume
  expired_rests r y s m e h = ground arith
