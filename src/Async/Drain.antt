-- ===== src/Async/Drain.antt =====
-- `drain` and `_drain_inner` of AbstractAsyncDistributedRateLimiter
-- (src/redis_rate_limiter/core/async_limiters.py). The limiter object is a part of what the coroutines
-- share: another one may change it while this one waits.
pub mod Agreement
use redis_rate_limiter.Prelude.{
  ℕ, suc, ◌-◌, ◌*◌, ◌^◌, min, ◌==◌, Bool, true, false, Option, none, some, List, [], ◌∷◌, ◌++◌, ltb,
  leb, if◌then◌else◌,
}
use redis_rate_limiter.Prelude.Int.{pos, leb_ℤ}
use redis_rate_limiter.Window.{calculate_token_recovery_delay}
use redis_rate_limiter.Limiter.Jitter.{calculate_smart_jitter}
use redis_rate_limiter.Prelude.Text.{Text}
use redis_rate_limiter.Redis.{Redis}
use redis_rate_limiter.Limiter.{Limiter, token_interval}
use redis_rate_limiter.Limiter.Consume.{ConsumeResult, consume}
use redis_rate_limiter.Scripts.Clock.{Time}
use redis_rate_limiter.Scripts.Task.{Task, is_marker}
use redis_rate_limiter.Drain.{
  Action, schedule_drain, dispatch_task, at_once, Draw, Clocks, round_delay, add_delay,
}
use redis_rate_limiter.Async.{Co, done, step, ◌>>=◌}

pub record Draining (R : Redis) : Type 0 where
  pub db : R.Db
  pub limiter : Limiter
  pub actions : List Action

-- The delay of the rate-limited branch: the calculations are those of DistributedRateLimiterMixin, which
-- both limiters share.
unfoldable pub retry_delay_async : Limiter → Draw → ConsumeResult → ℕ
unfolding round_delay
retry_delay_async l draw r =
    let base_delay =
      calculate_token_recovery_delay l.window_ms l.limit r.val_previous r.val_current
        r.reset_in_ms in
    let jitter =
      if leb r.val_previous 0
      then calculate_smart_jitter l r.remaining_tasks r.active_concurrency draw.roll draw.sides
      else if leb l.limit r.val_current
      then calculate_smart_jitter l r.remaining_tasks r.active_concurrency draw.roll draw.sides
      else at_once in
    round_delay (add_delay base_delay jitter)

-- What _drain_inner asks for when nothing was admitted and it has not yielded.
unfoldable pub stop_actions : Limiter → Draw → ConsumeResult → List Action
unfolding retry_delay_async
stop_actions l draw r =
    if r.remaining_tasks == 0
    then []
    else if leb l.max_concurrency r.active_concurrency
    then []
    else if r.marker_skipped
    then (if ltb 0 r.remaining_tasks then schedule_drain at_once ∷ [] else [])
    else if leb_ℤ r.remaining_tokens (pos 0)
    then schedule_drain (record { num = retry_delay_async l draw r; den = 1 }) ∷ []
    else []

module _ {R : Redis} where
  -- self._schedule_drain(...) and `await self._dispatch_task(...)`
  unfoldable pub ask : {A : Type 0} → List Action → Co (Draining R) A → Co (Draining R) A
  ask actions next = step (λ s. record s { actions = s.actions ++ actions }) (λ s. next)

  -- The success branch, and whether it raised: `accepts` tells whether the backend takes the task.
  unfoldable pub dispatch_async : (Task → Bool) → Option Task → ℕ → Co (Draining R) Bool
  unfolding ask
  dispatch_async accepts none remaining_tasks = done true
  dispatch_async accepts (some task) remaining_tasks =
      let follow_up = if ltb 0 remaining_tasks then schedule_drain at_once ∷ [] else [] in
      if is_marker task
      then ask follow_up (done false)
      else ask (dispatch_task task ∷ [])
          (if accepts task then ask follow_up (done false) else done true)

  -- The branches of _drain_inner that neither yield nor succeed. They do not wait.
  unfoldable pub conclude : Draw → ConsumeResult → Co (Draining R) Bool
  unfolding stop_actions
  conclude draw r =
      step (λ s. record s { actions = s.actions ++ stop_actions s.limiter draw r })
        (λ s. done false)

  unfoldable pub after_consume_async : (Task → Bool) → Draw → ConsumeResult → Co (Draining R) Bool
  unfolding dispatch_async conclude
  after_consume_async accepts draw r =
      if r.yielded
      then step
          (λ s. record s { actions = s.actions ++ schedule_drain (token_interval s.limiter) ∷ [] })
          (λ s. done false)
      else if r.success
      then dispatch_async accepts r.task r.remaining_tasks
      else conclude draw r

  unfoldable pub after_reply : (Task → Bool) → Draw → Option ConsumeResult → Co (Draining R) Bool
  unfolding after_consume_async
  after_reply accepts draw none = done true
  after_reply accepts draw (some r) = after_consume_async accepts draw r

  -- The end of `drain`: `except Exception`, with min(self.window, 0.1 * (2 ** (failures - 1))), or the
  -- reset behind _drain_inner.
  unfoldable pub settle_async : Bool → Co (Draining R) (Unit {0})
  settle_async true =
      step
        (λ s.
          let failures = suc s.limiter.consecutive_drain_failures in
          let delay = min s.limiter.window_ms (2 ^ (failures - 1) * 100) in
          record s {
            limiter = record s.limiter { consecutive_drain_failures = failures };
            actions = s.actions ++ schedule_drain (record { num = delay; den = 1 }) ∷ [];
          })
        (λ s. done tt)
  settle_async false =
      step (λ s. record s { limiter = record s.limiter { consecutive_drain_failures = 0 } })
        (λ s. done tt)

module _ (R : Redis) (loads : Text → Task) (accepts : Task → Bool) where
  unfoldable pub drain_inner_async : Time → Bool → Draw → Co (Draining R) Bool
  unfolding after_reply ask
  drain_inner_async time has_local_capacity draw =
      if has_local_capacity
      then step (λ s. record s { db = (consume R loads time s.limiter s.db).0 })
          (λ s. after_reply accepts draw (consume R loads time s.limiter s.db).1)
      else step
          (λ s. record s { actions = s.actions ++ schedule_drain (token_interval s.limiter) ∷ [] })
          (λ s. done false)

  -- From the pause on.
  unfoldable pub drain_unless_paused_async : Clocks → Bool → Draw → Co (Draining R) (Unit {0})
  unfolding drain_inner_async settle_async ask ◌>>=◌
  drain_unless_paused_async clocks has_local_capacity draw =
      step (λ s. s)
        (λ s.
          if ltb clocks.wall s.limiter.drain_paused_until
          then ask
              (schedule_drain (record { num = s.limiter.drain_paused_until - clocks.wall; den = 1 })
                ∷ [])
              (done tt)
          else drain_inner_async clocks.server has_local_capacity draw >>= settle_async)

  -- After refresh_config, which says whether it raised.
  unfoldable pub after_refresh : Clocks → Bool → Draw → Bool → Co (Draining R) (Unit {0})
  unfolding drain_unless_paused_async settle_async
  after_refresh clocks has_local_capacity draw true = settle_async true
  after_refresh clocks has_local_capacity draw false =
      drain_unless_paused_async clocks has_local_capacity draw

  unfoldable pub drain_async :
      Co (Draining R) Bool → Clocks → Bool → Draw → Co (Draining R) (Unit {0})
  unfolding after_refresh drain_unless_paused_async ◌>>=◌
  drain_async refresh_config clocks has_local_capacity draw =
      step
        (λ s.
          if leb 1000 (clocks.monotonic - s.limiter.last_refresh_at)
          then record s { limiter = record s.limiter { last_refresh_at = clocks.monotonic } }
          else s)
        (λ s.
          if leb 1000 (clocks.monotonic - s.limiter.last_refresh_at)
          then refresh_config >>= after_refresh clocks has_local_capacity draw
          else drain_unless_paused_async clocks has_local_capacity draw)
