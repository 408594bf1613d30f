-- ===== src/Drain.antt =====
-- `drain` and `_drain_inner` of AbstractDistributedRateLimiter
-- (src/redis_rate_limiter/core/limiters.py). What they ask of the drain loop and of the execution
-- backend is their list of actions.
pub mod Backoff
pub mod Progress
use redis_rate_limiter.Prelude.{
  ℕ, zero, suc, ◌+◌, ◌-◌, ◌*◌, ◌/◌, ◌^◌, Bool, true, false, not, ◌||◌, Option, none, some, List, [],
  ◌∷◌, ◌++◌, ltb, leb, min, ◌==◌, if◌then◌else◌,
}
use redis_rate_limiter.Prelude.Int.{ℤ, pos, leb_ℤ}
use redis_rate_limiter.Prelude.Text.{Text}
use redis_rate_limiter.Redis.{Redis}
use redis_rate_limiter.Window.{Delay, calculate_token_recovery_delay}
use redis_rate_limiter.Limiter.{Limiter, token_interval}
use redis_rate_limiter.Limiter.Jitter.{calculate_smart_jitter}
use redis_rate_limiter.Limiter.Consume.{ConsumeResult, consume}
use redis_rate_limiter.Scripts.Clock.{Time}
use redis_rate_limiter.Scripts.Task.{Task, is_marker}

pub data Action : Type 0 where
  -- self._schedule_drain(delay)
  schedule_drain : Delay → Action
  -- self._dispatch_task(...)
  dispatch_task : Task → Action

abbrev pub at_once : Delay
at_once = record { num = 0; den = 1 }

-- What was asked for, and whether an exception ended it.
pub record Drained : Type 0 where
  pub actions : List Action
  pub raised : Bool

abbrev pub done : List Action → Drained
done actions = record { actions = actions; raised = false }

-- A draw of random.random() is roll / sides.
pub record Draw : Type 0 where
  pub roll : ℕ
  pub sides : ℕ

abbrev pub add_delay : Delay → Delay → Delay
add_delay a b = record { num = a.num * b.den + b.num * a.den; den = a.den * b.den }

-- round(max(0.001, delay), 3), in whole milliseconds; a tie goes up
unfoldable pub round_delay : Delay → ℕ
round_delay d = if ltb d.num d.den then 1 else (2 * d.num + d.den) / (2 * d.den)

-- The delay of the rate-limited branch.
unfoldable pub retry_delay : Limiter → Draw → ConsumeResult → ℕ
unfolding round_delay
retry_delay l draw r =
    let base =
      calculate_token_recovery_delay l.window_ms l.limit r.val_previous r.val_current
        r.reset_in_ms in
    let is_fallback = leb r.val_previous 0 || leb l.limit r.val_current in
    let jitter =
      if is_fallback
      then calculate_smart_jitter l r.remaining_tasks r.active_concurrency draw.roll draw.sides
      else at_once in
    round_delay (add_delay base jitter)

-- The success branch: `accepts` tells whether the backend takes the task without raising.
unfoldable pub dispatch : (Task → Bool) → Option Task → ℕ → Drained
dispatch accepts none remaining_tasks = record { actions = []; raised = true }
dispatch accepts (some task) remaining_tasks =
    let follow_up = if ltb 0 remaining_tasks then schedule_drain at_once ∷ [] else [] in
    if is_marker task
    then done follow_up
    else if accepts task
    then done (dispatch_task task ∷ follow_up)
    else record { actions = dispatch_task task ∷ []; raised = true }

-- _drain_inner after consume()
unfoldable pub after_consume : (Task → Bool) → Limiter → Draw → ConsumeResult → Drained
unfolding dispatch
after_consume accepts l draw r =
    if r.yielded
    then done (schedule_drain (token_interval l) ∷ [])
    else if r.success
    then dispatch accepts r.task r.remaining_tasks
    else if r.remaining_tasks == 0
    then done []
    else if leb l.max_concurrency r.active_concurrency
    then done []
    else if r.marker_skipped
    then (if ltb 0 r.remaining_tasks then done (schedule_drain at_once ∷ []) else done [])
    else if leb_ℤ r.remaining_tokens (pos 0)
    then done (schedule_drain (record { num = retry_delay l draw r; den = 1 }) ∷ [])
    else done []

-- min(self.window, 0.1 * 2 ** (failures - 1)), with `failures` already raised
unfoldable pub backoff_delay : Limiter → ℕ → ℕ
backoff_delay l failures = min l.window_ms (100 * 2 ^ (failures - 1))

-- The end of `drain`: the failure count, and the recovery that a failure schedules.
unfoldable pub settle : Limiter → Drained → Limiter × List Action
unfolding backoff_delay
settle l d =
    let failures = suc l.consecutive_drain_failures in
    if d.raised
    then (
      record l { consecutive_drain_failures = failures },
      d.actions ++ schedule_drain (record { num = backoff_delay l failures; den = 1 }) ∷ [],
    )
    else (record l { consecutive_drain_failures = 0 }, d.actions)

-- The clocks that one drain reads, in milliseconds, and the server's.
pub record Clocks : Type 0 where
  pub monotonic : ℕ
  pub wall : ℕ
  pub server : Time

module _ (R : Redis) (loads : Text → Task) (accepts : Task → Bool) where
  open R use {Db}

  unfoldable pub drain_inner : Time → Bool → Draw → Limiter → Db → Db × Drained
  unfolding after_consume
  drain_inner time has_local_capacity draw l db =
      if has_local_capacity
      then (let (db', result) = consume R loads time l db in
          (
            db',
            elim result [
              | none ↦ record { actions = []; raised = true }
              | some r ↦ after_consume accepts l draw r
            ],
          ))
      else (db, done (schedule_drain (token_interval l) ∷ []))

  -- From the pause on.
  unfoldable pub drain_unless_paused :
      Clocks → Bool → Draw → Limiter → Db → Db × Limiter × List Action
  unfolding drain_inner settle
  drain_unless_paused clocks has_local_capacity draw l db =
      if ltb clocks.wall l.drain_paused_until
      then (
        db,
        l,
        schedule_drain (record { num = l.drain_paused_until - clocks.wall; den = 1 }) ∷ [],
      )
      else (let (db', d) = drain_inner clocks.server has_local_capacity draw l db in
          let (l', actions) = settle l d in (db', l', actions))

  -- `refresh` is refresh_config: the limiter with the newest configuration, or `none` if it raised.
  unfoldable pub drain :
      (Limiter → Option Limiter) → Clocks → Bool → Draw → Limiter → Db → Db × Limiter × List Action
  unfolding drain_unless_paused
  drain refresh clocks has_local_capacity draw l db =
      let stamped = record l { last_refresh_at = clocks.monotonic } in
      if leb 1000 (clocks.monotonic - l.last_refresh_at)
      then elim (refresh stamped) [
        | none ↦
            (let (l', actions) = settle stamped (record { actions = []; raised = true }) in
              (db, l', actions))
        | some fresh ↦ drain_unless_paused clocks has_local_capacity draw fresh db
      ]
      else drain_unless_paused clocks has_local_capacity draw l db
