-- ===== src/Limiter/Acquire.antt =====
-- `acquire` of AbstractDistributedRateLimiter (src/redis_rate_limiter/core/limiters.py), before and
-- after its wait: the marker is scheduled, and BLPOP takes the signal of consume.lua. The timeout is
-- in milliseconds; the payload, with its uuid4, is an argument.
pub mod Signals
pub mod Admission
pub mod InTime
use redis_rate_limiter.Prelude.{
  ℕ, ◌+◌, ◌/◌, Bool, true, false, not, Option, none, some, List, [], ◌∷◌, max, ◌==◌, if◌then◌else◌,
}
use redis_rate_limiter.Prelude.Int.{ℤ}
use redis_rate_limiter.Prelude.Text.{Text}
use redis_rate_limiter.Keys.{signal_key}
use redis_rate_limiter.Redis.{Redis}
use redis_rate_limiter.Limiter.{Limiter}
use redis_rate_limiter.Limiter.Schedule.{Codec, Event, Scheduled, returned, raised, schedule_task}
use redis_rate_limiter.Scripts.Clock.{Time}
use redis_rate_limiter.Scripts.Task.{acquire_marker_path}

-- The TaskLifecycle that `acquire` returns, or what it raises.
pub data Acquired : Type 0 where
  lifecycle : Text → Acquired
  -- ValueError, RuntimeError (twice), AcquireTimeout, and an exception of schedule_task
  bad_timeout no_drain_loop rejected timed_out schedule_failed : Acquired

-- Where the call is after the marker is scheduled.
pub data Acquiring : Type 0 where
  waiting : Text → Acquiring
  ended : Acquired → Acquiring

-- max(1, math.ceil(timeout))
unfoldable pub marker_max_age : ℕ → ℕ
marker_max_age timeout_ms = max 1 ((timeout_ms + 999) / 1000)

unfoldable pub after_schedule : Scheduled → Acquiring
after_schedule (returned true task_id) = waiting task_id
after_schedule (returned false task_id) = ended rejected
after_schedule raised = ended schedule_failed

module _ (R : Redis) where
  open R use {Db, view, lpop}

  unfoldable pub acquire_marker :
      (C : Codec) → Bool → Time → Limiter → ℕ → C.Payload → ℤ → Db → Db × Acquiring × List Event
  unfolding acquire_marker_path marker_max_age after_schedule
  acquire_marker C works time l timeout_ms payload priority db =
      let (db', scheduled, events) =
        schedule_task R C works time l acquire_marker_path payload priority
          (some (marker_max_age timeout_ms)) db in
      if timeout_ms == 0
      then (db, ended bad_timeout, [])
      else if not l.drain_enabled
      then (db, ended no_drain_loop, [])
      else (db', after_schedule scheduled, events)

  unfoldable pub popped : Text → Db → List Text → Db × Acquired
  popped task_id after [] = (after, timed_out)
  popped task_id after (signal ∷ later) = (after, lifecycle task_id)

  -- BLPOP, at the moment it ends: with an element, or at the timeout.
  unfoldable pub await_signal : Limiter → Text → Db → Db × Acquired
  unfolding popped
  await_signal l task_id db =
      let key = signal_key l.id task_id in popped task_id (lpop key db) (view db key).list
