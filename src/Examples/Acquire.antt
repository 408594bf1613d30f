-- ===== src/Examples/Acquire.antt =====
-- An acquire marker that is admitted in time, on the database in memory.
use redis_rate_limiter.Prelude.{◌+◌, ◌<◌, ◌≡◌, refl, true, false, some}
use redis_rate_limiter.Prelude.Int.{pos, ◌-ℤ◌}
use redis_rate_limiter.Prelude.Decimal.{decimal}
use redis_rate_limiter.Keys.{key_of}
use redis_rate_limiter.Redis.SortedSet.{insert, remove, drop_through}
use redis_rate_limiter.Window.{below_limit, estimated_count, reset_in_ms, remaining_tokens}
use redis_rate_limiter.Scripts.Consume.{consume_script}
use redis_rate_limiter.Prelude.Text.{Text}
use redis_rate_limiter.Redis.Memory.{memory}
use redis_rate_limiter.Limiter.Acquire.{lifecycle, await_signal}
use redis_rate_limiter.Limiter.Acquire.InTime.{consume_in_time}
use redis_rate_limiter.Limiter.Consume.{ConsumeResult, consume}
use redis_rate_limiter.Scripts.Clock.{now_ms}
use redis_rate_limiter.Scripts.Task.{Task, acquire_marker_path, is_marker}
use redis_rate_limiter.Examples.Data.{limiter, noon, job, waiting, read_task}

-- The one task that waits, as a marker with five seconds.
abbrev read_marker : Text → Task
read_marker raw = record (read_task raw) {
  func_path = acquire_marker_path;
  acquire_timeout_ms = some 5000;
}

abbrev admitted_job : ConsumeResult
admitted_job = record {
  success = true;
  expired = false;
  marker_skipped = false;
  yielded = false;
  task = some (read_marker job);
  remaining_tokens = pos 4;
  active_concurrency = 1;
  reset_in_ms = 750;
  remaining_tasks = 0;
  val_previous = 0;
  val_current = 1;
}

consume_in_time_example :
    (now_ms noon < 999000 + 5000)
    × ((await_signal memory limiter job (consume memory read_marker noon limiter waiting).0).1
        ≡ lifecycle job)
unfolding is_marker acquire_marker_path consume consume_script key_of below_limit estimated_count
    decimal now_ms drop_through insert remove ◌-ℤ◌ reset_in_ms remaining_tokens
consume_in_time_example =
    consume_in_time memory read_marker noon limiter admitted_job (read_marker job) 5000 waiting refl
      refl refl refl
