-- ===== src/Examples/System.antt =====
-- Processes that share one limiter, on the database in memory.
use redis_rate_limiter.Prelude.{
  ◌≤◌, refl, true, false, none, some, [], ◌∷◌, List, length, ◌≡◌, arith,
}
use redis_rate_limiter.Prelude.Int.{pos, ◌-ℤ◌}
use redis_rate_limiter.Prelude.Text.{codes}
use redis_rate_limiter.Keys.{key_of}
use redis_rate_limiter.Prelude.Decimal.{decimal}
use redis_rate_limiter.Redis.Memory.{empty, memory}
use redis_rate_limiter.Redis.SortedSet.{insert, remove, drop_through}
use redis_rate_limiter.Limiter.Consume.{ConsumeResult, consume}
use redis_rate_limiter.Window.{below_limit, estimated_count, reset_in_ms, remaining_tokens}
use redis_rate_limiter.Scripts.Clock.{now_ms}
use redis_rate_limiter.Scripts.Task.{is_marker}
use redis_rate_limiter.Redis.{Redis}
use redis_rate_limiter.Redis.Memory.{Table}
use redis_rate_limiter.Keys.{last_caller, last_consumer}
use redis_rate_limiter.Scripts.Consume.{consume_script}
use redis_rate_limiter.Scripts.Consume.Steps.{state}
use redis_rate_limiter.System.{Call, schedules, consumes, renews, exits, run}
use redis_rate_limiter.System.Refinement.{Owned}
use redis_rate_limiter.System.Safety.{IsSafe, run-IsSafe}
use redis_rate_limiter.System.Specification.{DoAll, run-DoAll}
use redis_rate_limiter.System.Chains.{AllTake-bounded}
use redis_rate_limiter.Examples.Data.{
  api, limiter, noon, later_time, job, read_task, waiting, codec,
}

-- One process schedules, another consumes, renews and releases.
abbrev calls : List (Call memory codec read_task)
calls =
    schedules true noon limiter (codes "f") 3 (pos 0) none
    ∷ consumes later_time limiter
    ∷ renews later_time limiter job 30
    ∷ exits limiter job
    ∷ []

run-DoAll_example :
    DoAll memory codec read_task api calls
      (state memory api empty)
      (state memory api (run memory codec read_task calls empty))
unfolding state key_of
run-DoAll_example =
    run-DoAll memory codec read_task api 2 calls empty
      ((refl, refl), ((refl, omega arith), (refl, (refl, tt))))
      (record { within = omega arith; owned = tt })

run-IsSafe_example :
    IsSafe 2
      (Owned memory codec read_task api 2)
      (state memory api (run memory codec read_task calls empty))
unfolding state key_of
run-IsSafe_example =
    run-IsSafe memory codec read_task api 2 calls empty
      ((refl, refl), ((refl, omega arith), (refl, (refl, tt))))
      (record { within = omega arith; owned = tt })

-- What consume gives at noon for the task that waits.
abbrev got : ConsumeResult
got = record {
  success = true;
  expired = false;
  marker_skipped = false;
  yielded = false;
  task = some (read_task job);
  remaining_tokens = pos 4;
  active_concurrency = 1;
  reset_in_ms = 750;
  remaining_tasks = 0;
  val_previous = 0;
  val_current = 1;
}

taken : (consume memory read_task noon limiter waiting).1 ≡ some got
unfolding consume consume_script key_of below_limit estimated_count decimal now_ms drop_through
    insert remove is_marker ◌-ℤ◌ reset_in_ms remaining_tokens
taken = refl

AllTake-bounded_example : 1 ≤ length (state memory api waiting).pending
unfolding state key_of insert remove
AllTake-bounded_example =
    AllTake-bounded memory read_task limiter (noon ∷ []) waiting (refl, tt) ((got, taken, refl), tt)

-- The worker w1 was the last to get a task, and w2 the last to ask.
abbrev w1_served : Table
w1_served =
    Redis.set_px memory (key_of api last_caller) (codes "w2") 12000 0
      (Redis.set_px memory (key_of api last_consumer) (codes "w1") 12000 0 waiting)
