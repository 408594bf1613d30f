-- ===== src/Examples/Limiters.antt =====
-- One limiter: its configuration, its scheduling and its drain.
use redis_rate_limiter.Prelude.{arith, ◌≡◌, refl, true, false, none, some, [], ◌∷◌, if◌then◌else◌}
use redis_rate_limiter.Prelude.Int.{pos}
use redis_rate_limiter.Prelude.Text.{Text, same, codes}
use redis_rate_limiter.Keys.{key_of, buffer, concurrency, drain_signal}
use redis_rate_limiter.Redis.{Redis, is_absent}
use redis_rate_limiter.Redis.Memory.{Table, empty, memory}
use redis_rate_limiter.Redis.SortedSet.{score}
use redis_rate_limiter.Limiter.{Limiter, get_inflight_ttl}
use redis_rate_limiter.Scripts.Clock.{Time, now_ms}
use redis_rate_limiter.Limiter.Schedule.{
  publish, wake, returned, raised, task_id_of, script_max_age, get_task_data_str, exit_lifecycle,
}
use redis_rate_limiter.Limiter.Schedule.Deduplication.{
  task_id, marker, outcome, schedule_task_failed, schedule_task_fresh, schedule_task_twice,
  schedule_task_again, exit_lifecycle_lem,
}
use redis_rate_limiter.Scripts.Task.{Task}
use redis_rate_limiter.Scripts.Lease.{stored_task}
use redis_rate_limiter.Drain.{Drained}
use redis_rate_limiter.Examples.Data.{api, limiter, noon, later_time, read_task, codec}

abbrev slower : Limiter
slower = record limiter { limit = 3; window_ms = 2000 }

abbrev first : Table
first = (outcome memory codec limiter (codes "f") 3 true noon (pos 0) none empty).0

abbrev f3 : Text
f3 = marker memory codec limiter (codes "f") 3

abbrev much_later : Time
much_later = record { seconds = 9000000; micros = 0 }

-- What the server has of it half a second later, and after the marker's time.
abbrev soon : Table
soon = Redis.pass memory (now_ms later_time) first

abbrev late : Table
late = Redis.pass memory (now_ms much_later) first

schedule_task_twice_example :
    ((outcome memory codec limiter (codes "f") 3 true noon (pos 0) none empty).1
      ≡ returned true (task_id memory codec limiter (codes "f") 3))
    × ((outcome memory codec limiter (codes "f") 3 true later_time (pos 9) (some 5) soon).1
        ≡ returned false (task_id memory codec limiter (codes "f") 3))
    × ((j : Text)
        → (outcome memory codec limiter (codes "f") 3 true later_time (pos 9) (some 5) soon).0 j
          ≡ soon j)
unfolding now_ms get_inflight_ttl
schedule_task_twice_example =
    schedule_task_twice memory codec limiter (codes "f") 3 noon later_time (pos 0) (pos 9) none
      (some 5) true empty refl (omega arith)

schedule_task_again_example :
    ((outcome memory codec limiter (codes "f") 3 true much_later (pos 9) (some 5) late).1
      ≡ returned true (task_id memory codec limiter (codes "f") 3))
    × (score
          (stored_task much_later
            (get_task_data_str codec limiter
              (task_id memory codec limiter (codes "f") 3)
              (codes "f")
              3)
            (script_max_age (some 5)))
          ((outcome memory codec limiter (codes "f") 3 true much_later (pos 9) (some 5) late).0
            (key_of api buffer)).zset
        ≡ some (pos 9))
unfolding now_ms get_inflight_ttl
schedule_task_again_example =
    schedule_task_again memory codec limiter (codes "f") 3 noon much_later (pos 0) (pos 9) none
      (some 5) empty refl (omega arith)

schedule_task_failed_example :
    ((outcome memory codec limiter (codes "f") 3 false noon (pos 0) none empty).1 ≡ raised)
    × (is_absent ((outcome memory codec limiter (codes "f") 3 false noon (pos 0) none empty).0 f3)
        ≡ true)
    × ((j : Text)
        → same f3 j ≡ false
        → (outcome memory codec limiter (codes "f") 3 false noon (pos 0) none empty).0 j ≡ empty j)
schedule_task_failed_example =
    schedule_task_failed memory codec limiter (codes "f") 3 false noon (pos 0) none empty refl refl

schedule_task_fresh_example :
    ((outcome memory codec limiter (codes "f") 3 true noon (pos 0) none empty).1
      ≡ returned true (task_id memory codec limiter (codes "f") 3))
    × (is_absent (first f3) ≡ false)
    × ((m : Text)
        → score m (first (key_of api buffer)).zset ≡ (
            if same m (
              stored_task noon
                (get_task_data_str codec limiter
                  (task_id memory codec limiter (codes "f") 3)
                  (codes "f")
                  3)
                (script_max_age none))
            then some (pos 0)
            else score m []))
    × ((j : Text) → same f3 j ≡ false → same (key_of api buffer) j ≡ false → first j ≡ empty j)
schedule_task_fresh_example =
    schedule_task_fresh memory codec limiter (codes "f") 3 true noon (pos 0) none empty refl refl

exit_lifecycle_lem_example :
    let (db', released, events) =
      exit_lifecycle memory limiter (task_id memory codec limiter (codes "f") 3) first in
    (score (task_id memory codec limiter (codes "f") 3) (db' (key_of api concurrency)).zset ≡ none)
    × (is_absent (db' f3) ≡ true)
    × (events ≡ publish (key_of api drain_signal) (codes "w1") ∷ wake ∷ [])
    × ((j : Text) → same f3 j ≡ false → same (key_of api concurrency) j ≡ false → db' j ≡ first j)
unfolding task_id_of
exit_lifecycle_lem_example = exit_lifecycle_lem memory codec limiter (codes "f") 3 first refl

abbrev failed : Drained
failed = record { actions = []; raised = true }

abbrev paused : Limiter
paused = record limiter { drain_paused_until = 5000 }

abbrev marker_task : Task
marker_task = record (read_task (codes "m1")) { acquire_timeout_ms = some 500 }
