-- ===== src/Examples/Scripts.antt =====
-- The scripts, run on the database in memory.
use redis_rate_limiter.Prelude.{
  ◌+◌, ◌*◌, ◌≤◌, ◌<◌, ◌≡◌, ◌↔◌, ◌⊎◌, refl, arith, false, [], ◌∷◌, length,
}
use redis_rate_limiter.Prelude.Int.{pos, sub_ℕ}
use redis_rate_limiter.Prelude.Text.{Text, same}
use redis_rate_limiter.Keys.{window_key, key_of}
use redis_rate_limiter.Redis.{Redis}
use redis_rate_limiter.Redis.Memory.{Table, empty, memory}
use redis_rate_limiter.Redis.SortedSet.{drop_through, insert, remove, score}
use redis_rate_limiter.Window.{current_window_start}
use redis_rate_limiter.Limiter.Consume.{arguments_of}
use redis_rate_limiter.Scripts.Clock.{now_ms}
use redis_rate_limiter.Scripts.Acquire.{read_count, acquire_script}
use redis_rate_limiter.Scripts.Acquire.Laws
use redis_rate_limiter.Scripts.Acquire.Runs.{acquire_all, acquire_all_limit}
use redis_rate_limiter.Scripts.Consume.{consume_script}
use redis_rate_limiter.Scripts.Consume.Steps.{keys_of, state}
use redis_rate_limiter.Scripts.Consume.Cases.{Outcome}
use redis_rate_limiter.Scripts.Consume.Outcomes.{consume_outcome}
use redis_rate_limiter.Scripts.Consume.Safety.{Kept, consume_concurrency, consume_keeps}
use redis_rate_limiter.Examples.Data.{api, limiter, noon, later_time, job, read_task, waiting}

acquire_script_lem_example :
    ((acquire_script memory noon api 1000 5 empty).1.allowed ≡ 1
      ↔ Laws.estimate memory noon api 1000 5 empty < 5 * 1000)
    × (read_count memory
          (Laws.key memory noon api 1000 5 empty)
          (acquire_script memory noon api 1000 5 empty).0
        ≡ read_count memory (Laws.key memory noon api 1000 5 empty) empty
          + (acquire_script memory noon api 1000 5 empty).1.allowed)
    × ((j : Text)
        → same (Laws.key memory noon api 1000 5 empty) j ≡ false
        → (acquire_script memory noon api 1000 5 empty).0 j ≡ empty j)
acquire_script_lem_example = Laws.acquire_script_lem memory noon api 1000 5 empty

-- One token of one, with half a request of the window before still counted.
abbrev half_used : Table
half_used = Redis.incr memory (window_key api 0) empty

acquire_all_limit_example :
    (read_count memory
        (window_key api 1000000)
        (acquire_all memory api 1000 1 (noon ∷ later_time ∷ []) empty).0
      ≡ read_count memory (window_key api 1000000) empty
        + (acquire_all memory api 1000 1 (noon ∷ later_time ∷ []) empty).1)
    × (read_count memory
          (window_key api 1000000)
          (acquire_all memory api 1000 1 (noon ∷ later_time ∷ []) empty).0
        ≤ 1)
unfolding current_window_start now_ms read_count
acquire_all_limit_example =
    acquire_all_limit memory api 1000 1 1000000 (noon ∷ later_time ∷ []) empty (omega arith)
      (refl, (refl, tt)) (omega arith)

consume_outcome_example :
    Outcome noon
      (arguments_of limiter)
      read_task
      (length (drop_through (sub_ℕ 1000 1) (state memory api waiting).leases))
      (record (state memory api waiting) {
        leases = drop_through (sub_ℕ 1000 1) (state memory api waiting).leases;
      })
      (state memory api
        (consume_script memory read_task noon (keys_of api) (arguments_of limiter) waiting).0)
      (consume_script memory read_task noon (keys_of api) (arguments_of limiter) waiting).1
unfolding state key_of insert remove
consume_outcome_example =
    consume_outcome memory api noon (arguments_of limiter) read_task waiting refl

consume_concurrency_example :
    (length
        (state memory api
          (consume_script memory read_task noon
            (keys_of api)
            (arguments_of limiter)
            waiting).0).leases
      ≤ length (state memory api waiting).leases)
    ⊎ (length
          (state memory api
            (consume_script memory read_task noon
              (keys_of api)
              (arguments_of limiter)
              waiting).0).leases
        ≤ 2)
unfolding state key_of insert remove
consume_concurrency_example =
    consume_concurrency memory api read_task noon (arguments_of limiter) waiting refl

consume_keeps_example :
    Kept noon
      (arguments_of limiter)
      read_task
      (state memory api waiting)
      (state memory api
        (consume_script memory read_task noon (keys_of api) (arguments_of limiter) waiting).0)
      (pos 0)
      job
unfolding state key_of insert remove score
consume_keeps_example =
    consume_keeps memory api read_task noon (arguments_of limiter) waiting refl (pos 0) job refl
