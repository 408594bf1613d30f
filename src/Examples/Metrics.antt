-- ===== src/Examples/Metrics.antt =====
-- A measured run of consume, on the database in memory.
use redis_rate_limiter.Prelude.{◌≡◌, refl, true, false, some, [], ◌∷◌, ◌++◌, length}
use redis_rate_limiter.Prelude.Int.{pos, sub_ℕ}
use redis_rate_limiter.Keys.{key_of}
use redis_rate_limiter.Prelude.Int.{pos, ◌-ℤ◌}
use redis_rate_limiter.Prelude.Decimal.{decimal}
use redis_rate_limiter.Window.{below_limit, estimated_count, reset_in_ms, remaining_tokens}
use redis_rate_limiter.Scripts.Consume.{consume_script}
use redis_rate_limiter.Redis.Memory.{memory}
use redis_rate_limiter.Redis.SortedSet.{drop_through, insert, remove}
use redis_rate_limiter.Limiter.Consume.{ConsumeResult, consume}
use redis_rate_limiter.Scripts.Clock.{now_ms}
use redis_rate_limiter.Scripts.Task.{is_marker}
use redis_rate_limiter.Scripts.Consume.Steps.{state}
use redis_rate_limiter.Metrics.{
  consume_measured, outcome_of, metric_of, call_exporter, consume_total, set_remaining_tokens,
  set_active_concurrency, set_buffer_depth,
}
use redis_rate_limiter.Metrics.Meaning.{Means}
use redis_rate_limiter.Metrics.Consumed.{consume_measured-Means}
use redis_rate_limiter.Examples.Data.{api, limiter, noon, job, waiting, read_task}

abbrev leased_job : ConsumeResult
leased_job = record {
  success = true;
  expired = false;
  marker_skipped = false;
  yielded = false;
  task = some (read_task job);
  remaining_tokens = pos 4;
  active_concurrency = 1;
  reset_in_ms = 750;
  remaining_tasks = 0;
  val_previous = 0;
  val_current = 1;
}

consume_measured-Means_example :
    let live = drop_through (sub_ℕ 1000 1) (state memory api waiting).leases in
    let label = outcome_of (metric_of leased_job) in
    let ((after, made), _) =
      consume_measured memory read_task
        (some (λ e u. (u ++ call_exporter e, false)))
        noon
        limiter
        (waiting, []) in
    (made
      ≡ consume_total label
        ∷ set_remaining_tokens (pos 4)
        ∷ set_active_concurrency 1
        ∷ set_buffer_depth 0
        ∷ [])
    × Means label read_task
        (pos 1030)
        limiter.max_concurrency
        (length live)
        (record (state memory api waiting) { leases = live })
        (state memory api after)
        leased_job
unfolding consume consume_script key_of below_limit estimated_count decimal now_ms drop_through
    insert remove ◌-ℤ◌ reset_in_ms remaining_tokens state is_marker
consume_measured-Means_example =
    consume_measured-Means memory read_task noon limiter leased_job [] waiting refl refl
