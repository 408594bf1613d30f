-- ===== src/Scripts/Lease.antt =====
-- src/redis_rate_limiter/lua/schedule.lua, renew.lua, release.lua and health.lua
use redis_rate_limiter.Prelude.{
  ℕ, ◌+◌, ◌-◌, Bool, true, false, not, Option, none, some, [], ◌∷◌, ◌++◌, length, ◌==◌,
  if◌then◌else◌, is_some,
}
use redis_rate_limiter.Prelude.Int.{ℤ, pos}
use redis_rate_limiter.Prelude.Text.{Text, codes, same}
use redis_rate_limiter.Prelude.Decimal.{decimal}
use redis_rate_limiter.Keys.{window_key}
use redis_rate_limiter.Redis.{Redis}
use redis_rate_limiter.Redis.SortedSet.{score}
use redis_rate_limiter.Window.{current_window_start, estimated_count, reset_in_ms}
use redis_rate_limiter.Scripts.Clock.{Time, now_ms}
use redis_rate_limiter.Scripts.Acquire.{read_count}

-- string.gsub(task_json, '}$', replacement, 1)
unfoldable pub replace_final_brace : Text → Text → Text
replace_final_brace [] replacement = []
replace_final_brace (c ∷ []) replacement = if c == b'}' then replacement else c ∷ []
replace_final_brace (c ∷ d ∷ rest) replacement = c ∷ replace_final_brace (d ∷ rest) replacement

-- ',"__meta_arrived_at":' .. now_ms, and the override
unfoldable pub metadata_fields : ℕ → Option ℕ → Text
metadata_fields now none = codes ",\"__meta_arrived_at\":" ++ decimal now
metadata_fields now (some max_age) =
    codes ",\"__meta_arrived_at\":"
    ++ (decimal now ++ (codes ",\"__meta_max_age\":" ++ decimal max_age))

-- The member that the buffer gets.
unfoldable pub stored_task : Time → Text → Option ℕ → Text
unfolding replace_final_brace metadata_fields
stored_task time task_json override_max_age =
    replace_final_brace task_json (metadata_fields (now_ms time) override_max_age ++ codes "}")

-- {previous_count, current_count, estimated_count, active_now, reset_in_ms, buffer_count}; the
-- estimate is multiplied by the window.
pub record Health : Type 0 where
  pub previous_count : ℕ
  pub current_count : ℕ
  pub estimated : ℕ
  pub active_now : ℕ
  pub reset : ℕ
  pub buffer_count : ℕ

-- {removed_concurrency, removed_inflight}, and the message that was published
pub record Released : Type 0 where
  pub removed_concurrency : Bool
  pub removed_inflight : Bool
  pub channel : Text
  pub message : Text

module _ (R : Redis) where
  open R use {Db, view, zadd, zrem, del}

  unfoldable pub schedule_script : Time → Text → Text → ℤ → Option ℕ → Db → Db
  schedule_script time buffer_key task_json priority override_max_age =
      zadd buffer_key priority (stored_task time task_json override_max_age)

  -- The new database, and 1 (true) or 0.
  unfoldable pub renew_script : Time → Text → Text → ℕ → Db → Db × Bool
  renew_script time concurrency_key task_id lease_duration db =
      elim (score task_id (view db concurrency_key).zset) [
        | some old ↦ (zadd concurrency_key (pos (time.seconds + lease_duration)) task_id db, true)
        | none ↦ (db, false)
      ]

  unfoldable pub release_script : Text → Text → Text → Text → Text → Db → Db × Released
  release_script concurrency_key inflight_key drain_channel task_id worker_id db =
      let held = is_some (score task_id (view db concurrency_key).zset) in
      let removed = zrem concurrency_key task_id db in
      let marked = is_some (view removed inflight_key).str in
      if not (same task_id [])
      then (
        del inflight_key removed,
        record {
          removed_concurrency = held;
          removed_inflight = marked;
          channel = drain_channel;
          message = worker_id;
        },
      )
      else (
        db,
        record {
          removed_concurrency = false;
          removed_inflight = false;
          channel = drain_channel;
          message = worker_id;
        },
      )

  unfoldable pub health_script : Time → Text → Text → Text → ℕ → Db → Health
  health_script time base_key buffer_key concurrency_key window_size_ms db =
      let now = now_ms time in
      let start = current_window_start now window_size_ms in
      let current = read_count R (window_key base_key start) db in
      let previous = read_count R (window_key base_key (start - window_size_ms)) db in
      record {
        previous_count = previous;
        current_count = current;
        estimated = estimated_count now window_size_ms previous current;
        active_now = length (view db concurrency_key).zset;
        reset = reset_in_ms now window_size_ms;
        buffer_count = length (view db buffer_key).zset;
      }
