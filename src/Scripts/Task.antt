-- ===== src/Scripts/Task.antt =====
-- What cjson.decode makes of a task that schedule.lua has stored. The decoder is Redis's, and a
-- parameter of what uses it.
use redis_rate_limiter.Prelude.{ℕ, Bool, Option}
use redis_rate_limiter.Prelude.Text.{Text, codes, same}

pub record Task : Type 0 where
  pub id : Text
  pub func_path : Text
  pub inflight_key : Text
  -- __meta_arrived_at, in milliseconds
  pub arrived_at : ℕ
  -- __meta_max_age, in seconds
  pub max_age : Option ℕ
  -- payload._acquire_timeout_ms
  pub acquire_timeout_ms : Option ℕ

-- _ACQUIRE_MARKER_PATH
unfoldable pub acquire_marker_path : Text
acquire_marker_path = codes "__redis_rate_limiter_acquire_marker__"

unfoldable pub is_marker : Task → Bool
unfolding acquire_marker_path
is_marker task = same task.func_path acquire_marker_path
