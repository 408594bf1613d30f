-- ===== src/Scripts/Acquire.antt =====
-- src/redis_rate_limiter/lua/acquire.lua
pub mod Laws
pub mod Runs
use redis_rate_limiter.Prelude.{ℕ, ◌+◌, ◌-◌, ◌*◌, Bool, ◌==◌, if◌then◌else◌}
use redis_rate_limiter.Prelude.Int.{ℤ, pos, ◌-ℤ◌}
use redis_rate_limiter.Prelude.Text.{Text}
use redis_rate_limiter.Keys.{window_key}
use redis_rate_limiter.Redis.{Redis, count_of}
use redis_rate_limiter.Window.{
  current_window_start, estimated_count, below_limit, remaining_tokens, reset_in_ms,
}
use redis_rate_limiter.Scripts.Clock.{Time, now_ms}

-- {allowed, remaining, reset_in_ms, previous_count, current_count}
pub record Reply : Type 0 where
  pub allowed : ℕ
  pub remaining : ℤ
  pub reset : ℕ
  pub previous_count : ℕ
  pub current_count : ℕ

module _ (R : Redis) where
  open R use {Db, view, incr, pexpire}

  -- tonumber(redis.call('GET', key) or 0)
  unfoldable pub read_count : Text → Db → ℕ
  read_count key db = count_of (view db key).str

  -- INCR, and the expiry that the first request of a window starts.
  unfoldable pub count_request : Text → ℕ → ℕ → ℕ → Db → Db
  count_request current_key window_size_ms now current_count db =
      let counted = incr current_key db in
      if current_count == 0
      then pexpire current_key (2 * window_size_ms + 10000) now counted
      else counted

  unfoldable pub acquire_script : Time → Text → ℕ → ℕ → Db → Db × Reply
  unfolding read_count count_request
  acquire_script time base_key window_size_ms rate_limit db =
      let now = now_ms time in
      let start = current_window_start now window_size_ms in
      let current_key = window_key base_key start in
      let current = read_count current_key db in
      let previous = read_count (window_key base_key (start - window_size_ms)) db in
      let estimated = estimated_count now window_size_ms previous current in
      let remaining = pos (remaining_tokens estimated window_size_ms rate_limit) in
      let reply : Reply = record {
        allowed = 0;
        remaining = remaining;
        reset = reset_in_ms now window_size_ms;
        previous_count = previous;
        current_count = current;
      } in
      if below_limit estimated window_size_ms rate_limit
      then (
        count_request current_key window_size_ms now current db,
        record reply { allowed = 1; remaining = remaining -ℤ pos 1; current_count = current + 1 },
      )
      else (db, reply)
