-- ===== src/Scripts/Clock.antt =====
-- The server clock: redis.call('TIME').
use redis_rate_limiter.Prelude.{ℕ, ◌+◌, ◌*◌, ◌/◌}

pub record Time : Type 0 where
  pub seconds : ℕ
  pub micros : ℕ

-- tonumber(redis_time[1]) * 1000 + math.floor(tonumber(redis_time[2]) / 1000)
unfoldable pub now_ms : Time → ℕ
now_ms t = t.seconds * 1000 + t.micros / 1000
