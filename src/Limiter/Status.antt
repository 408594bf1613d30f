-- ===== src/Limiter/Status.antt =====
-- `get_status` of both limiters (src/redis_rate_limiter/core/limiters.py, core/async_limiters.py).
use redis_rate_limiter.Prelude.{ℕ, ◌-◌, ◌+◌, ◌≡◌, refl, length, max, arith}
use redis_rate_limiter.Prelude.Text.{Text}
use redis_rate_limiter.Keys.{buffer, concurrency, key_of}
use redis_rate_limiter.Redis.{Redis}
use redis_rate_limiter.Limiter.{Limiter}
use redis_rate_limiter.Scripts.Clock.{Time}
use redis_rate_limiter.Scripts.Lease.{health_script}

-- The dictionary; `tokens_used` is multiplied by the window.
pub record Status : Type 0 where
  pub limiter_id : Text
  pub current : ℕ
  pub max_concurrency : ℕ
  pub available : ℕ
  pub buffer_count : ℕ
  pub val_previous : ℕ
  pub val_current : ℕ
  pub tokens_used : ℕ
  pub limit : ℕ
  pub window : ℕ
  pub reset_in_ms : ℕ

module _ (R : Redis) where
  unfoldable pub get_status : Time → Limiter → R.Db → Status
  unfolding health_script
  get_status time l db =
      let h =
        health_script R time l.id (key_of l.id buffer) (key_of l.id concurrency) l.window_ms db in
      record {
        limiter_id = l.id;
        current = h.active_now;
        max_concurrency = l.max_concurrency;
        available = max 0 (l.max_concurrency - h.active_now);
        buffer_count = h.buffer_count;
        val_previous = h.previous_count;
        val_current = h.current_count;
        tokens_used = h.estimated;
        limit = l.limit;
        window = l.window_ms;
        reset_in_ms = h.reset;
      }

  -- The counts are those of the buffer and of the concurrency set, and the available slots make the
  -- leases up to the concurrency, where there are not more leases already.
  get_status_lem :
      (time : Time) (l : Limiter) (db : R.Db)
      → let s = get_status time l db in
        (s.buffer_count ≡ length (R.view db (key_of l.id buffer)).zset)
        × (s.current ≡ length (R.view db (key_of l.id concurrency)).zset)
        × (s.current + s.available ≡ max s.current l.max_concurrency)
  unfolding get_status health_script
  get_status_lem time l db = (refl, refl, omega arith)
