-- ===== src/Limiter/Consume.antt =====
-- `consume` and `extend_lease` of AbstractDistributedRateLimiter
-- (src/redis_rate_limiter/core/limiters.py): the scripts, with the limiter's keys and configuration.
use redis_rate_limiter.Prelude.{ℕ, Bool, Option, none, some}
use redis_rate_limiter.Prelude.Int.{ℤ, eqb_ℤ}
use redis_rate_limiter.Prelude.Text.{Text}
use redis_rate_limiter.Keys.{concurrency, key_of}
use redis_rate_limiter.Redis.{Redis}
use redis_rate_limiter.Limiter.{Limiter}
use redis_rate_limiter.Scripts.Clock.{Time}
use redis_rate_limiter.Scripts.Task.{Task}
use redis_rate_limiter.Scripts.Consume
use redis_rate_limiter.Scripts.Consume.{Reply, Arguments, consume_script}
use redis_rate_limiter.Scripts.Consume.Steps.{keys_of}
use redis_rate_limiter.Scripts.Lease.{renew_script}

pub record ConsumeResult : Type 0 where
  pub success : Bool
  pub expired : Bool
  pub marker_skipped : Bool
  pub yielded : Bool
  pub task : Option Task
  pub remaining_tokens : ℤ
  pub active_concurrency : ℕ
  pub reset_in_ms : ℕ
  pub remaining_tasks : ℕ
  pub val_previous : ℕ
  pub val_current : ℕ

-- ARGV: [window, limit, max_concurrency, max_age, lease_duration, worker_id]
abbrev pub arguments_of : Limiter → Arguments
arguments_of l = record {
  window_size_ms = l.window_ms;
  rate_limit = l.limit;
  max_concurrency = l.max_concurrency;
  max_age = l.max_age;
  lease_duration = l.lease_duration;
  worker_id = l.worker_id;
}

module _ (R : Redis) (loads : Text → Task) where
  open R use {Db}

  -- The dictionary that is made of the script's table; `loads` reads a stored task, in Lua as in
  -- Python.
  unfoldable pub read_reply : Reply → ConsumeResult
  read_reply r = record {
    success = eqb_ℤ r.status Consume.admitted;
    expired = eqb_ℤ r.status Consume.expired;
    marker_skipped = eqb_ℤ r.status Consume.marker_skipped;
    yielded = eqb_ℤ r.status Consume.yielded;
    task = elim r.task [ none ↦ none | some raw ↦ some (loads raw) ];
    remaining_tokens = r.remaining;
    active_concurrency = r.active_now;
    reset_in_ms = r.reset;
    remaining_tasks = r.buffer_count;
    val_previous = r.previous_count;
    val_current = r.current_count;
  }

  -- `none` is the ResponseError that a failing script raises.
  unfoldable pub consume : Time → Limiter → Db → Db × Option ConsumeResult
  unfolding read_reply
  consume time l db =
      let (db', reply) = consume_script R loads time (keys_of l.id) (arguments_of l) db in
      (db', elim reply [ none ↦ none | some r ↦ some (read_reply r) ])

  -- The new database, and whether it returned: otherwise it raised KeyError.
  unfoldable pub extend_lease : Time → Limiter → Text → ℕ → Db → Db × Bool
  extend_lease time l task_id duration db =
      renew_script R time (key_of l.id concurrency) task_id duration db
