-- ===== src/Examples/Data.antt =====
-- Sample limiters, tasks and databases.
use redis_rate_limiter.Prelude.{ℕ, true, none, ◌∷◌, ◌++◌}
use redis_rate_limiter.Prelude.Int.{pos}
use redis_rate_limiter.Prelude.Text.{Text, codes}
use redis_rate_limiter.Prelude.Decimal.{decimal}
use redis_rate_limiter.Keys.{buffer, key_of, get_inflight_key}
use redis_rate_limiter.Redis.{Redis}
use redis_rate_limiter.Redis.Memory.{Table, empty, memory}
use redis_rate_limiter.Limiter.{Limiter, Arguments}
use redis_rate_limiter.Limiter.Schedule.{Codec}
use redis_rate_limiter.Scripts.Clock.{Time}
use redis_rate_limiter.Scripts.Task.{Task}
use redis_rate_limiter.Drain.{Draw}

abbrev pub api : Text
api = codes "api"

-- Five requests per second, two at a time.
abbrev pub arguments : Arguments
arguments = record {
  limiter_id = api;
  limit = pos 5;
  window_ms = pos 1000;
  max_concurrency = pos 2;
  max_age = pos 60;
  lease_duration = pos 30;
  jitter_enabled = true;
  jitter_min = 10;
  jitter_max = 50;
  drain_enabled = true;
}

abbrev pub limiter : Limiter
limiter = record {
  id = api;
  limit = 5;
  window_ms = 1000;
  config_version = 0;
  drain_paused_until = 0;
  max_concurrency = 2;
  max_age = 60;
  lease_duration = 30;
  jitter_enabled = true;
  jitter_min = 10;
  jitter_max = 50;
  drain_enabled = true;
  worker_id = codes "w1";
  consecutive_drain_failures = 0;
  last_refresh_at = 0;
}

abbrev pub noon : Time
noon = record { seconds = 1000; micros = 250000 }

abbrev pub later_time : Time
later_time = record { seconds = 1000; micros = 750000 }

abbrev pub job : Text
job = codes "job"

-- Every stored text is read as one task, which arrived a second before noon.
abbrev pub read_task : Text → Task
read_task raw = record {
  id = raw;
  func_path = codes "app.send";
  inflight_key = get_inflight_key api raw;
  arrived_at = 999000;
  max_age = none;
  acquire_timeout_ms = none;
}

-- One task waits.
abbrev pub waiting : Table
waiting = Redis.zadd memory (key_of api buffer) (pos 0) job empty

abbrev pub draw : Draw
draw = record { roll = 1; sides = 2 }

abbrev pub codec : Codec
codec = record {
  Payload = ℕ;
  signature = λ path n. path ++ decimal n;
  md5 = λ t. b'm' ∷ t;
  dumps = λ id path n key. id ++ (path ++ (decimal n ++ (key ++ codes "}")));
}
