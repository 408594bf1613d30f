-- ===== src/Monitor.antt =====
-- BackendHealthMonitor of src/redis_rate_limiter/core/limiters.py: what the turns of its thread do.
pub mod Transitions
use redis_rate_limiter.Prelude.{
  Bool, true, false, not, ◌&&◌, Option, none, some, List, [], ◌∷◌, if◌then◌else◌, or_else,
}
use redis_rate_limiter.Prelude.Text.{Text, same}

-- The messages about a change: the warning of a failed backend, the info of its recovery.
pub data Log : Type 0 where
  warning info : Log

-- _run_once: the health after it, and the message. `none` is a check that raised.
unfoldable pub run_once : Option Bool → Bool → Bool × Option Log
run_once check was_healthy =
    let healthy = or_else check false in
    if was_healthy && not healthy
    then (healthy, some warning)
    else if not was_healthy && healthy
    then (healthy, some info)
    else (healthy, none)

abbrev add_log : Option Log → List Log → List Log
add_log none logs = logs
add_log (some log) logs = log ∷ logs

-- The checks in turn: the health after them, and the messages.
unfoldable pub monitor : List (Option Bool) → Bool → Bool × List Log
unfolding run_once
monitor [] healthy = (healthy, [])
monitor (check ∷ checks) healthy =
    let (now_healthy, log) = run_once check healthy in
    let (last_healthy, logs) = monitor checks now_healthy in (last_healthy, add_log log logs)
