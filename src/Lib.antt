-- ===== src/Lib.antt =====
-- redis-rate-limiter: a distributed rate limiter and task scheduler whose state lives in Redis.
--
-- Lua scripts change the state atomically (src/redis_rate_limiter/lua). A sliding window counter
-- decides whether a request or a task passes; tasks wait in a sorted set (the buffer), run under a
-- lease in another (the concurrency set), and go to a list (the dead letter queue) when they are too
-- old. The Python side (src/redis_rate_limiter/core) schedules tasks, each once, by a marker in Redis
-- (`schedule_task`), and drains the buffer (`drain`, `_drain_inner`): a drain runs consume.lua, hands
-- an admitted task to the execution backend, and asks the drain loop to call it again. Instances are
-- created and reconfigured through a registry in Redis (core/managed.py).
--
-- Files, and the code of which they are about:
--   Prelude        shared helpers: tests, lists, integers, texts, decimals
--   Keys           the names of Redis keys (core/limiters.py, the scripts)
--   Redis          the server's commands, as an interface with their documented effects; SortedSet is
--                  the sorted set behind ZADD and its kin, Memory a database that satisfies the laws
--   Window         the window's start, estimate and remaining tokens (lua/*.lua), and
--                  `_calculate_token_recovery_delay` (core/limiters.py)
--   Scripts        Acquire, Consume and Lease: acquire.lua, consume.lua, and schedule.lua, renew.lua,
--                  release.lua and health.lua, statement by statement
--   Limiter        the limiter object (core/base.py, core/limiters.py): constructor, Config
--                  (persisted configuration and overrides), Jitter, Consume (consume,
--                  extend_lease), Schedule (schedule_task, TaskLifecycle.__exit__), Acquire (acquire,
--                  before and after its wait), Status (get_status)
--   Drain          `drain` and `_drain_inner` (core/limiters.py); what they ask for is a list of
--                  actions
--   Heartbeat      HeartbeatScheduler (core/limiters.py): its steps, in any order
--   Loop           DrainLoop (core/limiters.py): its steps, in any order, and its shutdown
--   Monitor        BackendHealthMonitor (core/limiters.py)
--   Subscriber     which messages wake the drain loop: DrainSignalSubscriber (core/limiters.py) and
--                  AsyncDrainSignalSubscriber (core/async_limiters.py)
--   Lifespan       the threads that a limiter starts and its `shutdown` ends: DrainLoop,
--                  DrainSignalSubscriber and BackendHealthMonitor together (core/limiters.py)
--   Managed        create, get, update and refresh_config (core/managed.py); Configure is the state of
--                  a class, with `configure` and the hooks of each backend (backends/*/limiter.py)
--   Registration   `_register_script` and `_eval_script` (core/base.py), with the recovery of a script
--                  that the server has lost
--   Importing      `import_string` and `resolve_import_path` (core/importing.py)
--   System         processes that share one limiter: calls of the functions above in any order, and
--                  the abstract limiter that they refine, call by call (Specification)
--   Async          coroutines, step by step: Schedule (schedule_task, acquire, consume, extend_lease,
--                  __aexit__), Drain (drain, _drain_inner), Loop (AsyncDrainLoop), Heartbeat
--                  (AsyncHeartbeatScheduler) and Lifespan (start, shutdown, the subscriber and the
--                  health monitor) of core/async_limiters.py, Managed
--                  (AsyncManagedRateLimiter) of core/managed.py, and Scripts (_eval_script) of
--                  core/base.py
--   Asgi           acquire, RateLimitMiddleware and the key functions (backends/asgi)
--   Backends       the local capacity of the thread pool, process pool and asyncio backends; Tasks is
--                  the asyncio backend's tasks with its shutdown
--   Brokers        schedule_task, _dispatch_task and the generic workers of the Celery, RQ, Dramatiq and
--                  Huey backends, over brokers that accept a message or do not
--   Decorators     rate_limited (core/decorators.py)
--   Metrics        PrometheusMetricsExporter (integrations/prometheus.py), with consume's metric
--   Reports        Superfluity (scripts/analyze_superfluity.py) and Timeline
--                  (scripts/generate_mutmut_report.py): what two analyses of test runs compute
--   Examples       the theorems at concrete inputs
--
-- How it is modelled. The database is passed from step to step; a script is one step, since Redis
-- runs scripts one after another. Redis is a record of commands, with a law for each that says what
-- every key holds after it; keys are used at one type each. A key expires by the command `pass` alone,
-- which takes the server's time on, between two steps where a theorem says so and never within one.
-- Texts are lists of codes. Windows, delays and local clocks are whole milliseconds,
-- ages and leases whole seconds. The window estimate is kept multiplied by the window, and quotients as
-- numerator and denominator, so no floating point is modelled; of the roundings of delays, the one
-- before a drain is asked for is (a tie goes up). A window start is written in decimals, as Lua
-- does below 10^14. The previous window of the first window ever starts at 0 here. Priorities are
-- integers. cjson, json, MD5, uuid, random and the clocks are parameters, with what is used of them
-- as hypotheses. Every command reaches the server, except where a script is said to fail. Log messages
-- are left out; the metric of consume is in Metrics alone.
--
-- A coroutine is a tree of steps, one for each command that it awaits and for each piece of Python code
-- between two awaits that touches what others share; any order of the steps of several is an
-- interleaving.
--
-- Not modelled: prometheus_client and the brokers, which are third-party libraries; the rest of the
-- repository's own reports (scripts), which runs tests and formats files. `walk` of Reports.Timeline takes
-- one unit of fuel for each event, and each of its rounds leaves at least one event behind it, so that
-- further rounds find nothing. No other loop here needs fuel: decimals are read and written by structural
-- recursion on as many steps as the number is large, which is more than it has digits.
pub mod Prelude
pub mod Keys
pub mod Redis
pub mod Window
pub mod Scripts
pub mod Limiter
pub mod Drain
pub mod Heartbeat
pub mod Loop
pub mod Monitor
pub mod Subscriber
pub mod Importing
pub mod Registration
pub mod Managed
pub mod System
pub mod Async
pub mod Asgi
pub mod Backends
pub mod Decorators
pub mod Brokers
pub mod Lifespan
pub mod Reports
pub mod Metrics
mod Examples
