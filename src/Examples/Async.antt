-- ===== src/Examples/Async.antt =====
-- Coroutines, on the database in memory.
use redis_rate_limiter.Prelude.{
  ◌+◌, ◌<◌, arith, ◌≤◌, ◌≡◌, refl, true, false, none, some, [], ◌∷◌, ◌++◌, List, Bool, map,
}
use redis_rate_limiter.Prelude.Int.{pos}
use redis_rate_limiter.Prelude.Text.{codes}
use redis_rate_limiter.Redis.Memory.{empty, memory}
use redis_rate_limiter.Limiter.Schedule.{schedule_task}
use redis_rate_limiter.Drain.{Clocks, drain}
use redis_rate_limiter.Async.{Co, done, complete, interleave}
use redis_rate_limiter.Async.Schedule.{Shared, schedule_task_async}
use redis_rate_limiter.Async.Schedule.Agreement.{complete-schedule_task_async}
use redis_rate_limiter.Async.Schedule.Holding.{Attempt, start}
use redis_rate_limiter.Async.Schedule.Exclusion.{
  count_scheduled, Turn, runs, passes, take_turns, interleave-schedule_task_async,
}
use redis_rate_limiter.Heartbeat.{warn, redis_error}
use redis_rate_limiter.Heartbeat.Turns.{IsCovered}
use redis_rate_limiter.Async.Heartbeat.{HeartbeatEvent, enters, leaves, runs_on, occur_all, at_rest}
use redis_rate_limiter.Async.Heartbeat.Coverage.{occur_all-IsCovered}
use redis_rate_limiter.Async.Drain.{Draining, drain_async}
use redis_rate_limiter.Async.Drain.Agreement.{complete-drain_async}
use redis_rate_limiter.Examples.Data.{limiter, noon, later_time, read_task, waiting, draw, codec}
use redis_rate_limiter.Redis.{Redis}
use redis_rate_limiter.Redis.Memory.{Table}
use redis_rate_limiter.Limiter.{new_limiter}
use redis_rate_limiter.Limiter.Config.{build_persist_config}
use redis_rate_limiter.Loop.{idle_loop, looping}
use redis_rate_limiter.Managed.{Json, get, registry_key, construct, returned, arguments_from}
use redis_rate_limiter.Async.Loop.{
  AsyncDrainLoop, happen, happen_all, arrives, goes_on, request_wake, arrive, wake_async,
}
use redis_rate_limiter.Async.Loop.Wakes.{happen_all-request_wake}
use redis_rate_limiter.Async.Managed.{Managing, get_async, find_ref}
use redis_rate_limiter.Async.Managed.Agreement.{registry_of, deref, complete-get_async}
use redis_rate_limiter.Async.Managed.Instances.{interleave-get_async}
use redis_rate_limiter.Examples.Data.{api, arguments}

abbrev at_first : Shared memory
at_first = record { db = empty; events = [] }

complete-schedule_task_async_example :
    let (db', result, events) =
      schedule_task memory codec true noon limiter (codes "f") 3 (pos 0) none empty in
    complete
      (schedule_task_async memory codec limiter (codes "f") 3 true noon noon (pos 0) none)
      at_first
    ≡ (record { db = db'; events = [] ++ events }, result)
complete-schedule_task_async_example =
    complete-schedule_task_async memory codec limiter (codes "f") 3 true noon (pos 0) none at_first

-- Two calls, of which the second one's script fails.
abbrev attempts : List Attempt
attempts =
    record {
      limiter = limiter;
      works = true;
      claim_time = noon;
      script_time = later_time;
      priority = pos 0;
      max_age = none;
    }
    ∷ record {
      limiter = record limiter { worker_id = codes "w2" };
      works = false;
      claim_time = noon;
      script_time = noon;
      priority = pos 9;
      max_age = some 5;
    }
    ∷ []

-- The marker of the call that schedules the task expires before the other one gives up.
abbrev turns : List Turn
turns = runs 1 ∷ runs 0 ∷ runs 1 ∷ passes 9000000000 ∷ runs 0 ∷ runs 1 ∷ runs 0 ∷ []

interleave-schedule_task_async_example :
    let (expiries, t, calls) =
      take_turns memory codec api
        (codes "f")
        3
        turns
        (map (start memory codec api (codes "f") 3) attempts)
        at_first in
    count_scheduled calls ≤ 1 + expiries
interleave-schedule_task_async_example =
    interleave-schedule_task_async memory codec api (codes "f") 3 attempts turns at_first

abbrev clocks : Clocks
clocks = record { monotonic = 5000; wall = 4000; server = noon }

abbrev before_drain : Draining memory
before_drain = record { db = waiting; limiter = limiter; actions = [] }

-- A refresh_config that finds nothing new.
abbrev no_news : Co (Draining memory) Bool
no_news = done false

complete-drain_async_example :
    let (db', l', actions) =
      drain memory read_task (λ t. true) (λ l. some l) clocks true draw limiter waiting in
    complete (drain_async memory read_task (λ t. true) no_news clocks true draw) before_drain
    ≡ (record { db = db'; limiter = l'; actions = [] ++ actions }, tt)
unfolding complete
complete-drain_async_example =
    complete-drain_async memory read_task (λ t. true) no_news (λ l. some l) (λ s. refl) clocks true
      draw before_drain

abbrev idle : AsyncDrainLoop
idle = record { loop = record idle_loop { thread = looping }; targets = [] }

happen_all-request_wake_example :
    0 < (happen (goes_on 150) (happen_all (arrives 0 ∷ []) (request_wake 100 50 idle))).loop.drains
unfolding happen_all happen request_wake arrive wake_async
happen_all-request_wake_example =
    happen_all-request_wake 100 50 150 (arrives 0 ∷ []) idle refl refl refl (omega arith)

-- A codec that knows one configuration.
abbrev json : Json
json = record { dumps = λ o. codes "{}"; loads = λ t. some (build_persist_config limiter) }

abbrev stored : Table
stored = Redis.hset memory registry_key api (codes "{}") empty

abbrev nothing_cached : Managing memory
nothing_cached = record {
  db = stored;
  configured = true;
  objects = λ n. limiter;
  next = 0;
  instances = [];
}

complete-get_async_example :
    let (t, o) = complete (get_async json (codes "w1") arguments api) nothing_cached in
    let (r, o') = get memory json (codes "w1") arguments api (registry_of nothing_cached) stored in
    (registry_of t ≡ r) × (deref t.objects o ≡ o')
complete-get_async_example =
    complete-get_async memory json (codes "w1") api arguments nothing_cached tt

interleave-get_async_example :
    let (t, calls) =
      interleave
        (0 ∷ 1 ∷ 0 ∷ 1 ∷ 0 ∷ 1 ∷ 0 ∷ 1 ∷ 0 ∷ 1 ∷ 0 ∷ 1 ∷ 0 ∷ 1 ∷ [])
        (get_async json (codes "w1") arguments api ∷ get_async json (codes "w2") arguments api ∷ [])
        nothing_cached in
    (calls ≡ done (returned 0) ∷ done (returned 1) ∷ []) × (find_ref api t.instances ≡ some 1)
unfolding registry_key construct new_limiter arguments_from find_ref build_persist_config
interleave-get_async_example =
    interleave-get_async memory json api arguments (codes "w1") (codes "w2") nothing_cached
      (codes "{}") (build_persist_config limiter) limiter
      (record limiter { worker_id = codes "w2" }) refl refl refl refl refl refl

-- A task leaves between the look at the heap and the pop; another one's renewal fails.
abbrev beats : List HeartbeatEvent
beats =
    enters 0 (codes "a") warn
    ∷ enters 5 (codes "b") warn
    ∷ runs_on 20 redis_error
    ∷ leaves (codes "a")
    ∷ runs_on 20 redis_error
    ∷ runs_on 21 redis_error
    ∷ runs_on 22 redis_error
    ∷ runs_on 23 redis_error
    ∷ []

occur_all-IsCovered_example : IsCovered (occur_all 10 beats at_rest).core
occur_all-IsCovered_example =
    occur_all-IsCovered 10 beats (
      tt,
      (tt, ((λ e. cc e), (tt, ((λ e. cc e), ((λ e. cc e), ((λ e. cc e), ((λ e. cc e), tt))))))),
    )
