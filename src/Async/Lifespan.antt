-- ===== src/Async/Lifespan.antt =====
-- The tasks of one asynchronous limiter, from its constructor and `start` to the end of `shutdown`:
-- AbstractAsyncDistributedRateLimiter, AsyncDrainSignalSubscriber and AsyncBackendHealthMonitor of
-- src/redis_rate_limiter/core/async_limiters.py, around the drain loop of Async.Loop. The heartbeat is left
-- to Async.Heartbeat. A step is what a task does up to its next await; a task that is cancelled ends at
-- that await, since nothing that it runs catches CancelledError. A step that would be the first of a
-- cancelled task does not run at all.
pub mod Parts
pub mod Calm
pub mod Ends
pub mod Leaving
pub mod Ending
pub mod Over
use redis_rate_limiter.Prelude.{
  ℕ, suc, ◌≡◌, refl, Bool, true, false, not, ◌&&◌, Option, none, some, List, [], ◌∷◌, if◌then◌else◌,
  is_some,
}
use redis_rate_limiter.Loop.{Loop, Thread, stopped, looping, watching, draining, idle_loop}
use redis_rate_limiter.Subscriber.{SenderId, Poll, nothing, control, failed, message}
use redis_rate_limiter.Async.Loop.{AsyncDrainLoop, request_wake, arrive, advance_run, shut_down}

-- Where a task is: not created, created, in the wait of its loop, in the other await of its loop (the
-- sleep after an error, or the check), or done.
pub data Await : Type 0 where
  unmade fresh waiting busy finished : Await

pub record AsyncListener : Type 0 where
  pub place : Await
  pub shutdown : Bool
  pub cancelled : Bool
  -- how often it has called _schedule_drain
  pub heard : ℕ

pub record AsyncMonitor : Type 0 where
  pub place : Await
  pub shutdown : Bool
  pub cancelled : Bool
  -- how many checks have begun
  pub checks : ℕ

-- `while not self._shutdown` at the head of both loops
abbrev pub at_head : Bool → Await
at_head shutdown = if shutdown then finished else waiting

-- What get_message gave, and whether _schedule_drain is called.
unfoldable pub hear_async : (SenderId → Bool) → Poll → AsyncListener → AsyncListener × Bool
hear_async foreign nothing s = (record s { place = at_head s.shutdown }, false)
hear_async foreign control s = (record s { place = at_head s.shutdown }, false)
hear_async foreign failed s = (record s { place = if s.shutdown then finished else busy }, false)
hear_async foreign (message sender) s =
    if foreign sender
    then (record s { place = at_head s.shutdown; heard = suc s.heard }, true)
    else (record s { place = at_head s.shutdown }, false)

-- _run of the subscriber: its next step
unfoldable pub listen_async :
    (SenderId → Bool) → Poll → Await → AsyncListener → AsyncListener × Bool
unfolding hear_async
listen_async foreign poll unmade s = (s, false)
listen_async foreign poll finished s = (s, false)
listen_async foreign poll fresh s =
    (record s { place = if s.cancelled then finished else at_head s.shutdown }, false)
listen_async foreign poll busy s =
    (record s { place = if s.cancelled then finished else at_head s.shutdown }, false)
listen_async foreign poll waiting s =
    if s.cancelled then (record s { place = finished }, false) else hear_async foreign poll s

-- _run of the monitor: its next step
unfoldable pub watch_async : Await → AsyncMonitor → AsyncMonitor
watch_async unmade h = h
watch_async finished h = h
watch_async fresh h = record h { place = if h.cancelled then finished else at_head h.shutdown }
watch_async busy h = record h { place = if h.cancelled then finished else at_head h.shutdown }
watch_async waiting h =
    if h.cancelled
    then record h { place = finished }
    else if h.shutdown
    then record h { place = finished }
    else record h { place = busy; checks = suc h.checks }

-- Where a call of `shutdown` is: not begun, waiting for the monitor, for the drain loop, for the end of
-- the subscription, for the listener, or at its end.
pub data Stage : Type 0 where
  running ending_monitor ending_loop unsubscribing ending_listener shut : Stage

pub record AsyncBackground : Type 0 where
  pub drain_loop : Option AsyncDrainLoop
  -- whether the drain task has been cancelled
  pub loop_cancelled : Bool
  pub subscriber : Option AsyncListener
  pub monitor : Option AsyncMonitor
  pub stage : Stage

-- __init__; `has_check` tells whether the class overrides _check_backend_health
unfoldable pub new_background : Bool → Bool → AsyncBackground
new_background drain_enabled has_check = record {
  drain_loop = if drain_enabled then some (record { loop = idle_loop; targets = [] }) else none;
  loop_cancelled = false;
  subscriber =
      if drain_enabled
      then some (record { place = unmade; shutdown = false; cancelled = false; heard = 0 })
      else none;
  monitor =
      if drain_enabled && has_check
      then some (record { place = unmade; shutdown = false; cancelled = false; checks = 0 })
      else none;
  stage = running;
}

abbrev start_listener : Option AsyncListener → Option AsyncListener
start_listener none = none
start_listener (some s) = some (record s { place = fresh })

abbrev start_monitor : Option AsyncMonitor → Option AsyncMonitor
start_monitor none = none
start_monitor (some h) = some (record h { place = fresh })

-- start, behind the registration of the scripts
unfoldable pub start_async : AsyncBackground → AsyncBackground
start_async b = record b {
  subscriber = start_listener b.subscriber;
  monitor = start_monitor b.monitor;
}

-- task is None or task.done()
abbrev pub is_over : Await → Bool
is_over unmade = true
is_over finished = true
is_over _ = false

abbrev pub is_stopped : Thread → Bool
is_stopped stopped = true
is_stopped _ = false

abbrev pub monitor_over : Option AsyncMonitor → Bool
monitor_over none = true
monitor_over (some h) = is_over h.place

abbrev pub loop_over : Option AsyncDrainLoop → Bool
loop_over none = true
loop_over (some a) = is_stopped a.loop.thread

abbrev pub listener_over : Option AsyncListener → Bool
listener_over none = true
listener_over (some s) = is_over s.place

-- shutdown of the monitor, up to its wait
abbrev pub stop_monitor : Option AsyncMonitor → Option AsyncMonitor
stop_monitor none = none
stop_monitor (some h) = some (record h { shutdown = true; cancelled = true })

abbrev pub stop_loop : Option AsyncDrainLoop → Option AsyncDrainLoop
stop_loop none = none
stop_loop (some a) = some (shut_down a)

abbrev pub deafen : Option AsyncListener → Option AsyncListener
deafen none = none
deafen (some s) = some (record s { shutdown = true })

abbrev pub cancel_listener : Option AsyncListener → Option AsyncListener
cancel_listener none = none
cancel_listener (some s) = some (record s { cancelled = true })

-- The next step of `shutdown`: where it waits for a task, it goes on only when that one is over.
unfoldable pub proceed : Stage → AsyncBackground → AsyncBackground
unfolding shut_down
proceed running b = record b { monitor = stop_monitor b.monitor; stage = ending_monitor }
proceed ending_monitor b =
    if monitor_over b.monitor
    then record b { drain_loop = stop_loop b.drain_loop; stage = ending_loop }
    else b
proceed ending_loop b =
    if loop_over b.drain_loop
    then record b { subscriber = deafen b.subscriber; stage = unsubscribing }
    else b
proceed unsubscribing b = record b {
  subscriber = cancel_listener b.subscriber;
  stage = ending_listener;
}
proceed ending_listener b = if listener_over b.subscriber then record b { stage = shut } else b
proceed shut b = b

-- The five seconds that `shutdown` gives the drain loop are over: wait_for cancels it.
unfoldable pub time_out : Stage → AsyncBackground → AsyncBackground
time_out ending_loop b = record b { loop_cancelled = true }
time_out _ b = b

abbrev pub go_drain : ℕ → Bool → Option AsyncDrainLoop → Option AsyncDrainLoop
go_drain now cancelled none = none
go_drain now true (some a) = some (record a { loop = record a.loop { thread = stopped } })
go_drain now false (some a) = some (advance_run now a)

abbrev pub wakes_loop : ℕ → ℕ → Option AsyncDrainLoop → Option AsyncDrainLoop
wakes_loop now delay none = none
wakes_loop now delay (some a) = some (request_wake now delay a)

abbrev pub arrive_loop : ℕ → Option AsyncDrainLoop → Option AsyncDrainLoop
arrive_loop n none = none
arrive_loop n (some a) = some (arrive n a)

-- _schedule_drain(delay)
unfoldable pub schedule_drain_async : ℕ → ℕ → AsyncBackground → AsyncBackground
unfolding request_wake
schedule_drain_async now delay b = record b { drain_loop = wakes_loop now delay b.drain_loop }

unfoldable pub go_listen :
    (SenderId → Bool) → ℕ → Poll → Option AsyncListener → AsyncBackground → AsyncBackground
unfolding listen_async schedule_drain_async
go_listen foreign now poll none b = b
go_listen foreign now poll (some s) b =
    let (s', wakes) = listen_async foreign poll s.place s in
    let moved = record b { subscriber = some s' } in
    if wakes then schedule_drain_async now 0 moved else moved

abbrev pub go_watch : Option AsyncMonitor → Option AsyncMonitor
go_watch none = none
go_watch (some h) = some (watch_async h.place h)

-- What happens to a limiter's tasks: a step of one, at a time and with what get_message gives, a coroutine
-- of `wake` that runs, a call of _schedule_drain, or a step of `shutdown`.
pub data AsyncHappening : Type 0 where
  loop_goes : ℕ → AsyncHappening
  wake_arrives : ℕ → AsyncHappening
  listener_goes : ℕ → Poll → AsyncHappening
  monitor_goes : AsyncHappening
  drain_asked : ℕ → ℕ → AsyncHappening
  proceeds : AsyncHappening
  times_out : AsyncHappening

unfoldable pub occur_async : (SenderId → Bool) → AsyncHappening → AsyncBackground → AsyncBackground
unfolding go_listen schedule_drain_async proceed time_out watch_async advance_run arrive
occur_async foreign (loop_goes now) b = record b {
  drain_loop = go_drain now b.loop_cancelled b.drain_loop;
}
occur_async foreign (wake_arrives n) b = record b { drain_loop = arrive_loop n b.drain_loop }
occur_async foreign (listener_goes now poll) b = go_listen foreign now poll b.subscriber b
occur_async foreign monitor_goes b = record b { monitor = go_watch b.monitor }
occur_async foreign (drain_asked now delay) b = schedule_drain_async now delay b
occur_async foreign proceeds b = proceed b.stage b
occur_async foreign times_out b = time_out b.stage b

unfoldable pub occur_all_async :
    (SenderId → Bool) → List AsyncHappening → AsyncBackground → AsyncBackground
unfolding occur_async
occur_all_async foreign [] b = b
occur_all_async foreign (e ∷ events) b = occur_all_async foreign events (occur_async foreign e b)
