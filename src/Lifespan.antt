-- ===== src/Lifespan.antt =====
-- The background threads of one limiter, from its constructor to `shutdown`: AbstractDistributedRateLimiter,
-- DrainSignalSubscriber and BackendHealthMonitor of src/redis_rate_limiter/core/limiters.py, around the
-- drain loop. The heartbeat scheduler is left to Heartbeat. A step is what a thread does up to its next
-- wait; a join that times out is no step.
pub mod Keeps
pub mod Quiet
use redis_rate_limiter.Prelude.{
  ℕ, suc, ◌+◌, ◌≡◌, refl, Bool, true, false, not, ◌&&◌, Option, none, some, List, [], ◌∷◌,
  if◌then◌else◌, is_some,
}
use redis_rate_limiter.Prelude.Text.{Text}
use redis_rate_limiter.Loop
use redis_rate_limiter.Loop.{Loop, idle_loop, wake, shuts_down, perform}
use redis_rate_limiter.Subscriber.{SenderId, Poll, nothing, control, failed, message, is_foreign}

-- Where the listener's thread is: at the head of its loop, in get_message, or at its end.
pub data Place : Type 0 where
  head polling ended : Place

pub record Listener : Type 0 where
  pub place : Place
  pub shutdown : Bool
  -- how often it has called _schedule_drain
  pub heard : ℕ

-- start
abbrev pub new_listener : Listener
new_listener = record { place = head; shutdown = false; heard = 0 }

-- What get_message gave, and whether _schedule_drain is called.
unfoldable pub hear : (SenderId → Bool) → Poll → Listener → Listener × Bool
hear foreign nothing s = (record s { place = head }, false)
hear foreign control s = (record s { place = head }, false)
hear foreign failed s = (record s { place = if s.shutdown then ended else head }, false)
hear foreign (message sender) s =
    if foreign sender
    then (record s { place = head; heard = suc s.heard }, true)
    else (record s { place = head }, false)

-- _run: the thread's next step
unfoldable pub listen_on : (SenderId → Bool) → Poll → Place → Listener → Listener × Bool
unfolding hear
listen_on foreign poll head s = (record s { place = if s.shutdown then ended else polling }, false)
listen_on foreign poll polling s = hear foreign poll s
listen_on foreign poll ended s = (s, false)

-- Where the monitor's thread is: in the wait between two checks, in a check, or at its end.
pub data Watch : Type 0 where
  waiting checking over : Watch

pub record HealthThread : Type 0 where
  pub watch : Watch
  pub shutdown : Bool
  -- how many checks have begun
  pub checks : ℕ

abbrev pub new_health : HealthThread
new_health = record { watch = waiting; shutdown = false; checks = 0 }

-- _run: the event's wait is over, or the check is
unfoldable pub watch_on : Watch → HealthThread → HealthThread
watch_on waiting h =
    if h.shutdown
    then record h { watch = over }
    else record h { watch = checking; checks = suc h.checks }
watch_on checking h = record h { watch = waiting }
watch_on over h = h

pub record Background : Type 0 where
  pub drain_loop : Option Loop
  pub subscriber : Option Listener
  pub monitor : Option HealthThread
  pub shutdown_called : Bool

-- The threads that the constructor makes; `has_check` tells whether the class overrides
-- _check_backend_health.
unfoldable pub start_background : Bool → Bool → Background
start_background drain_enabled has_check = record {
  drain_loop = if drain_enabled then some idle_loop else none;
  subscriber = if drain_enabled then some new_listener else none;
  monitor = if drain_enabled && has_check then some new_health else none;
  shutdown_called = false;
}

abbrev pub close_loop : Option Loop → Option Loop
close_loop none = none
close_loop (some l) = some (perform shuts_down l)

abbrev pub close_listener : Option Listener → Option Listener
close_listener none = none
close_listener (some s) = some (record s { shutdown = true })

abbrev pub close_health : Option HealthThread → Option HealthThread
close_health none = none
close_health (some h) = some (record h { shutdown = true })

pub data Part : Type 0 where
  the_monitor the_loop the_listener : Part

-- The `shutdown` of one part, up to its join.
unfoldable pub close : Part → Background → Background
unfolding perform
close the_monitor b = record b { monitor = close_health b.monitor }
close the_loop b = record b { drain_loop = close_loop b.drain_loop }
close the_listener b = record b { subscriber = close_listener b.subscriber }

-- The start of `shutdown`, which then closes the monitor, the loop and the listener in turn; the others go
-- on during each join.
unfoldable pub call_shutdown : Background → Background
call_shutdown b = record b { shutdown_called = true }

-- __del__: whether it warns
unfoldable pub del_warns : Background → Bool
del_warns b = is_some b.drain_loop && not b.shutdown_called

-- _schedule_drain(delay)
unfoldable pub schedule_drain : ℕ → ℕ → Background → Background
unfolding wake
schedule_drain now delay b = elim b.drain_loop [
  | none ↦ b
  | some l ↦ record b { drain_loop = some (wake now delay l) }
]

-- What happens to a limiter's threads: a step of one, at a time and with what get_message gives, a call of
-- _schedule_drain by a task, a drain or a caller, or a step of `shutdown`.
pub data Happening : Type 0 where
  loop_steps : ℕ → Happening
  listener_steps : ℕ → Poll → Happening
  monitor_steps : Happening
  schedules : ℕ → ℕ → Happening
  calls_shutdown : Happening
  closes : Part → Happening

unfoldable pub step_loop : ℕ → Background → Background
unfolding perform
step_loop now b = elim b.drain_loop [
  | none ↦ b
  | some l ↦ record b { drain_loop = some (perform (Loop.advances now) l) }
]

unfoldable pub step_listener : (SenderId → Bool) → ℕ → Poll → Background → Background
unfolding listen_on schedule_drain
step_listener foreign now poll b = elim b.subscriber [
  | none ↦ b
  | some s ↦
      let (s', wakes) = listen_on foreign poll s.place s in
      let moved = record b { subscriber = some s' } in
      if wakes then schedule_drain now 0 moved else moved
]

unfoldable pub step_monitor : Background → Background
unfolding watch_on
step_monitor b = elim b.monitor [
  | none ↦ b
  | some h ↦ record b { monitor = some (watch_on h.watch h) }
]

unfoldable pub occur : (SenderId → Bool) → Happening → Background → Background
unfolding step_loop step_listener step_monitor schedule_drain call_shutdown close
occur foreign (loop_steps now) b = step_loop now b
occur foreign (listener_steps now poll) b = step_listener foreign now poll b
occur foreign monitor_steps b = step_monitor b
occur foreign (schedules now delay) b = schedule_drain now delay b
occur foreign calls_shutdown b = call_shutdown b
occur foreign (closes part) b = close part b

-- The whole call of `shutdown`, if nothing else happens during it.
unfoldable pub shutdown : (SenderId → Bool) → Background → Background
unfolding occur
shutdown foreign b = occur foreign (closes the_listener) (
    occur foreign (closes the_loop)
      (occur foreign (closes the_monitor) (occur foreign calls_shutdown b)))

unfoldable pub occur_all : (SenderId → Bool) → List Happening → Background → Background
unfolding occur
occur_all foreign [] b = b
occur_all foreign (e ∷ events) b = occur_all foreign events (occur foreign e b)
