-- ===== src/Examples/Lifespan.antt =====
-- Threads and tasks at their end, and a class that is configured anew.
use redis_rate_limiter.Prelude.{ℕ, ◌+◌, ◌≤◌, ◌≡◌, true, none, some, List, [], ◌∷◌, length}
use redis_rate_limiter.Prelude.Text.{Text, codes}
use redis_rate_limiter.Loop
use redis_rate_limiter.Loop.{Loop, Event, watching, stopped, wakes, shuts_down, advances}
use redis_rate_limiter.Loop.Shutdown.{run-shutdown}
use redis_rate_limiter.Subscriber.{is_foreign, message, text}
use redis_rate_limiter.Lifespan.{
  Background, start_background, Happening, loop_steps, listener_steps, schedules, closes, the_loop,
  the_listener, the_monitor, occur_all,
}
use redis_rate_limiter.Lifespan.Quiet.{drains_of, heard_by, checks_of, close-quiet}
use redis_rate_limiter.Backends.Tasks.{
  TaskEvent, dispatches, starts, new_tasks, task_events, shutdown_tasks, unstarted_ids,
}
use redis_rate_limiter.Backends.Tasks.Accounts.{count, dispatched, shutdown_tasks-accounts}
use redis_rate_limiter.Managed.Configure.{
  ClassState, returned, keyed, configure, keyword_of, context_of, require_configured, init_subclass,
  configure_lem,
}

-- A loop in its watchdog's wait.
abbrev resting : Loop
resting = record {
  next_wake = none;
  shutdown = Loop.idle_loop.shutdown;
  thread = watching;
  drains = 4;
}

abbrev late_events : List Event
late_events = advances 10 ∷ wakes 11 0 ∷ advances 12 ∷ []

run-shutdown_example :
    let closed = Loop.run (shuts_down ∷ late_events) resting in
    (closed.drains ≤ 5)
    × ((a b c : ℕ) → (Loop.run (advances a ∷ advances b ∷ advances c ∷ []) closed).thread ≡ stopped)
    × (resting.thread ≡ watching
        → resting.next_wake ≡ none
        → (now : ℕ) → (Loop.run (shuts_down ∷ advances now ∷ []) resting).drains ≡ 5)
run-shutdown_example = run-shutdown late_events resting

-- A limiter whose class checks its backend.
abbrev live : Background
live = start_background true true

abbrev after_events : List Happening
after_events = schedules 5 0 ∷ listener_steps 6 (message (text (codes "w2"))) ∷ loop_steps 7 ∷ []

close-quiet_example :
    (drains_of
        (occur_all (is_foreign (codes "w1")) (closes the_loop ∷ after_events) live).drain_loop
      ≤ 1)
    × (heard_by
          (occur_all (is_foreign (codes "w1")) (closes the_listener ∷ after_events) live).subscriber
        ≤ 1)
    × (checks_of
          (occur_all (is_foreign (codes "w1")) (closes the_monitor ∷ after_events) live).monitor
        ≤ 0)
unfolding start_background
close-quiet_example = close-quiet (is_foreign (codes "w1")) after_events live

-- Two tasks, of which the first begins.
abbrev two_tasks : List TaskEvent
two_tasks = dispatches (codes "a") ∷ dispatches (codes "b") ∷ starts 0 ∷ []

shutdown_tasks-accounts_example :
    let p = task_events two_tasks (new_tasks 2) in
    let after = shutdown_tasks p in
    (p.active_count ≡ length p.active_tasks)
    × (after.active_count ≡ 0)
    × (after.active_tasks ≡ [])
    × ((t : Text)
        → count t after.released + count t (unstarted_ids p.active_tasks)
          ≡ count t (dispatched two_tasks))
shutdown_tasks-accounts_example = shutdown_tasks-accounts 2 two_tasks

-- A class with a client and an executor.
abbrev ready_class : ClassState
ready_class = record {
  sentinel = 1;
  redis_client = some 10;
  own_context = some (some 20);
  instances = [];
}

-- It is configured with another client, and without an executor.
configure_lem_example :
    let hooks = keyed (codes "executor") (codes "hint") in
    let (after, called) = configure hooks 11 [] ready_class in
    (after.redis_client ≡ some 11)
    × (after.instances ≡ [])
    × (context_of none after ≡ some 20)
    × (called ≡ require_configured hooks none (init_subclass 1))
    × (require_configured hooks none after ≡ returned)
unfolding keyword_of
configure_lem_example = configure_lem (codes "executor") (codes "hint") none 11 [] ready_class
