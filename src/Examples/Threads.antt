-- ===== src/Examples/Threads.antt =====
-- The threads of a limiter.
use redis_rate_limiter.Prelude.{refl, ◌<◌, List, [], ◌∷◌, arith}
use redis_rate_limiter.Heartbeat.{
  Action, Scheduler, renewing, initial, Event, registers, turns, renews, redis_error, run,
}
use redis_rate_limiter.Loop
use redis_rate_limiter.Loop.{idle_loop}
use redis_rate_limiter.Loop.Wakes.{run_drains-wake}
use redis_rate_limiter.Prelude.{Option, Bool, true, false, some, none}
use redis_rate_limiter.Examples.Data.{job, api}

-- Two tasks, a turn that finds the first, and its renewal.
abbrev history : List Event
history =
    registers 0 job Action.warn
    ∷ registers 3 api Action.kill
    ∷ turns 20
    ∷ renews 21 redis_error
    ∷ []

abbrev at_renewal : Scheduler
at_renewal = record initial { thread = renewing job Action.warn }

-- Another wake-up, and the loop's first turns.
abbrev later_events : List Loop.Event
later_events = Loop.wakes 5 100 ∷ Loop.advances 7 ∷ []

run_drains-wake_example :
    0 < (Loop.perform (Loop.advances 30) (Loop.run later_events (Loop.wake 0 20 idle_loop))).drains
unfolding Loop.run Loop.perform Loop.wake Loop.advance Loop.check Loop.check_wake Loop.is_sooner
    Loop.alive
run_drains-wake_example = run_drains-wake 0 20 30 later_events idle_loop refl refl (omega arith)

abbrev checks : List (Option Bool)
checks = some true ∷ none ∷ some false ∷ some true ∷ []
