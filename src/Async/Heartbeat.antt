-- ===== src/Async/Heartbeat.antt =====
-- AsyncHeartbeatScheduler of src/redis_rate_limiter/core/async_limiters.py: one task that renews the
-- leases of many. What holds the lock is one step. It looks at the head of the heap under one lock,
-- and takes it under another; what a renewal has shown and the next renewal are two locked parts too.
pub mod Coverage
use redis_rate_limiter.Prelude.{ℕ, Bool, true, false, List, [], ◌∷◌, ltb, if◌then◌else◌}
use redis_rate_limiter.Prelude.Text.{Text}
use redis_rate_limiter.Heartbeat.{
  Action, Tuple, Thread, stopped, looping, renewing, Scheduler, initial, register, deregister, turn,
  Renewal, renewed, redis_error, other_error, renew_one, reschedule,
}

pub record AsyncScheduler : Type 0 where
  pub core : Scheduler
  -- the head of the heap was due at the last look, and is to be taken
  pub due : Bool
  -- the renewal has ended, and the next one is to be scheduled
  pub settled : Bool

-- __init__
abbrev pub at_rest : AsyncScheduler
at_rest = record { core = initial; due = false; settled = false }

-- Whether the head of the heap is due.
unfoldable pub is_head_due : ℕ → List Tuple → Bool
is_head_due now [] = false
is_head_due now (t ∷ heap) = if ltb now t.due then false else true

-- The first locked part of the loop. A wait changes nothing.
unfoldable pub peek : ℕ → AsyncScheduler → AsyncScheduler
unfolding is_head_due
peek now s =
    if s.core.shutdown
    then record s { core = record s.core { thread = stopped } }
    else record s { due = is_head_due now s.core.heap }

-- The second one: the head is looked at again, popped, and dropped if it is stale.
unfoldable pub pop : ℕ → AsyncScheduler → AsyncScheduler
unfolding turn
pop now s = record s { core = turn now s.core.heap s.core; due = false }

-- _renew_one; an exception that it does not catch ends the task.
unfoldable pub settle_renewal : Text → Action → Renewal → AsyncScheduler → AsyncScheduler
unfolding renew_one
settle_renewal id action other_error s = record s { core = record s.core { thread = stopped } }
settle_renewal id action renewed s = record s {
  core = renew_one id action renewed s.core;
  settled = true;
}
settle_renewal id action redis_error s = record s {
  core = renew_one id action redis_error s.core;
  settled = true;
}

-- The last locked part.
unfoldable pub schedule_next : ℕ → ℕ → Text → AsyncScheduler → AsyncScheduler
unfolding reschedule
schedule_next interval now id s = record s {
  core = reschedule interval now id (s.core.entries id) s.core;
  settled = false;
}

-- The task's next step, at a time; a renewal that ends does so with the outcome.
unfoldable pub run_on : ℕ → ℕ → Renewal → Thread → AsyncScheduler → AsyncScheduler
unfolding peek pop settle_renewal schedule_next
run_on interval now outcome stopped s = s
run_on interval now outcome looping s = if s.due then pop now s else peek now s
run_on interval now outcome (renewing id action) s =
    if s.settled then schedule_next interval now id s else settle_renewal id action outcome s

pub data HeartbeatEvent : Type 0 where
  enters : ℕ → Text → Action → HeartbeatEvent
  leaves : Text → HeartbeatEvent
  closes : HeartbeatEvent
  runs_on : ℕ → Renewal → HeartbeatEvent

unfoldable pub occur : ℕ → HeartbeatEvent → AsyncScheduler → AsyncScheduler
unfolding register deregister run_on
occur interval (enters now id action) s = record s { core = register interval now id action s.core }
occur interval (leaves id) s = record s { core = deregister id s.core }
occur interval closes s = record s { core = record s.core { shutdown = true } }
occur interval (runs_on now outcome) s = run_on interval now outcome s.core.thread s

unfoldable pub occur_all : ℕ → List HeartbeatEvent → AsyncScheduler → AsyncScheduler
unfolding occur
occur_all interval [] s = s
occur_all interval (e ∷ events) s = occur_all interval events (occur interval e s)
