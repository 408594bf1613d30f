-- ===== src/Async/Lifespan/Leaving.antt =====
-- When `shutdown` of the asynchronous limiter leaves each of its stages.
use redis_rate_limiter.Prelude.{ℕ, ◌≤◌, ◌≡◌, refl, true, arith}
use redis_rate_limiter.Async.Lifespan.{
  AsyncBackground, monitor_over, loop_over, listener_over, proceed, Stage, running, ending_monitor,
  ending_loop, unsubscribing, ending_listener, shut,
}

-- How far `shutdown` has come.
abbrev pub rank : Stage → ℕ
rank running = 0
rank ending_monitor = 1
rank ending_loop = 2
rank unsubscribing = 3
rank ending_listener = 4
rank shut = 5

proceed-rank :
    (stage : Stage) (b : AsyncBackground)
    → b.stage ≡ stage
    → rank stage ≤ rank (proceed stage b).stage
unfolding proceed
proceed-rank running b at = omega arith
proceed-rank ending_monitor b at = ground arith
proceed-rank ending_loop b at = ground arith
proceed-rank unsubscribing b at = omega arith
proceed-rank ending_listener b at = ground arith
proceed-rank shut b at = rw at (omega arith)

pub leave_running :
    (stage : Stage) (b : AsyncBackground)
    → b.stage ≡ stage
    → 0 ≤ rank stage
    → 1 ≤ rank (proceed stage b).stage
unfolding proceed
leave_running running b at h = omega arith
leave_running ending_monitor b at h = omega (arith, proceed-rank ending_monitor b at)
leave_running ending_loop b at h = omega (arith, proceed-rank ending_loop b at)
leave_running unsubscribing b at h = omega (arith, proceed-rank unsubscribing b at)
leave_running ending_listener b at h = omega (arith, proceed-rank ending_listener b at)
leave_running shut b at h = omega (arith, proceed-rank shut b at)

pub leave_monitor :
    (stage : Stage) (b : AsyncBackground)
    → b.stage ≡ stage
    → 1 ≤ rank stage
    → (stage ≡ ending_monitor → monitor_over b.monitor ≡ true)
    → 2 ≤ rank (proceed stage b).stage
unfolding proceed
leave_monitor running b at h r = omega arith
leave_monitor ending_monitor b at h r = rw (r refl) (omega arith)
leave_monitor ending_loop b at h r = omega (arith, proceed-rank ending_loop b at)
leave_monitor unsubscribing b at h r = omega (arith, proceed-rank unsubscribing b at)
leave_monitor ending_listener b at h r = omega (arith, proceed-rank ending_listener b at)
leave_monitor shut b at h r = omega (arith, proceed-rank shut b at)

pub leave_loop :
    (stage : Stage) (b : AsyncBackground)
    → b.stage ≡ stage
    → 2 ≤ rank stage
    → (stage ≡ ending_loop → loop_over b.drain_loop ≡ true)
    → 3 ≤ rank (proceed stage b).stage
unfolding proceed
leave_loop running b at h r = omega arith
leave_loop ending_monitor b at h r = omega arith
leave_loop ending_loop b at h r = rw (r refl) (omega arith)
leave_loop unsubscribing b at h r = omega (arith, proceed-rank unsubscribing b at)
leave_loop ending_listener b at h r = omega (arith, proceed-rank ending_listener b at)
leave_loop shut b at h r = omega (arith, proceed-rank shut b at)

pub leave_unsubscribing :
    (stage : Stage) (b : AsyncBackground)
    → b.stage ≡ stage
    → 3 ≤ rank stage
    → 4 ≤ rank (proceed stage b).stage
unfolding proceed
leave_unsubscribing running b at h = omega arith
leave_unsubscribing ending_monitor b at h = omega arith
leave_unsubscribing ending_loop b at h = omega arith
leave_unsubscribing unsubscribing b at h = omega arith
leave_unsubscribing ending_listener b at h = omega (arith, proceed-rank ending_listener b at)
leave_unsubscribing shut b at h = omega (arith, proceed-rank shut b at)

pub leave_listener :
    (stage : Stage) (b : AsyncBackground)
    → b.stage ≡ stage
    → 4 ≤ rank stage
    → (stage ≡ ending_listener → listener_over b.subscriber ≡ true)
    → 5 ≤ rank (proceed stage b).stage
unfolding proceed
leave_listener running b at h r = omega arith
leave_listener ending_monitor b at h r = omega arith
leave_listener ending_loop b at h r = omega arith
leave_listener unsubscribing b at h r = omega arith
leave_listener ending_listener b at h r = rw (r refl) (omega arith)
leave_listener shut b at h r = omega (arith, proceed-rank shut b at)

pub rank-shut : (stage : Stage) → 5 ≤ rank stage → stage ≡ shut
rank-shut running h = let no : ⊥ = omega arith in absurd no
rank-shut ending_monitor h = let no : ⊥ = omega arith in absurd no
rank-shut ending_loop h = let no : ⊥ = omega arith in absurd no
rank-shut unsubscribing h = let no : ⊥ = omega arith in absurd no
rank-shut ending_listener h = let no : ⊥ = omega arith in absurd no
rank-shut shut h = refl
