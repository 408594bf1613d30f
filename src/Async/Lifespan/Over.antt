-- ===== src/Async/Lifespan/Over.antt =====
-- `shutdown` of the asynchronous limiter comes to its end, and leaves no task that does anything.
use redis_rate_limiter.Prelude.{ℕ, ◌≡◌, refl, Bool, true, List, [], ◌∷◌, arith, ◌∙◌, sym, subst}
use redis_rate_limiter.Subscriber.{SenderId}
use redis_rate_limiter.Async.Lifespan.{
  AsyncBackground, monitor_over, listener_over, proceed, Stage, running, ending_monitor,
  ending_loop, unsubscribing, ending_listener, shut, AsyncHappening, loop_goes, wake_arrives,
  listener_goes, monitor_goes, drain_asked, proceeds, times_out, occur_async, occur_all_async,
}
use redis_rate_limiter.Async.Lifespan.Parts.{drains_of, heard_by, checks_of, LoopGone}
use redis_rate_limiter.Async.Lifespan.Calm.{Calm, occur_async-WhenCalm}
use redis_rate_limiter.Async.Lifespan.Ends.{Ends, EndsOf, occur_all_async-EndsOf}
use redis_rate_limiter.Async.Lifespan.Ending.{the_rest, the_rest-shut}

-- `shutdown` has returned, and the three tasks are over, having begun so many drains, heard so many
-- messages and begun so many checks.
pub record IsSilent (drains heard checks : ℕ) (b : AsyncBackground) : Type 0 where
  pub stage : b.stage ≡ shut
  pub monitor_done : monitor_over b.monitor ≡ true
  pub loop_gone : LoopGone b.drain_loop
  pub listener_done : listener_over b.subscriber ≡ true
  pub same_drains : drains_of b.drain_loop ≡ drains
  pub same_heard : heard_by b.subscriber ≡ heard
  pub same_checks : checks_of b.monitor ≡ checks

EndsOf-IsSilent :
    (b : AsyncBackground)
    → b.stage ≡ shut
    → EndsOf b
    → IsSilent (drains_of b.drain_loop) (heard_by b.subscriber) (checks_of b.monitor) b
EndsOf-IsSilent b at h =
    let (m, o, s) : Ends shut b.monitor b.drain_loop b.subscriber =
      subst (λ (stage : Stage). Ends stage b.monitor b.drain_loop b.subscriber) at h in
    record {
      stage = at;
      monitor_done = m;
      loop_gone = o;
      listener_done = s;
      same_drains = refl;
      same_heard = refl;
      same_checks = refl;
    }

module _ (d n k : ℕ) where
  Calm-IsSilent : (b c : AsyncBackground) → Calm b c → IsSilent d n k b → IsSilent d n k c
  Calm-IsSilent b c calm h =
      let (monitor, checks) = calm.monitor.stays_over h.monitor_done in
      let (gone, drains) = calm.drain_loop.stays_gone h.loop_gone in
      let (listener, heard) = calm.subscriber.stays_over h.listener_done in
      record {
        stage = calm.stage ∙ h.stage;
        monitor_done = monitor;
        loop_gone = gone;
        listener_done = listener;
        same_drains = drains ∙ h.same_drains;
        same_heard = heard ∙ h.same_heard;
        same_checks = checks ∙ h.same_checks;
      }

  proceed-IsSilent :
      (stage : Stage) (b : AsyncBackground)
      → stage ≡ shut
      → IsSilent d n k b
      → IsSilent d n k (proceed stage b)
  unfolding proceed
  proceed-IsSilent running b at h = ground arith
  proceed-IsSilent ending_monitor b at h = ground arith
  proceed-IsSilent ending_loop b at h = ground arith
  proceed-IsSilent unsubscribing b at h = ground arith
  proceed-IsSilent ending_listener b at h = ground arith
  proceed-IsSilent shut b at h = h

  occur_async-IsSilent :
      (foreign : SenderId → Bool) (e : AsyncHappening) (b : AsyncBackground)
      → IsSilent d n k b
      → IsSilent d n k (occur_async foreign e b)
  unfolding occur_async
  occur_async-IsSilent foreign proceeds b h = proceed-IsSilent b.stage b h.stage h
  occur_async-IsSilent foreign (loop_goes now) b h =
      Calm-IsSilent b _ (occur_async-WhenCalm foreign (loop_goes now) b) h
  occur_async-IsSilent foreign (wake_arrives i) b h =
      Calm-IsSilent b _ (occur_async-WhenCalm foreign (wake_arrives i) b) h
  occur_async-IsSilent foreign (listener_goes now poll) b h =
      Calm-IsSilent b _ (occur_async-WhenCalm foreign (listener_goes now poll) b) h
  occur_async-IsSilent foreign monitor_goes b h =
      Calm-IsSilent b _ (occur_async-WhenCalm foreign monitor_goes b) h
  occur_async-IsSilent foreign (drain_asked now delay) b h =
      Calm-IsSilent b _ (occur_async-WhenCalm foreign (drain_asked now delay) b) h
  occur_async-IsSilent foreign times_out b h =
      Calm-IsSilent b _ (occur_async-WhenCalm foreign times_out b) h

  occur_all_async-IsSilent :
      (foreign : SenderId → Bool) (events : List AsyncHappening) (b : AsyncBackground)
      → IsSilent d n k b
      → IsSilent d n k (occur_all_async foreign events b)
  unfolding occur_all_async
  occur_all_async-IsSilent foreign [] b h = h
  occur_all_async-IsSilent foreign (e ∷ events) b h =
      occur_all_async-IsSilent foreign events (occur_async foreign e b)
        (occur_async-IsSilent foreign e b h)

-- Whatever happens to a limiter's tasks, from any state in which `shutdown` has not been called, calls of
-- it included: one step of each task that it has cancelled, and its own steps between them, bring it to
-- its end; and whatever happens afterwards, messages and calls of _schedule_drain included, the drain loop,
-- the listener and the monitor stay done, and no drain begins, no message is heard, and no check begins.
pub shutdown-IsSilent :
    (foreign : SenderId → Bool) (events later : List AsyncHappening) (now : ℕ) (b : AsyncBackground)
    → b.stage ≡ running
    → let over = occur_all_async foreign (the_rest now) (occur_all_async foreign events b) in
      IsSilent
        (drains_of over.drain_loop)
        (heard_by over.subscriber)
        (checks_of over.monitor)
        (occur_all_async foreign later over)
shutdown-IsSilent foreign events later now b at =
    let h : EndsOf (occur_all_async foreign events b) =
      occur_all_async-EndsOf foreign events b
        (subst (λ (stage : Stage). Ends stage b.monitor b.drain_loop b.subscriber) (sym at) tt) in
    let over : AsyncBackground =
      occur_all_async foreign (the_rest now) (occur_all_async foreign events b) in
    let at_end : over.stage ≡ shut =
      the_rest-shut foreign now (occur_all_async foreign events b) h in
    let ends : EndsOf over =
      occur_all_async-EndsOf foreign (the_rest now) (occur_all_async foreign events b) h in
    occur_all_async-IsSilent (drains_of over.drain_loop) (heard_by over.subscriber)
      (checks_of over.monitor) foreign later over (EndsOf-IsSilent over at_end ends)
