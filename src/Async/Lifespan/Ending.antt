-- ===== src/Async/Lifespan/Ending.antt =====
-- `shutdown` of the asynchronous limiter needs no more than one step of each task that it has cancelled.
use redis_rate_limiter.Prelude.{
  ℕ, ◌≤◌, ◌≡◌, refl, Bool, true, false, Option, none, some, List, [], ◌∷◌, arith, ◌∙◌, sym, subst,
}
use redis_rate_limiter.Subscriber.{SenderId, nothing}
use redis_rate_limiter.Async.Loop.{AsyncDrainLoop}
use redis_rate_limiter.Async.Lifespan.{
  Await, unmade, fresh, waiting, busy, finished, AsyncListener, AsyncMonitor, listen_async,
  watch_async, AsyncBackground, monitor_over, is_over, loop_over, listener_over, go_drain, go_watch,
  go_listen, time_out, Stage, running, ending_monitor, ending_loop, unsubscribing, ending_listener,
  shut, AsyncHappening, loop_goes, listener_goes, monitor_goes, proceeds, times_out, occur_async,
  occur_all_async,
}
use redis_rate_limiter.Async.Lifespan.Parts.{MonitorTold, ListenerTold}
use redis_rate_limiter.Async.Lifespan.Calm.{Calm, occur_async-WhenCalm}
use redis_rate_limiter.Async.Lifespan.Ends.{Ends, EndsOf, occur_all_async-EndsOf}
use redis_rate_limiter.Async.Lifespan.Leaving.{
  rank, leave_running, leave_monitor, leave_loop, leave_unsubscribing, leave_listener, rank-shut,
}

told_watch :
    (place : Await) (m : AsyncMonitor)
    → m.cancelled ≡ true
    → m.place ≡ place
    → is_over (watch_async place m).place ≡ true
unfolding watch_async
told_watch unmade m h at = rw at refl
told_watch finished m h at = rw at refl
told_watch fresh m h at = ground arith
told_watch busy m h at = ground arith
told_watch waiting m h at = ground arith

go_watch-over : (o : Option AsyncMonitor) → MonitorTold o → monitor_over (go_watch o) ≡ true
go_watch-over none h = refl
go_watch-over (some m) h = told_watch m.place m h refl

go_drain-over : (now : ℕ) (o : Option AsyncDrainLoop) → loop_over (go_drain now true o) ≡ true
go_drain-over now none = refl
go_drain-over now (some a) = refl

told_listen :
    (foreign : SenderId → Bool) (place : Await) (s : AsyncListener)
    → s.cancelled ≡ true
    → s.place ≡ place
    → ((listen_async foreign nothing place s).1 ≡ false)
      × (is_over (listen_async foreign nothing place s).0.place ≡ true)
unfolding listen_async
told_listen foreign unmade s h at = rw at (refl, refl)
told_listen foreign finished s h at = rw at (refl, refl)
told_listen foreign fresh s h at = ground arith
told_listen foreign busy s h at = ground arith
told_listen foreign waiting s h at = ground arith

go_listen-over :
    (foreign : SenderId → Bool) (now : ℕ) (o : Option AsyncListener) (b : AsyncBackground)
    → b.subscriber ≡ o
    → ListenerTold o
    → listener_over (go_listen foreign now nothing o b).subscriber ≡ true
unfolding go_listen
go_listen-over foreign now none b at h = rw at refl
go_listen-over foreign now (some s) b at h =
    let (quiet, over) = told_listen foreign s.place s h refl in rw quiet over

timed_out :
    (stage : Stage) (b : AsyncBackground)
    → b.stage ≡ stage
    → (time_out stage b).stage ≡ ending_loop
    → (time_out stage b).loop_cancelled ≡ true
unfolding time_out
timed_out running b at h = ground arith
timed_out ending_monitor b at h = ground arith
timed_out ending_loop b at h = refl
timed_out unsubscribing b at h = ground arith
timed_out ending_listener b at h = ground arith
timed_out shut b at h = ground arith

-- What is left of `shutdown`, from whatever stage: a step of each task that it has cancelled.
abbrev pub the_rest : ℕ → List AsyncHappening
the_rest now =
    proceeds
    ∷ monitor_goes
    ∷ proceeds
    ∷ times_out
    ∷ loop_goes now
    ∷ proceeds
    ∷ proceeds
    ∷ listener_goes now nothing
    ∷ proceeds
    ∷ []

module _ (foreign : SenderId → Bool) where
  end_running : (b : AsyncBackground) → 1 ≤ rank (occur_async foreign proceeds b).stage
  unfolding occur_async
  end_running b = leave_running b.stage b refl (omega arith)

  end_monitor :
      (b : AsyncBackground)
      → EndsOf b
      → 1 ≤ rank b.stage
      → 2 ≤ rank (occur_async foreign proceeds (occur_async foreign monitor_goes b)).stage
  unfolding occur_async
  end_monitor b h r =
      leave_monitor b.stage (record b { monitor = go_watch b.monitor }) refl r
        (λ at.
          go_watch-over b.monitor
            (subst (λ (stage : Stage). Ends stage b.monitor b.drain_loop b.subscriber) at h))

  end_unsubscribing :
      (b : AsyncBackground) → 3 ≤ rank b.stage → 4 ≤ rank (occur_async foreign proceeds b).stage
  unfolding occur_async
  end_unsubscribing b r = leave_unsubscribing b.stage b refl r

  end_listener :
      (now : ℕ) (b : AsyncBackground)
      → EndsOf b
      → 4 ≤ rank b.stage
      → (occur_async foreign proceeds (occur_async foreign (listener_goes now nothing) b)).stage
        ≡ shut
  unfolding occur_async
  end_listener now b h r =
      let c : AsyncBackground = go_listen foreign now nothing b.subscriber b in
      let calm : Calm b c = occur_async-WhenCalm foreign (listener_goes now nothing) b in
      rank-shut _ (
        leave_listener c.stage c refl (subst (λ (stage : Stage). 4 ≤ rank stage) (sym calm.stage) r)
          (λ at.
            go_listen-over foreign now b.subscriber b refl
              (subst (λ (stage : Stage). Ends stage b.monitor b.drain_loop b.subscriber)
                (sym calm.stage ∙ at) h).2))

  end_loop :
      (now : ℕ) (b : AsyncBackground)
      → 2 ≤ rank b.stage
      → 3
        ≤ rank
            (occur_async foreign proceeds
              (occur_async foreign (loop_goes now) (occur_async foreign times_out b))).stage
  unfolding occur_async
  end_loop now b r =
      let d : AsyncBackground = time_out b.stage b in
      let calm : Calm b d = occur_async-WhenCalm foreign times_out b in
      let c : AsyncBackground = occur_async foreign (loop_goes now) d in
      leave_loop d.stage c refl (subst (λ (stage : Stage). 2 ≤ rank stage) (sym calm.stage) r)
        (λ at.
          subst (λ (u : Bool). loop_over (go_drain now u d.drain_loop) ≡ true)
            (sym (timed_out b.stage b refl at)) (go_drain-over now d.drain_loop))

  pub the_rest-shut :
      (now : ℕ) (b : AsyncBackground)
      → EndsOf b
      → (occur_all_async foreign (the_rest now) b).stage ≡ shut
  unfolding occur_all_async
  the_rest-shut now b h =
      let b1 : AsyncBackground = occur_all_async foreign (proceeds ∷ []) b in
      let h1 : EndsOf b1 = occur_all_async-EndsOf foreign (proceeds ∷ []) b h in
      let b2 : AsyncBackground = occur_all_async foreign (monitor_goes ∷ proceeds ∷ []) b1 in
      let h2 : EndsOf b2 = occur_all_async-EndsOf foreign (monitor_goes ∷ proceeds ∷ []) b1 h1 in
      let r2 : 2 ≤ rank b2.stage = end_monitor b1 h1 (end_running b) in
      let stop : List AsyncHappening = times_out ∷ loop_goes now ∷ proceeds ∷ [] in
      let b3 : AsyncBackground = occur_all_async foreign stop b2 in
      let h3 : EndsOf b3 = occur_all_async-EndsOf foreign stop b2 h2 in
      let r3 : 3 ≤ rank b3.stage = end_loop now b2 r2 in
      let b4 : AsyncBackground = occur_all_async foreign (proceeds ∷ []) b3 in
      let h4 : EndsOf b4 = occur_all_async-EndsOf foreign (proceeds ∷ []) b3 h3 in
      end_listener now b4 h4 (end_unsubscribing b3 r3)
