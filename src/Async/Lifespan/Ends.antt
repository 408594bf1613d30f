-- ===== src/Async/Lifespan/Ends.antt =====
-- What the stages of `shutdown` of the asynchronous limiter have behind them.
use redis_rate_limiter.Prelude.{
  ◌≡◌, refl, Bool, true, Option, none, some, List, [], ◌∷◌, arith, Bool-cases, inl, inr, sym, subst,
}
use redis_rate_limiter.Loop.{Thread, stopped, looping, watching, draining}
use redis_rate_limiter.Subscriber.{SenderId}
use redis_rate_limiter.Async.Loop.{AsyncDrainLoop, shut_down}
use redis_rate_limiter.Async.Lifespan.{
  AsyncListener, AsyncMonitor, AsyncBackground, monitor_over, is_stopped, loop_over, listener_over,
  stop_monitor, stop_loop, cancel_listener, proceed, Stage, running, ending_monitor, ending_loop,
  unsubscribing, ending_listener, shut, AsyncHappening, loop_goes, wake_arrives, listener_goes,
  monitor_goes, drain_asked, proceeds, times_out, occur_async, occur_all_async,
}
use redis_rate_limiter.Async.Lifespan.Parts.{LoopShut, LoopGone, MonitorTold, ListenerTold}
use redis_rate_limiter.Async.Lifespan.Calm.{Calm, occur_async-WhenCalm}

-- What is over at each stage of `shutdown`.
abbrev pub Ends :
    Stage → Option AsyncMonitor → Option AsyncDrainLoop → Option AsyncListener → Type 0
Ends running m o s = Unit {0}
Ends ending_monitor m o s = MonitorTold m
Ends ending_loop m o s = (monitor_over m ≡ true) × LoopShut o
Ends unsubscribing m o s = (monitor_over m ≡ true) × LoopGone o
Ends ending_listener m o s = (monitor_over m ≡ true) × LoopGone o × ListenerTold s
Ends shut m o s = (monitor_over m ≡ true) × LoopGone o × (listener_over s ≡ true)

abbrev pub EndsOf : AsyncBackground → Type 0
EndsOf b = Ends b.stage b.monitor b.drain_loop b.subscriber

Calm-Ends :
    (stage : Stage) (b c : AsyncBackground)
    → Calm b c
    → Ends stage b.monitor b.drain_loop b.subscriber
    → Ends stage c.monitor c.drain_loop c.subscriber
Calm-Ends running b c k h = tt
Calm-Ends ending_monitor b c k h = k.monitor.stays_told h
Calm-Ends ending_loop b c k (m, o) = ((k.monitor.stays_over m).0, k.drain_loop.stays_shut o)
Calm-Ends unsubscribing b c k (m, o) = ((k.monitor.stays_over m).0, (k.drain_loop.stays_gone o).0)
Calm-Ends ending_listener b c k (m, o, s) =
    ((k.monitor.stays_over m).0, (k.drain_loop.stays_gone o).0, k.subscriber.stays_told s)
Calm-Ends shut b c k (m, o, s) =
    ((k.monitor.stays_over m).0, (k.drain_loop.stays_gone o).0, (k.subscriber.stays_over s).0)

Calm-EndsOf : (b c : AsyncBackground) → Calm b c → EndsOf b → EndsOf c
Calm-EndsOf b c k h =
    subst (λ (stage : Stage). Ends stage c.monitor c.drain_loop c.subscriber) (sym k.stage)
      (Calm-Ends b.stage b c k h)

stop_monitor-Told : (o : Option AsyncMonitor) → MonitorTold (stop_monitor o)
stop_monitor-Told none = tt
stop_monitor-Told (some h) = refl

stop_loop-Shut : (o : Option AsyncDrainLoop) → LoopShut (stop_loop o)
unfolding shut_down
stop_loop-Shut none = tt
stop_loop-Shut (some a) = refl

thread_stopped : (thread : Thread) → is_stopped thread ≡ true → thread ≡ stopped
thread_stopped stopped h = refl
thread_stopped looping h = ground arith
thread_stopped watching h = ground arith
thread_stopped draining h = ground arith

loop_over-Gone : (o : Option AsyncDrainLoop) → loop_over o ≡ true → LoopShut o → LoopGone o
loop_over-Gone none h s = tt
loop_over-Gone (some a) h s = (thread_stopped a.loop.thread h, s)

cancel_listener-Told : (o : Option AsyncListener) → ListenerTold (cancel_listener o)
cancel_listener-Told none = tt
cancel_listener-Told (some s) = refl

proceed-EndsOf :
    (stage : Stage) (b : AsyncBackground) → b.stage ≡ stage → EndsOf b → EndsOf (proceed stage b)
unfolding proceed
proceed-EndsOf running b at h = stop_monitor-Told b.monitor
proceed-EndsOf ending_monitor b at h = elim (Bool-cases (monitor_over b.monitor)) [
  | inl e ↦ rw e (e, stop_loop-Shut b.drain_loop)
  | inr e ↦ rw e h
]
proceed-EndsOf ending_loop b at h =
    let (m, o) : Ends ending_loop b.monitor b.drain_loop b.subscriber = rw at at h in
    elim (Bool-cases (loop_over b.drain_loop)) [
      | inl e ↦ rw e (m, loop_over-Gone b.drain_loop e o)
      | inr e ↦ rw e h
    ]
proceed-EndsOf unsubscribing b at h =
    let (m, o) : Ends unsubscribing b.monitor b.drain_loop b.subscriber = rw at at h in
    (m, o, cancel_listener-Told b.subscriber)
proceed-EndsOf ending_listener b at h =
    let (m, o, s) : Ends ending_listener b.monitor b.drain_loop b.subscriber = rw at at h in
    elim (Bool-cases (listener_over b.subscriber)) [ inl e ↦ rw e (m, o, e) | inr e ↦ rw e h ]
proceed-EndsOf shut b at h = h

occur_async-EndsOf :
    (foreign : SenderId → Bool) (e : AsyncHappening) (b : AsyncBackground)
    → EndsOf b
    → EndsOf (occur_async foreign e b)
unfolding occur_async
occur_async-EndsOf foreign proceeds b h = proceed-EndsOf b.stage b refl h
occur_async-EndsOf foreign (loop_goes now) b h =
    Calm-EndsOf b _ (occur_async-WhenCalm foreign (loop_goes now) b) h
occur_async-EndsOf foreign (wake_arrives n) b h =
    Calm-EndsOf b _ (occur_async-WhenCalm foreign (wake_arrives n) b) h
occur_async-EndsOf foreign (listener_goes now poll) b h =
    Calm-EndsOf b _ (occur_async-WhenCalm foreign (listener_goes now poll) b) h
occur_async-EndsOf foreign monitor_goes b h =
    Calm-EndsOf b _ (occur_async-WhenCalm foreign monitor_goes b) h
occur_async-EndsOf foreign (drain_asked now delay) b h =
    Calm-EndsOf b _ (occur_async-WhenCalm foreign (drain_asked now delay) b) h
occur_async-EndsOf foreign times_out b h =
    Calm-EndsOf b _ (occur_async-WhenCalm foreign times_out b) h

pub occur_all_async-EndsOf :
    (foreign : SenderId → Bool) (events : List AsyncHappening) (b : AsyncBackground)
    → EndsOf b
    → EndsOf (occur_all_async foreign events b)
unfolding occur_all_async
occur_all_async-EndsOf foreign [] b h = h
occur_all_async-EndsOf foreign (e ∷ events) b h =
    occur_all_async-EndsOf foreign events (occur_async foreign e b)
      (occur_async-EndsOf foreign e b h)
