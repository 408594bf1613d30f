-- ===== src/Async/Lifespan/Parts.antt =====
-- Each task of an asynchronous limiter: one that is over stays so and does nothing more, and a drain loop
-- that is shut down is not started again.
use redis_rate_limiter.Prelude.{
  ℕ, ◌≡◌, refl, Bool, true, false, Option, none, some, arith, ◌∙◌, Bool-cases, inl, inr,
}
use redis_rate_limiter.Loop.{
  Loop, Thread, stopped, looping, watching, draining, advance, check, check_wake, end_watch,
  begin_drain,
}
use redis_rate_limiter.Subscriber.{SenderId, Poll, nothing, control, failed, message}
use redis_rate_limiter.Async.Loop.{
  AsyncDrainLoop, request_wake, arrive, advance_run, pick, wake_async,
}
use redis_rate_limiter.Async.Lifespan.{
  Await, unmade, fresh, waiting, busy, finished, AsyncListener, AsyncMonitor, hear_async,
  listen_async, watch_async, is_over, monitor_over, listener_over, go_drain, wakes_loop,
  arrive_loop, go_watch,
}

abbrev pub drains_of : Option AsyncDrainLoop → ℕ
drains_of none = 0
drains_of (some a) = a.loop.drains

abbrev pub heard_by : Option AsyncListener → ℕ
heard_by none = 0
heard_by (some s) = s.heard

abbrev pub checks_of : Option AsyncMonitor → ℕ
checks_of none = 0
checks_of (some h) = h.checks

abbrev pub LoopShut : Option AsyncDrainLoop → Type 0
LoopShut none = Unit {0}
LoopShut (some a) = a.loop.shutdown ≡ true

abbrev pub LoopGone : Option AsyncDrainLoop → Type 0
LoopGone none = Unit {0}
LoopGone (some a) = (a.loop.thread ≡ stopped) × (a.loop.shutdown ≡ true)

-- The monitor's task is cancelled.
abbrev pub MonitorTold : Option AsyncMonitor → Type 0
MonitorTold none = Unit {0}
MonitorTold (some h) = h.cancelled ≡ true

abbrev pub ListenerTold : Option AsyncListener → Type 0
ListenerTold none = Unit {0}
ListenerTold (some s) = s.cancelled ≡ true

pub record CalmLoop (o p : Option AsyncDrainLoop) : Type 0 where
  pub stays_shut : LoopShut o → LoopShut p
  pub stays_gone : LoopGone o → LoopGone p × (drains_of p ≡ drains_of o)

pub record CalmMonitor (o p : Option AsyncMonitor) : Type 0 where
  pub stays_told : MonitorTold o → MonitorTold p
  pub stays_over : monitor_over o ≡ true → (monitor_over p ≡ true) × (checks_of p ≡ checks_of o)

pub record CalmListener (o p : Option AsyncListener) : Type 0 where
  pub stays_told : ListenerTold o → ListenerTold p
  pub stays_over : listener_over o ≡ true → (listener_over p ≡ true) × (heard_by p ≡ heard_by o)

pub same_loop : (o : Option AsyncDrainLoop) → CalmLoop o o
same_loop o = record { stays_shut = λ h. h; stays_gone = λ h. (h, refl) }

pub same_monitor : (o : Option AsyncMonitor) → CalmMonitor o o
same_monitor o = record { stays_told = λ h. h; stays_over = λ h. (h, refl) }

pub same_listener : (o : Option AsyncListener) → CalmListener o o
same_listener o = record { stays_told = λ h. h; stays_over = λ h. (h, refl) }

advance_shut :
    (now : ℕ) (thread : Thread) (l : Loop)
    → l.shutdown ≡ true
    → (advance now thread l).shutdown ≡ true
unfolding advance check end_watch check_wake begin_drain
advance_shut now stopped l h = h
advance_shut now looping l h = ground arith
advance_shut now watching l h = elim l.next_wake as (λ o. (end_watch o l).shutdown ≡ true) [
  | none ↦ h
  | some next ↦ h
]
advance_shut now draining l h = h

advance_gone : (now : ℕ) (thread : Thread) (l : Loop) → thread ≡ stopped → advance now thread l ≡ l
unfolding advance
advance_gone now stopped l at = refl
advance_gone now looping l at = ground arith
advance_gone now watching l at = ground arith
advance_gone now draining l at = ground arith

pub go_drain-CalmLoop :
    (now : ℕ) (cancelled : Bool) (o : Option AsyncDrainLoop) → CalmLoop o (go_drain now cancelled o)
unfolding advance_run
go_drain-CalmLoop now cancelled none = same_loop none
go_drain-CalmLoop now true (some a) = record {
  stays_shut = λ h. h;
  stays_gone = λ (at, h). ((refl, h), refl);
}
go_drain-CalmLoop now false (some a) = record {
  stays_shut = λ h. advance_shut now a.loop.thread a.loop h;
  stays_gone = λ (at, h). rw (advance_gone now a.loop.thread a.loop at) ((at, h), refl);
}

pub wakes_loop-CalmLoop :
    (now delay : ℕ) (o : Option AsyncDrainLoop) → CalmLoop o (wakes_loop now delay o)
unfolding request_wake
wakes_loop-CalmLoop now delay none = same_loop none
wakes_loop-CalmLoop now delay (some a) = record { stays_shut = λ h. h; stays_gone = λ h. (h, refl) }

wake_async_shut :
    (target : ℕ) (l : Loop)
    → l.shutdown ≡ true
    → ((wake_async target l).shutdown ≡ true)
      × ((wake_async target l).thread ≡ l.thread)
      × ((wake_async target l).drains ≡ l.drains)
unfolding wake_async
wake_async_shut target l h = ground arith

arrive_lem :
    (n : ℕ) (a : AsyncDrainLoop) (o : Option ℕ)
    → pick n a.targets ≡ o
    → a.loop.shutdown ≡ true
    → ((arrive n a).loop.shutdown ≡ true)
      × ((arrive n a).loop.thread ≡ a.loop.thread)
      × ((arrive n a).loop.drains ≡ a.loop.drains)
unfolding arrive
arrive_lem n a none at h = rw (arrive, at) (h, refl, refl)
arrive_lem n a (some target) at h = rw (arrive, at) (wake_async_shut target a.loop h)

pub arrive_loop-CalmLoop : (n : ℕ) (o : Option AsyncDrainLoop) → CalmLoop o (arrive_loop n o)
arrive_loop-CalmLoop n none = same_loop none
arrive_loop-CalmLoop n (some a) = record {
  stays_shut = λ h. (arrive_lem n a (pick n a.targets) refl h).0;
  stays_gone = λ (at, h).
      let (closed, thread, drains) = arrive_lem n a (pick n a.targets) refl h in
      ((thread ∙ at, closed), drains);
}

watch_async-CalmMonitor :
    (place : Await) (h : AsyncMonitor)
    → h.place ≡ place
    → CalmMonitor (some h) (some (watch_async place h))
unfolding watch_async
watch_async-CalmMonitor unmade h at = same_monitor (some h)
watch_async-CalmMonitor finished h at = same_monitor (some h)
watch_async-CalmMonitor fresh h at = record { stays_told = λ t. t; stays_over = λ o. ground arith }
watch_async-CalmMonitor busy h at = record { stays_told = λ t. t; stays_over = λ o. ground arith }
watch_async-CalmMonitor waiting h at = record {
  stays_told = λ t. ground arith;
  stays_over = λ o. ground arith;
}

pub go_watch-CalmMonitor : (o : Option AsyncMonitor) → CalmMonitor o (go_watch o)
go_watch-CalmMonitor none = same_monitor none
go_watch-CalmMonitor (some h) = watch_async-CalmMonitor h.place h refl

hear_async-told :
    (foreign : SenderId → Bool) (poll : Poll) (s : AsyncListener)
    → (hear_async foreign poll s).0.cancelled ≡ s.cancelled
unfolding hear_async
hear_async-told foreign nothing s = refl
hear_async-told foreign control s = refl
hear_async-told foreign failed s = refl
hear_async-told foreign (message sender) s = ground arith

listen_async-told :
    (foreign : SenderId → Bool) (poll : Poll) (place : Await) (s : AsyncListener)
    → (listen_async foreign poll place s).0.cancelled ≡ s.cancelled
unfolding listen_async
listen_async-told foreign poll unmade s = refl
listen_async-told foreign poll finished s = refl
listen_async-told foreign poll fresh s = refl
listen_async-told foreign poll busy s = refl
listen_async-told foreign poll waiting s = elim (Bool-cases s.cancelled) [
  | inl e ↦ rw e refl
  | inr e ↦ rw e (hear_async-told foreign poll (record s { cancelled = false }))
]

listen_async-over :
    (foreign : SenderId → Bool) (poll : Poll) (place : Await) (s : AsyncListener)
    → is_over place ≡ true
    → listen_async foreign poll place s ≡ (s, false)
unfolding listen_async
listen_async-over foreign poll unmade s o = refl
listen_async-over foreign poll finished s o = refl
listen_async-over foreign poll fresh s o = ground arith
listen_async-over foreign poll busy s o = ground arith
listen_async-over foreign poll waiting s o = ground arith

pub listen_async-CalmListener :
    (foreign : SenderId → Bool) (poll : Poll) (s : AsyncListener)
    → CalmListener (some s) (some (listen_async foreign poll s.place s).0)
listen_async-CalmListener foreign poll s = record {
  stays_told = λ t. listen_async-told foreign poll s.place s ∙ t;
  stays_over = λ o. rw (listen_async-over foreign poll s.place s o) (o, refl);
}
