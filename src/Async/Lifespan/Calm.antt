-- ===== src/Async/Lifespan/Calm.antt =====
-- What happens besides the steps of `shutdown` undoes nothing of it.
use redis_rate_limiter.Prelude.{ℕ, ◌≡◌, refl, Bool, Option, none, some, Bool-cases, inl, inr}
use redis_rate_limiter.Subscriber.{SenderId, Poll}
use redis_rate_limiter.Async.Lifespan.{
  AsyncListener, listen_async, AsyncBackground, schedule_drain_async, go_listen, time_out, Stage,
  running, ending_monitor, ending_loop, unsubscribing, ending_listener, shut, AsyncHappening,
  loop_goes, wake_arrives, listener_goes, monitor_goes, drain_asked, proceeds, times_out,
  occur_async,
}
use redis_rate_limiter.Async.Lifespan.Parts.{
  same_loop, same_monitor, same_listener, go_drain-CalmLoop, wakes_loop-CalmLoop,
  arrive_loop-CalmLoop, go_watch-CalmMonitor, listen_async-CalmListener, CalmLoop, CalmMonitor,
  CalmListener,
}

-- A step of anything but `shutdown` itself.
pub record Calm (b c : AsyncBackground) : Type 0 where
  pub stage : c.stage ≡ b.stage
  pub drain_loop : CalmLoop b.drain_loop c.drain_loop
  pub monitor : CalmMonitor b.monitor c.monitor
  pub subscriber : CalmListener b.subscriber c.subscriber

go_listen-Calm :
    (foreign : SenderId → Bool) (now : ℕ) (poll : Poll) (o : Option AsyncListener)
    (b : AsyncBackground)
    → b.subscriber ≡ o
    → Calm b (go_listen foreign now poll o b)
unfolding go_listen schedule_drain_async
go_listen-Calm foreign now poll none b at = record {
  stage = refl;
  drain_loop = same_loop b.drain_loop;
  monitor = same_monitor b.monitor;
  subscriber = same_listener b.subscriber;
}
go_listen-Calm foreign now poll (some s) b at =
    let heard : CalmListener b.subscriber (some (listen_async foreign poll s.place s).0) =
      rw at (listen_async-CalmListener foreign poll s) in
    elim (Bool-cases (listen_async foreign poll s.place s).1) [
      | inl e ↦ rw e (record {
        stage = refl;
        drain_loop = wakes_loop-CalmLoop now 0 b.drain_loop;
        monitor = same_monitor b.monitor;
        subscriber = heard;
      })
      | inr e ↦ rw e (record {
        stage = refl;
        drain_loop = same_loop b.drain_loop;
        monitor = same_monitor b.monitor;
        subscriber = heard;
      })
    ]

pub same_background : (b : AsyncBackground) → Calm b b
same_background b = record {
  stage = refl;
  drain_loop = same_loop b.drain_loop;
  monitor = same_monitor b.monitor;
  subscriber = same_listener b.subscriber;
}

time_out-Calm : (stage : Stage) (b : AsyncBackground) → Calm b (time_out stage b)
unfolding time_out
time_out-Calm running b = same_background b
time_out-Calm ending_monitor b = same_background b
time_out-Calm ending_loop b = record {
  stage = refl;
  drain_loop = same_loop b.drain_loop;
  monitor = same_monitor b.monitor;
  subscriber = same_listener b.subscriber;
}
time_out-Calm unsubscribing b = same_background b
time_out-Calm ending_listener b = same_background b
time_out-Calm shut b = same_background b

-- Calls of `shutdown` aside.
abbrev pub WhenCalm : (SenderId → Bool) → AsyncHappening → AsyncBackground → Type 0
WhenCalm foreign proceeds b = Unit {0}
WhenCalm foreign e b = Calm b (occur_async foreign e b)

pub occur_async-WhenCalm :
    (foreign : SenderId → Bool) (e : AsyncHappening) (b : AsyncBackground) → WhenCalm foreign e b
unfolding occur_async schedule_drain_async
occur_async-WhenCalm foreign (loop_goes now) b = record {
  stage = refl;
  drain_loop = go_drain-CalmLoop now b.loop_cancelled b.drain_loop;
  monitor = same_monitor b.monitor;
  subscriber = same_listener b.subscriber;
}
occur_async-WhenCalm foreign (wake_arrives n) b = record {
  stage = refl;
  drain_loop = arrive_loop-CalmLoop n b.drain_loop;
  monitor = same_monitor b.monitor;
  subscriber = same_listener b.subscriber;
}
occur_async-WhenCalm foreign (listener_goes now poll) b =
    go_listen-Calm foreign now poll b.subscriber b refl
occur_async-WhenCalm foreign monitor_goes b = record {
  stage = refl;
  drain_loop = same_loop b.drain_loop;
  monitor = go_watch-CalmMonitor b.monitor;
  subscriber = same_listener b.subscriber;
}
occur_async-WhenCalm foreign (drain_asked now delay) b = record {
  stage = refl;
  drain_loop = wakes_loop-CalmLoop now delay b.drain_loop;
  monitor = same_monitor b.monitor;
  subscriber = same_listener b.subscriber;
}
occur_async-WhenCalm foreign proceeds b = tt
occur_async-WhenCalm foreign times_out b = time_out-Calm b.stage b
