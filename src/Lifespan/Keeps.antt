-- ===== src/Lifespan/Keeps.antt =====
-- What every step of a limiter's threads keeps, whatever happens keeps.
use redis_rate_limiter.Prelude.{
  ℕ, ◌≡◌, refl, Bool, true, Option, none, some, List, [], ◌∷◌, subst, Bool-cases, inl, inr,
}
use redis_rate_limiter.Loop
use redis_rate_limiter.Loop.{Loop, wake, shuts_down, advances}
use redis_rate_limiter.Subscriber.{SenderId, Poll}
use redis_rate_limiter.Lifespan.{
  Listener, listen_on, HealthThread, watch_on, Background, schedule_drain, Happening, loop_steps,
  listener_steps, monitor_steps, schedules, calls_shutdown, closes, Part, the_monitor, the_loop,
  the_listener, close, close_loop, close_listener, close_health, call_shutdown, step_loop,
  step_listener, step_monitor, occur, occur_all,
}

abbrev pub AllOf : {A : Type 0} → (A → Type 0) → Option A → Type 0
AllOf P none = Unit {0}
AllOf P (some a) = P a

-- What the steps of each part keep.
pub record Keeps (P : Loop → Type 0) (Q : Listener → Type 0) (S : HealthThread → Type 0)
    (foreign : SenderId → Bool) : Type 0 where
  pub wakes : (now delay : ℕ) (l : Loop) → P l → P (wake now delay l)
  pub performs : (e : Loop.Event) (l : Loop) → P l → P (Loop.perform e l)
  pub listens : (poll : Poll) (s : Listener) → Q s → Q (listen_on foreign poll s.place s).0
  pub deafens : (s : Listener) → Q s → Q (record s { shutdown = true })
  pub watches : (h : HealthThread) → S h → S (watch_on h.watch h)
  pub blinds : (h : HealthThread) → S h → S (record h { shutdown = true })

-- What is true of each part, and stays true with each of its steps, stays true whatever happens.
module _ (P : Loop → Type 0) (Q : Listener → Type 0) (S : HealthThread → Type 0)
    (foreign : SenderId → Bool) (k : Keeps P Q S foreign) where
  abbrev pub Kept : Background → Type 0
  Kept b = AllOf P b.drain_loop × AllOf Q b.subscriber × AllOf S b.monitor

  wake-AllOf :
      (now delay : ℕ) (b : Background) (o : Option Loop)
      → b.drain_loop ≡ o
      → Kept b
      → Kept (schedule_drain now delay b)
  unfolding schedule_drain
  wake-AllOf now delay b none at (p, q, s) = rw at (tt, q, s)
  wake-AllOf now delay b (some l) at (p, q, s) =
      rw at (k.wakes now delay l (subst (AllOf P) at p), q, s)

  step_loop-AllOf :
      (now : ℕ) (b : Background) (o : Option Loop)
      → b.drain_loop ≡ o
      → Kept b
      → Kept (step_loop now b)
  unfolding step_loop
  step_loop-AllOf now b none at (p, q, s) = rw at (tt, q, s)
  step_loop-AllOf now b (some l) at (p, q, s) =
      rw at (k.performs (advances now) l (subst (AllOf P) at p), q, s)

  step_monitor-AllOf :
      (b : Background) (o : Option HealthThread) → b.monitor ≡ o → Kept b → Kept (step_monitor b)
  unfolding step_monitor
  step_monitor-AllOf b none at (p, q, s) = rw at (p, q, tt)
  step_monitor-AllOf b (some h) at (p, q, s) = rw at (p, q, k.watches h (subst (AllOf S) at s))

  step_listener-AllOf :
      (now : ℕ) (poll : Poll) (b : Background) (o : Option Listener)
      → b.subscriber ≡ o
      → Kept b
      → Kept (step_listener foreign now poll b)
  unfolding step_listener
  step_listener-AllOf now poll b none at (p, q, s) = rw at (p, tt, s)
  step_listener-AllOf now poll b (some l) at (p, q, s) =
      let moved : Background = record b {
        subscriber = some (listen_on foreign poll l.place l).0;
      } in
      let kept : Kept moved = (p, k.listens poll l (subst (AllOf Q) at q), s) in
      rw at (elim (Bool-cases (listen_on foreign poll l.place l).1) [
        | inl e ↦ rw e (wake-AllOf now 0 moved b.drain_loop refl kept)
        | inr e ↦ rw e kept
      ])

  close_loop-AllOf : (o : Option Loop) → AllOf P o → AllOf P (close_loop o)
  close_loop-AllOf none p = tt
  close_loop-AllOf (some l) p = k.performs shuts_down l p

  close_listener-AllOf : (o : Option Listener) → AllOf Q o → AllOf Q (close_listener o)
  close_listener-AllOf none q = tt
  close_listener-AllOf (some l) q = k.deafens l q

  close_health-AllOf : (o : Option HealthThread) → AllOf S o → AllOf S (close_health o)
  close_health-AllOf none s = tt
  close_health-AllOf (some h) s = k.blinds h s

  close-Kept : (part : Part) (b : Background) → Kept b → Kept (close part b)
  unfolding close
  close-Kept the_monitor b (p, q, s) = (p, q, close_health-AllOf b.monitor s)
  close-Kept the_loop b (p, q, s) = (close_loop-AllOf b.drain_loop p, q, s)
  close-Kept the_listener b (p, q, s) = (p, close_listener-AllOf b.subscriber q, s)

  occur-Kept : (e : Happening) (b : Background) → Kept b → Kept (occur foreign e b)
  unfolding occur call_shutdown
  occur-Kept (loop_steps now) b h = step_loop-AllOf now b b.drain_loop refl h
  occur-Kept (listener_steps now poll) b h = step_listener-AllOf now poll b b.subscriber refl h
  occur-Kept monitor_steps b h = step_monitor-AllOf b b.monitor refl h
  occur-Kept (schedules now delay) b h = wake-AllOf now delay b b.drain_loop refl h
  occur-Kept calls_shutdown b h = h
  occur-Kept (closes part) b h = close-Kept part b h

  pub occur_all-Kept :
      (events : List Happening) (b : Background) → Kept b → Kept (occur_all foreign events b)
  unfolding occur_all
  occur_all-Kept [] b h = h
  occur_all-Kept (e ∷ events) b h = occur_all-Kept events (occur foreign e b) (occur-Kept e b h)
