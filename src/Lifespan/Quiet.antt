-- ===== src/Lifespan/Quiet.antt =====
-- After `shutdown`, the threads of a limiter do next to nothing more.
use redis_rate_limiter.Prelude.{
  ℕ, ◌+◌, ◌≤◌, ◌≡◌, refl, Bool, true, Option, none, some, List, ◌∷◌, arith,
}
use redis_rate_limiter.Loop
use redis_rate_limiter.Loop.{
  Thread, stopped, looping, watching, draining, Loop, wakes, shuts_down, advances, perform,
}
use redis_rate_limiter.Loop.Shutdown.{IsClosing, may_begin, wake-IsClosing, advance-IsClosing}
use redis_rate_limiter.Subscriber.{SenderId, Poll, nothing, control, failed, message}
use redis_rate_limiter.Lifespan.{
  Place, head, polling, ended, Listener, hear, listen_on, Watch, waiting, checking, over,
  HealthThread, watch_on, close_loop, close_listener, close_health, close, the_monitor, the_loop,
  the_listener, Background, Happening, closes, occur, occur_all,
}
use redis_rate_limiter.Lifespan.Keeps.{AllOf, Keeps, occur_all-Kept}

-- A message that the listener is already waiting for may still be heard.
abbrev may_hear : Place → ℕ
may_hear polling = 1
may_hear _ = 0

record IsDeaf (n : ℕ) (s : Listener) : Type 0 where
  pub closed : s.shutdown ≡ true
  pub few : s.heard + may_hear s.place ≤ n

record IsBlind (n : ℕ) (h : HealthThread) : Type 0 where
  pub closed : h.shutdown ≡ true
  pub same : h.checks ≡ n

listen_on-IsDeaf :
    (foreign : SenderId → Bool) (poll : Poll) (n : ℕ) (place : Place) (s : Listener)
    → s.place ≡ place
    → IsDeaf n s
    → IsDeaf n (listen_on foreign poll place s).0
unfolding listen_on hear
listen_on-IsDeaf foreign poll n head s at d = ground arith
listen_on-IsDeaf foreign nothing n polling s at d = ground arith
listen_on-IsDeaf foreign control n polling s at d = ground arith
listen_on-IsDeaf foreign failed n polling s at d = ground arith
listen_on-IsDeaf foreign (message sender) n polling s at d = ground arith
listen_on-IsDeaf foreign poll n ended s at d = d

watch_on-IsBlind :
    (n : ℕ) (watch : Watch) (h : HealthThread)
    → h.watch ≡ watch
    → IsBlind n h
    → IsBlind n (watch_on watch h)
unfolding watch_on
watch_on-IsBlind n waiting h at d = ground arith
watch_on-IsBlind n checking h at d = ground arith
watch_on-IsBlind n over h at d = d

perform-IsClosing : (n : ℕ) (e : Loop.Event) (l : Loop) → IsClosing n l → IsClosing n (perform e l)
unfolding perform
perform-IsClosing n (wakes now delay) l c = wake-IsClosing n now delay l c
perform-IsClosing n shuts_down l c = record { closed = refl; few = c.few }
perform-IsClosing n (advances now) l c = advance-IsClosing n now l.thread l refl c

abbrev Anything : {A : Type 0} → A → Type 0
Anything a = Unit {0}

loop-Keeps : (n : ℕ) (foreign : SenderId → Bool) → Keeps (IsClosing n) Anything Anything foreign
loop-Keeps n foreign = record {
  wakes = wake-IsClosing n;
  performs = perform-IsClosing n;
  listens = λ poll s q. tt;
  deafens = λ s q. tt;
  watches = λ h q. tt;
  blinds = λ h q. tt;
}

listener-Keeps : (n : ℕ) (foreign : SenderId → Bool) → Keeps Anything (IsDeaf n) Anything foreign
listener-Keeps n foreign = record {
  wakes = λ now delay l p. tt;
  performs = λ e l p. tt;
  listens = λ poll s q. listen_on-IsDeaf foreign poll n s.place s refl q;
  deafens = λ s q. record { closed = refl; few = q.few };
  watches = λ h q. tt;
  blinds = λ h q. tt;
}

monitor-Keeps : (n : ℕ) (foreign : SenderId → Bool) → Keeps Anything Anything (IsBlind n) foreign
monitor-Keeps n foreign = record {
  wakes = λ now delay l p. tt;
  performs = λ e l p. tt;
  listens = λ poll s q. tt;
  deafens = λ s q. tt;
  watches = λ h q. watch_on-IsBlind n h.watch h refl q;
  blinds = λ h q. record { closed = refl; same = q.same };
}

anything : {A : Type 0} (o : Option A) → AllOf Anything o
anything none = tt
anything (some a) = tt

abbrev pub drains_of : Option Loop → ℕ
drains_of none = 0
drains_of (some l) = l.drains

abbrev pub heard_by : Option Listener → ℕ
heard_by none = 0
heard_by (some s) = s.heard

abbrev pub checks_of : Option HealthThread → ℕ
checks_of none = 0
checks_of (some h) = h.checks

may_begin-le : (thread : Thread) → may_begin thread ≤ 1
may_begin-le stopped = omega arith
may_begin-le looping = omega arith
may_begin-le watching = omega arith
may_begin-le draining = omega arith

may_hear-le : (place : Place) → may_hear place ≤ 1
may_hear-le head = omega arith
may_hear-le polling = omega arith
may_hear-le ended = omega arith

drains-le : (n : ℕ) (o : Option Loop) → AllOf (IsClosing n) o → drains_of o ≤ n
drains-le n none c = omega arith
drains-le n (some l) c = omega (arith, c.few)

heard-le : (n : ℕ) (o : Option Listener) → AllOf (IsDeaf n) o → heard_by o ≤ n
heard-le n none d = omega arith
heard-le n (some s) d = omega (arith, d.few)

checks-le : (n : ℕ) (o : Option HealthThread) → AllOf (IsBlind n) o → checks_of o ≤ n
checks-le n none d = omega arith
checks-le n (some h) d = omega (arith, d.same)

close_loop-IsClosing : (o : Option Loop) → AllOf (IsClosing (drains_of o + 1)) (close_loop o)
unfolding perform
close_loop-IsClosing none = tt
close_loop-IsClosing (some l) = record { closed = refl; few = omega (arith, may_begin-le l.thread) }

close_listener-IsDeaf : (o : Option Listener) → AllOf (IsDeaf (heard_by o + 1)) (close_listener o)
close_listener-IsDeaf none = tt
close_listener-IsDeaf (some s) = record { closed = refl; few = omega (arith, may_hear-le s.place) }

close_health-IsBlind : (o : Option HealthThread) → AllOf (IsBlind (checks_of o)) (close_health o)
close_health-IsBlind none = tt
close_health-IsBlind (some h) = record { closed = refl; same = refl }

-- Whatever a limiter's threads are doing when `shutdown` reaches a part, and whatever happens afterwards,
-- in any order, messages, calls of _schedule_drain and the closing of the other parts included: behind
-- the step that closes the drain loop at most one more drain begins, behind the one that closes the
-- listener at most one more message wakes the drain loop, and behind the one that closes the monitor no
-- more health check begins.
pub close-quiet :
    (foreign : SenderId → Bool) (events : List Happening) (b : Background)
    → (drains_of (occur_all foreign (closes the_loop ∷ events) b).drain_loop
        ≤ drains_of b.drain_loop + 1)
      × (heard_by (occur_all foreign (closes the_listener ∷ events) b).subscriber
          ≤ heard_by b.subscriber + 1)
      × (checks_of (occur_all foreign (closes the_monitor ∷ events) b).monitor
          ≤ checks_of b.monitor)
unfolding occur_all occur close
close-quiet foreign events b =
    let d : ℕ = drains_of b.drain_loop + 1 in
    let n : ℕ = heard_by b.subscriber + 1 in
    let k : ℕ = checks_of b.monitor in
    let (loop, _, _) =
      occur_all-Kept (IsClosing d) Anything Anything foreign (loop-Keeps d foreign) events
        (close the_loop b)
        (close_loop-IsClosing b.drain_loop, anything b.subscriber, anything b.monitor) in
    let (_, listener, _) =
      occur_all-Kept Anything (IsDeaf n) Anything foreign (listener-Keeps n foreign) events
        (close the_listener b)
        (anything b.drain_loop, close_listener-IsDeaf b.subscriber, anything b.monitor) in
    let (_, _, monitor) =
      occur_all-Kept Anything Anything (IsBlind k) foreign (monitor-Keeps k foreign) events
        (close the_monitor b)
        (anything b.drain_loop, anything b.subscriber, close_health-IsBlind b.monitor) in
    (drains-le d _ loop, heard-le n _ listener, checks-le k _ monitor)
