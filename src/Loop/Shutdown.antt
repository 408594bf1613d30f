-- ===== src/Loop/Shutdown.antt =====
-- What a shutdown of the drain loop stops.
use redis_rate_limiter.Prelude.{ℕ, suc, ◌+◌, ◌-◌, ◌≤◌, ◌≡◌, refl, true, none, List, [], ◌∷◌, arith}
use redis_rate_limiter.Loop.{
  Thread, stopped, looping, watching, draining, Loop, alive, is_sooner, wake, begin_drain,
  check_wake, check, end_watch, advance, Event, wakes, shuts_down, advances, perform, run,
}

-- The drains that a thread at this place may still begin.
abbrev pub may_begin : Thread → ℕ
may_begin watching = 1
may_begin _ = 0

-- A loop that is shut down, and whose drains with those it may still begin are at most `n`.
pub record IsClosing (n : ℕ) (l : Loop) : Type 0 where
  pub closed : l.shutdown ≡ true
  pub few : l.drains + may_begin l.thread ≤ n

may_begin-alive : (thread : Thread) → may_begin (alive thread) ≡ may_begin thread
unfolding alive
may_begin-alive stopped = refl
may_begin-alive looping = refl
may_begin-alive watching = refl
may_begin-alive draining = refl

pub wake-IsClosing : (n now delay : ℕ) (l : Loop) → IsClosing n l → IsClosing n (wake now delay l)
unfolding wake is_sooner
wake-IsClosing n now delay l c = ground (arith, may_begin-alive l.thread)

pub advance-IsClosing :
    (n now : ℕ) (thread : Thread) (l : Loop)
    → l.thread ≡ thread
    → IsClosing n l
    → IsClosing n (advance now thread l)
unfolding advance check check_wake end_watch begin_drain
advance-IsClosing n now stopped l at c = c
advance-IsClosing n now looping l at c = ground arith
advance-IsClosing n now watching l at c = ground arith
advance-IsClosing n now draining l at c = ground arith

pub run-IsClosing :
    (n : ℕ) (events : List Event) (l : Loop) → IsClosing n l → IsClosing n (run events l)
unfolding run perform
run-IsClosing n [] l c = c
run-IsClosing n (wakes now delay ∷ events) l c =
    run-IsClosing n events _ (wake-IsClosing n now delay l c)
run-IsClosing n (shuts_down ∷ events) l c =
    run-IsClosing n events _ (record { closed = refl; few = c.few })
run-IsClosing n (advances now ∷ events) l c =
    run-IsClosing n events _ (advance-IsClosing n now l.thread l refl c)

-- How many steps the thread still takes.
abbrev steps_left : Thread → ℕ
steps_left stopped = 0
steps_left looping = 1
steps_left draining = 2
steps_left watching = 3

stopped_of_none : (thread : Thread) → steps_left thread ≤ 0 → thread ≡ stopped
stopped_of_none stopped h = refl
stopped_of_none looping h = absurd (omega arith)
stopped_of_none draining h = absurd (omega arith)
stopped_of_none watching h = absurd (omega arith)

steps_left-le : (thread : Thread) → steps_left thread ≤ 3
steps_left-le stopped = omega arith
steps_left-le looping = omega arith
steps_left-le draining = omega arith
steps_left-le watching = omega arith

advance_closes :
    (now : ℕ) (thread : Thread) (l : Loop)
    → l.thread ≡ thread
    → l.shutdown ≡ true
    → ((advance now thread l).shutdown ≡ true)
      × (steps_left (advance now thread l).thread ≤ steps_left thread - 1)
unfolding advance check check_wake end_watch begin_drain
advance_closes now stopped l at c = (c, rw at (omega arith))
advance_closes now looping l at c = ground arith
advance_closes now watching l at c = ground arith
advance_closes now draining l at c = ground arith

pub three_stop :
    (a b c : ℕ) (l : Loop)
    → l.shutdown ≡ true
    → (run (advances a ∷ advances b ∷ advances c ∷ []) l).thread ≡ stopped
unfolding run perform
three_stop a b c l closed =
    let m : Loop = advance a l.thread l in
    let k : Loop = advance b m.thread m in
    let (one, first) = advance_closes a l.thread l refl closed in
    let (two, second) = advance_closes b m.thread m refl one in
    let (three, third) = advance_closes c k.thread k refl two in
    stopped_of_none _ (omega (arith, steps_left-le l.thread))

watching_drains :
    (now : ℕ) (l : Loop)
    → l.thread ≡ watching
    → l.next_wake ≡ none
    → (run (shuts_down ∷ advances now ∷ []) l).drains ≡ suc l.drains
unfolding run perform advance end_watch begin_drain
watching_drains now l at none_due = rw (at, none_due) refl

-- A shutdown, and whatever happens after it, calls of wake included: no more drain begins, but for one
-- if the thread was in the watchdog's wait, which begins when that wait ends with no wake-up due; and
-- three more steps of the thread, at any times, end it.
pub run-shutdown :
    (events : List Event) (l : Loop)
    → let closed = run (shuts_down ∷ events) l in
      (closed.drains ≤ l.drains + may_begin l.thread)
      × ((a b c : ℕ) → (run (advances a ∷ advances b ∷ advances c ∷ []) closed).thread ≡ stopped)
      × (l.thread ≡ watching
          → l.next_wake ≡ none
          → (now : ℕ) → (run (shuts_down ∷ advances now ∷ []) l).drains ≡ suc l.drains)
unfolding run perform
run-shutdown events l =
    let start : Loop = perform shuts_down l in
    let c : IsClosing (l.drains + may_begin l.thread) (run events start) =
      run-IsClosing (l.drains + may_begin l.thread) events start
        (record { closed = refl; few = omega arith }) in
    (
      omega (arith, c.few),
      λ x y z. three_stop x y z (run events start) c.closed,
      λ at none_due now. watching_drains now l at none_due,
    )
