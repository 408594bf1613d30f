-- ===== src/Async/Loop.antt =====
-- AsyncDrainLoop of src/redis_rate_limiter/core/async_limiters.py. `wake` only starts a coroutine; what
-- holds the condition's lock is one step. Times are those of time.monotonic(), in milliseconds.
pub mod Wakes
use redis_rate_limiter.Prelude.{
  ℕ, zero, suc, ◌+◌, Bool, true, false, Option, none, some, List, [], ◌∷◌, ◌++◌, if◌then◌else◌,
}
use redis_rate_limiter.Loop.{Loop, alive, is_sooner, advance}

pub record AsyncDrainLoop : Type 0 where
  pub loop : Loop
  -- the targets of the `_wake_async` that have not run yet
  pub targets : List ℕ

-- wake(delay)
unfoldable pub request_wake : ℕ → ℕ → AsyncDrainLoop → AsyncDrainLoop
request_wake now delay a = record a { targets = a.targets ++ (now + delay) ∷ [] }

-- _wake_async(target)
unfoldable pub wake_async : ℕ → Loop → Loop
unfolding alive is_sooner
wake_async target l =
    let started = if l.shutdown then l else record l { thread = alive l.thread } in
    if is_sooner target l.next_wake then record started { next_wake = some target } else started

abbrev pub pick : ℕ → List ℕ → Option ℕ
pick n [] = none
pick zero (t ∷ ts) = some t
pick (suc n) (t ∷ ts) = pick n ts

abbrev pub drop_at : ℕ → List ℕ → List ℕ
drop_at n [] = []
drop_at zero (t ∷ ts) = ts
drop_at (suc n) (t ∷ ts) = t ∷ drop_at n ts

-- The event loop runs the `_wake_async` at this place.
unfoldable pub arrive : ℕ → AsyncDrainLoop → AsyncDrainLoop
unfolding wake_async
arrive n a = elim (pick n a.targets) [
  | none ↦ a
  | some target ↦ record { loop = wake_async target a.loop; targets = drop_at n a.targets }
]

-- The next step of the task that runs `_run`.
unfoldable pub advance_run : ℕ → AsyncDrainLoop → AsyncDrainLoop
unfolding advance
advance_run now a = record a { loop = advance now a.loop.thread a.loop }

-- shutdown, up to its wait for the task
unfoldable pub shut_down : AsyncDrainLoop → AsyncDrainLoop
shut_down a = record a { loop = record a.loop { shutdown = true } }

pub data AsyncEvent : Type 0 where
  requests : ℕ → ℕ → AsyncEvent
  arrives : ℕ → AsyncEvent
  shuts : AsyncEvent
  goes_on : ℕ → AsyncEvent

unfoldable pub happen : AsyncEvent → AsyncDrainLoop → AsyncDrainLoop
unfolding request_wake arrive advance_run shut_down
happen (requests now delay) a = request_wake now delay a
happen (arrives n) a = arrive n a
happen shuts a = shut_down a
happen (goes_on now) a = advance_run now a

unfoldable pub happen_all : List AsyncEvent → AsyncDrainLoop → AsyncDrainLoop
unfolding happen
happen_all [] a = a
happen_all (e ∷ events) a = happen_all events (happen e a)
