-- ===== src/Loop.antt =====
-- DrainLoop and BackendHealthMonitor of src/redis_rate_limiter/core/limiters.py: what holds the lock
-- is one step, and the thread's place between two of them is a part of the state. Times are those of
-- time.monotonic(), in milliseconds.
pub mod Wakes
pub mod Shutdown
use redis_rate_limiter.Prelude.{
  ℕ, suc, ◌+◌, Bool, true, false, Option, none, some, List, [], ◌∷◌, ltb, leb, if◌then◌else◌,
}

-- The thread: not alive, at the head of the loop, waiting for the watchdog, or in `drain`.
pub data Thread : Type 0 where
  stopped looping watching draining : Thread

pub record Loop : Type 0 where
  pub next_wake : Option ℕ
  pub shutdown : Bool
  pub thread : Thread
  -- how many drains have begun
  pub drains : ℕ

-- DrainLoop.__init__
abbrev pub idle_loop : Loop
idle_loop = record { next_wake = none; shutdown = false; thread = stopped; drains = 0 }

-- _ensure_started
unfoldable pub alive : Thread → Thread
alive stopped = looping
alive looping = looping
alive watching = watching
alive draining = draining

-- self._next_wake is None or target < self._next_wake
unfoldable pub is_sooner : ℕ → Option ℕ → Bool
is_sooner target none = true
is_sooner target (some next) = ltb target next

-- wake(delay)
unfoldable pub wake : ℕ → ℕ → Loop → Loop
unfolding alive is_sooner
wake now delay l =
    let target = now + delay in
    let started = record l { thread = alive l.thread } in
    if is_sooner target l.next_wake then record started { next_wake = some target } else started

-- The drain that the loop begins.
unfoldable pub begin_drain : Loop → Loop
begin_drain l = record l { next_wake = none; thread = draining; drains = suc l.drains }

-- The head of the loop, unless it is shut down; a wait for a wake that is not due ends there again.
unfoldable pub check_wake : ℕ → Option ℕ → Loop → Loop
unfolding begin_drain
check_wake now none l = record l { thread = watching }
check_wake now (some next) l = if ltb now next then l else begin_drain l

unfoldable pub check : ℕ → Loop → Loop
unfolding check_wake
check now l = if l.shutdown then record l { thread = stopped } else check_wake now l.next_wake l

-- The end of the watchdog's wait, by a notification or by its timeout.
unfoldable pub end_watch : Option ℕ → Loop → Loop
unfolding begin_drain
end_watch (some next) l = record l { thread = looping }
end_watch none l = begin_drain l

-- The thread's next step. An exception that escapes `drain` is logged, and the loop goes on.
unfoldable pub advance : ℕ → Thread → Loop → Loop
unfolding check end_watch
advance now stopped l = l
advance now looping l = check now l
advance now watching l = end_watch l.next_wake l
advance now draining l = record l { thread = looping }

pub data Event : Type 0 where
  wakes : ℕ → ℕ → Event
  shuts_down : Event
  advances : ℕ → Event

unfoldable pub perform : Event → Loop → Loop
unfolding wake advance
perform (wakes now delay) l = wake now delay l
perform shuts_down l = record l { shutdown = true }
perform (advances now) l = advance now l.thread l

unfoldable pub run : List Event → Loop → Loop
unfolding perform
run [] l = l
run (e ∷ events) l = run events (perform e l)
