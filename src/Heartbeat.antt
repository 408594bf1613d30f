-- ===== src/Heartbeat.antt =====
-- HeartbeatScheduler of src/redis_rate_limiter/core/limiters.py: one thread that renews the leases
-- of many tasks. What holds the lock is one step; the thread's place between two of them is a part
-- of the state. Times are those of time.monotonic(), in milliseconds.
pub mod Turns
pub mod Registrations
pub mod Coverage
use redis_rate_limiter.Prelude.{
  ℕ, suc, ◌+◌, Bool, true, false, ◌&&◌, ◌||◌, Option, none, some, List, [], ◌∷◌, ltb, ◌==◌,
  if◌then◌else◌,
}
use redis_rate_limiter.Prelude.Text.{Text, same}

-- on_failure_action
pub data Action : Type 0 where
  warn kill : Action

-- HeartbeatEntry, under its task_id
pub record Entry : Type 0 where
  pub on_failure : Action
  pub is_healthy : Bool
  pub generation : ℕ

-- A tuple of the heap: (due, task_id, generation)
pub record Tuple : Type 0 where
  pub due : ℕ
  pub task_id : Text
  pub generation : ℕ

-- The thread: not alive, at the head of its loop, or at `_renew_one`, outside the lock.
pub data Thread : Type 0 where
  stopped looping : Thread
  renewing : Text → Action → Thread

pub record Scheduler : Type 0 where
  pub entries : Text → Option Entry
  pub heap : List Tuple
  pub shutdown : Bool
  pub thread : Thread
  -- whether SIGTERM was sent to the process
  pub terminated : Bool

abbrev pub initial : Scheduler
initial = record {
  entries = λ id. none;
  heap = [];
  shutdown = false;
  thread = Thread.stopped;
  terminated = false;
}

abbrev pub put : Text → Option Entry → (Text → Option Entry) → Text → Option Entry
put id entry entries j = if same id j then entry else entries j

-- The order of texts and of tuples in Python.
unfoldable pub ltb_text : Text → Text → Bool
ltb_text s [] = false
ltb_text [] (d ∷ ds) = true
ltb_text (c ∷ cs) (d ∷ ds) = ltb c d || (c == d && ltb_text cs ds)

unfoldable pub comes_before : Tuple → Tuple → Bool
unfolding ltb_text
comes_before a b =
    ltb a.due b.due
    || (a.due == b.due
        && (ltb_text a.task_id b.task_id
            || (same a.task_id b.task_id && ltb a.generation b.generation)))

-- heapq.heappush, of a heap that is kept as the list of its tuples in order
unfoldable pub heappush : Tuple → List Tuple → List Tuple
unfolding comes_before
heappush t [] = t ∷ []
heappush t (u ∷ heap) = if comes_before t u then t ∷ u ∷ heap else u ∷ heappush t heap

-- _ensure_started_locked
unfoldable pub ensure_started : Scheduler → Scheduler
ensure_started s = elim s.thread [
  | stopped ↦ record s { shutdown = false; thread = looping }
  | looping ↦ s
  | renewing id action ↦ s
]

-- register(task_id, on_failure_action)
unfoldable pub register : ℕ → ℕ → Text → Action → Scheduler → Scheduler
unfolding heappush ensure_started
register interval now id action s =
    let entry : Entry = record { on_failure = action; is_healthy = true; generation = 0 } in
    let entered = record s { entries = put id (some entry) s.entries } in
    let first : Tuple = record { due = now + interval; task_id = id; generation = 0 } in
    if same id [] then entered else ensure_started (record entered { heap = heappush first s.heap })

-- deregister(task_id)
unfoldable pub deregister : Text → Scheduler → Scheduler
deregister id s = record s { entries = put id none s.entries }

-- The head of the heap, when it is due: it is popped, and dropped if it is stale.
unfoldable pub take : Tuple → List Tuple → Option Entry → Scheduler → Scheduler
take t rest none s = record s { heap = rest }
take t rest (some entry) s =
    if entry.generation == t.generation
    then record s { heap = rest; thread = renewing t.task_id entry.on_failure }
    else record s { heap = rest }

-- One turn of the loop of `_run`, up to `_renew_one`. A wait changes nothing.
unfoldable pub turn : ℕ → List Tuple → Scheduler → Scheduler
unfolding take
turn now [] s = s
turn now (t ∷ rest) s = if ltb now t.due then s else take t rest (s.entries t.task_id) s

-- What extend_lease does: it returns, it raises redis.RedisError, or it raises another exception (a
-- KeyError, when the lease is gone).
pub data Renewal : Type 0 where
  renewed redis_error other_error : Renewal

unfoldable pub set_health : Bool → Option Entry → Option Entry
set_health healthy none = none
set_health healthy (some e) = some (record e { is_healthy = healthy })

abbrev pub is_kill : Action → Bool
is_kill warn = false
is_kill kill = true

-- The last locked part of the loop: the next renewal.
unfoldable pub reschedule : ℕ → ℕ → Text → Option Entry → Scheduler → Scheduler
unfolding heappush
reschedule interval now id none s = record s { thread = looping }
reschedule interval now id (some e) s =
    let next : Tuple = record {
      due = now + interval;
      task_id = id;
      generation = suc e.generation;
    } in
    record s {
      entries = put id (some (record e { generation = suc e.generation })) s.entries;
      heap = heappush next s.heap;
      thread = looping;
    }

-- _renew_one, on the entry of `id`
unfoldable pub renew_one : Text → Action → Renewal → Scheduler → Scheduler
unfolding set_health
renew_one id action renewed s = record s {
  entries = put id (set_health true (s.entries id)) s.entries;
}
renew_one id action redis_error s = record s {
  entries = put id (set_health false (s.entries id)) s.entries;
  terminated = is_kill action || s.terminated;
}
renew_one id action other_error s = s

-- What others do, and what the thread does next.
pub data Event : Type 0 where
  registers : ℕ → Text → Action → Event
  deregisters : Text → Event
  shuts_down : Event
  turns : ℕ → Event
  -- extend_lease ends, and the next renewal is due from this time on
  renews : ℕ → Renewal → Event

-- An exception that `_renew_one` does not catch ends the thread.
unfoldable pub finish : ℕ → ℕ → Text → Action → Renewal → Scheduler → Scheduler
unfolding renew_one reschedule
finish interval now id action other_error s = record s { thread = stopped }
finish interval now id action outcome s =
    let renewed_s = renew_one id action outcome s in
    reschedule interval now id (renewed_s.entries id) renewed_s

-- The thread, if it is at the head of its loop.
unfoldable pub advance : ℕ → Thread → Scheduler → Scheduler
unfolding turn
advance now looping s = if s.shutdown then record s { thread = stopped } else turn now s.heap s
advance now stopped s = s
advance now (renewing id action) s = s

-- The thread, if it is at a renewal.
unfoldable pub end_renewal : ℕ → ℕ → Renewal → Thread → Scheduler → Scheduler
unfolding finish
end_renewal interval now outcome (renewing id action) s = finish interval now id action outcome s
end_renewal interval now outcome stopped s = s
end_renewal interval now outcome looping s = s

unfoldable pub perform : ℕ → Event → Scheduler → Scheduler
unfolding register deregister advance end_renewal
perform interval (registers now id action) s = register interval now id action s
perform interval (deregisters id) s = deregister id s
perform interval shuts_down s = record s { shutdown = true }
perform interval (turns now) s = advance now s.thread s
perform interval (renews now outcome) s = end_renewal interval now outcome s.thread s

unfoldable pub run : ℕ → List Event → Scheduler → Scheduler
unfolding perform
run interval [] s = s
run interval (e ∷ events) s = run interval events (perform interval e s)
