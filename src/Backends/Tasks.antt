-- ===== src/Backends/Tasks.antt =====
-- AsyncIOTaskLimiter of src/redis_rate_limiter/backends/asyncio/limiter.py: the tasks that it creates, up to
-- its shutdown, which cancels them. A task that asyncio has created begins to run in a later turn of the
-- event loop.
pub mod Accounts
use redis_rate_limiter.Prelude.{
  ℕ, zero, suc, ◌+◌, ◌-◌, ◌≡◌, refl, Bool, true, false, List, [], ◌∷◌, ◌++◌, length, length-append,
  if◌then◌else◌, ltb, arith, Bool-cases, inl, inr,
}
use redis_rate_limiter.Prelude.Text.{Text, same}

pub record ActiveTask : Type 0 where
  pub task_id : Text
  -- whether it has entered its lifecycle
  pub started : Bool

pub record TaskPool : Type 0 where
  pub max_tasks : ℕ
  pub active_count : ℕ
  pub active_tasks : List ActiveTask
  -- the tasks whose lifecycle has ended, and whose lease is released
  pub released : List Text

-- __init__
abbrev pub new_tasks : ℕ → TaskPool
new_tasks max_tasks = record {
  max_tasks = max_tasks;
  active_count = 0;
  active_tasks = [];
  released = [];
}

-- _dispatch_task, of a function that is found
unfoldable pub create_task : Text → TaskPool → TaskPool
create_task task_id p = record p {
  active_count = suc p.active_count;
  active_tasks = p.active_tasks ++ record { task_id = task_id; started = false } ∷ [];
}

unfoldable pub start_at : ℕ → List ActiveTask → List ActiveTask
start_at n [] = []
start_at zero (t ∷ ts) = record t { started = true } ∷ ts
start_at (suc n) (t ∷ ts) = t ∷ start_at n ts

-- The end of the task at this place, with the names that it releases: a task that is not started does not
-- end by itself.
unfoldable pub end_at : ℕ → List ActiveTask → List ActiveTask × List Text
end_at n [] = ([], [])
end_at zero (t ∷ ts) = if t.started then (ts, t.task_id ∷ []) else (t ∷ ts, [])
end_at (suc n) (t ∷ ts) = let (rest, names) = end_at n ts in (t ∷ rest, names)

-- _run_task from its function's return or exception on, with its `finally`
unfoldable pub finish_task : ℕ → TaskPool → TaskPool
unfolding end_at
finish_task n p =
    let (rest, names) = end_at n p.active_tasks in
    record p {
      active_count = p.active_count - length names;
      active_tasks = rest;
      released = p.released ++ names;
    }

-- The tasks that a cancellation reaches inside their lifecycle.
unfoldable pub started_ids : List ActiveTask → List Text
started_ids [] = []
started_ids (t ∷ ts) = if t.started then t.task_id ∷ started_ids ts else started_ids ts

-- Those that it reaches before they have begun: their coroutine never runs.
unfoldable pub unstarted_ids : List ActiveTask → List Text
unstarted_ids [] = []
unstarted_ids (t ∷ ts) = if t.started then unstarted_ids ts else t.task_id ∷ unstarted_ids ts

-- shutdown, from the cancellations on
-- What shutdown does with the tasks that are active.
unfoldable pub cancel_tasks : List ActiveTask → TaskPool → TaskPool
unfolding started_ids
cancel_tasks [] p = p
cancel_tasks (t ∷ ts) p = record p {
  active_count = 0;
  active_tasks = [];
  released = p.released ++ started_ids (t ∷ ts);
}

unfoldable pub shutdown_tasks : TaskPool → TaskPool
unfolding cancel_tasks
shutdown_tasks p = cancel_tasks p.active_tasks p

pub data TaskEvent : Type 0 where
  dispatches : Text → TaskEvent
  starts finishes : ℕ → TaskEvent

unfoldable pub task_event : TaskEvent → TaskPool → TaskPool
unfolding create_task start_at finish_task
task_event (dispatches task_id) p = create_task task_id p
task_event (starts n) p = record p { active_tasks = start_at n p.active_tasks }
task_event (finishes n) p = finish_task n p

unfoldable pub task_events : List TaskEvent → TaskPool → TaskPool
unfolding task_event
task_events [] p = p
task_events (e ∷ events) p = task_events events (task_event e p)
