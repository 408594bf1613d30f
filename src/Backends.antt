-- ===== src/Backends.antt =====
-- The in-process execution backends: ThreadPoolRateLimiter (src/redis_rate_limiter/backends/threading),
-- ProcessPoolRateLimiter (backends/processpool) and AsyncIOTaskLimiter (backends/asyncio). Each counts the
-- tasks that it has handed to its executor, and takes none when all workers are busy.
pub mod Capacity
pub mod Tasks
use redis_rate_limiter.Prelude.{
  ℕ, zero, suc, ◌+◌, ◌-◌, Bool, true, false, List, [], ◌∷◌, ◌++◌, ltb, if◌then◌else◌,
}
use redis_rate_limiter.Prelude.Text.{Text, same}

pub record Pool : Type 0 where
  -- max_tasks of the asyncio backend
  pub local_max_workers : ℕ
  -- _active_count of the asyncio backend
  pub local_dispatched : ℕ
  -- the tasks that the executor has, not completed
  pub running : List Text
  -- the lifecycles that the dispatching process has entered and not left
  pub entered : List Text

-- __init__
abbrev pub new_pool : ℕ → Pool
new_pool workers = record {
  local_max_workers = workers;
  local_dispatched = 0;
  running = [];
  entered = [];
}

unfoldable pub has_local_capacity : Pool → Bool
has_local_capacity p = ltb p.local_dispatched p.local_max_workers

-- What the import and the executor do with a task.
pub data Submission : Type 0 where
  import_error submit_error submitted : Submission

-- _dispatch_task of the thread pool and, whose create_task does not fail, of asyncio
unfoldable pub dispatch_thread : Submission → Text → Pool → Pool
dispatch_thread import_error task_id p = p
dispatch_thread submit_error task_id p = record p { local_dispatched = suc p.local_dispatched }
dispatch_thread submitted task_id p = record p {
  local_dispatched = suc p.local_dispatched;
  running = p.running ++ task_id ∷ [];
}

-- _dispatch_task of the process pool, which enters the lifecycle before it submits
unfoldable pub dispatch_process : Submission → Text → Pool → Pool
dispatch_process import_error task_id p = p
dispatch_process submit_error task_id p = record p {
  local_dispatched = suc p.local_dispatched;
  entered = p.entered ++ task_id ∷ [];
}
dispatch_process submitted task_id p = record p {
  local_dispatched = suc p.local_dispatched;
  running = p.running ++ task_id ∷ [];
  entered = p.entered ++ task_id ∷ [];
}

abbrev pub drop_at : ℕ → List Text → List Text
drop_at n [] = []
drop_at zero (t ∷ ts) = ts
drop_at (suc n) (t ∷ ts) = t ∷ drop_at n ts

abbrev pub is_at : ℕ → List Text → Bool
is_at n [] = false
is_at zero (t ∷ ts) = true
is_at (suc n) (t ∷ ts) = is_at n ts

-- The `finally` of the task at this place of `running`, whatever it raised.
unfoldable pub complete_thread : ℕ → Pool → Pool
complete_thread n p =
    if is_at n p.running
    then record p { local_dispatched = p.local_dispatched - 1; running = drop_at n p.running }
    else p

-- _on_done of the process pool, which also leaves the lifecycle
unfoldable pub leave : Text → List Text → List Text
leave t [] = []
leave t (u ∷ us) = if same t u then us else u ∷ leave t us

abbrev pub name_at : ℕ → List Text → Text
name_at n [] = []
name_at zero (t ∷ ts) = t
name_at (suc n) (t ∷ ts) = name_at n ts

unfoldable pub complete_process : ℕ → Pool → Pool
unfolding complete_thread leave
complete_process n p =
    if is_at n p.running
    then record (complete_thread n p) { entered = leave (name_at n p.running) p.entered }
    else p

-- What happens to a pool: a drain with a task at hand, which dispatches it only with capacity left, and
-- the completion of a task.
pub data PoolEvent : Type 0 where
  drains : Submission → Text → PoolEvent
  completes : ℕ → PoolEvent

unfoldable pub thread_event : PoolEvent → Pool → Pool
unfolding has_local_capacity dispatch_thread complete_thread
thread_event (drains outcome task_id) p =
    if has_local_capacity p then dispatch_thread outcome task_id p else p
thread_event (completes n) p = complete_thread n p

unfoldable pub process_event : PoolEvent → Pool → Pool
unfolding has_local_capacity dispatch_process complete_process
process_event (drains outcome task_id) p =
    if has_local_capacity p then dispatch_process outcome task_id p else p
process_event (completes n) p = complete_process n p
