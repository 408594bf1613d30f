-- ===== src/Backends/Tasks/Accounts.antt =====
-- Where the tasks of AsyncIOTaskLimiter are, and what a shutdown leaves behind.
use redis_rate_limiter.Prelude.{
  ℕ, zero, suc, ◌+◌, ◌≡◌, refl, false, List, [], ◌∷◌, ◌++◌, length, length-append, if◌then◌else◌,
  arith,
}
use redis_rate_limiter.Prelude.Text.{Text, same}
use redis_rate_limiter.Backends.Tasks.{
  ActiveTask, TaskPool, new_tasks, create_task, start_at, end_at, finish_task, started_ids,
  unstarted_ids, cancel_tasks, shutdown_tasks, TaskEvent, dispatches, starts, finishes, task_event,
  task_events,
}

-- How often a name stands in a list.
abbrev pub count : Text → List Text → ℕ
count t [] = 0
count t (u ∷ us) = (if same t u then 1 else 0) + count t us

-- The names that were dispatched.
abbrev pub dispatched : List TaskEvent → List Text
dispatched [] = []
dispatched (dispatches task_id ∷ events) = task_id ∷ dispatched events
dispatched (starts n ∷ events) = dispatched events
dispatched (finishes n ∷ events) = dispatched events

count-append : (t : Text) (us vs : List Text) → count t (us ++ vs) ≡ count t us + count t vs
count-append t [] vs = omega arith
count-append t (u ∷ us) vs = ground (arith, count-append t us vs)

-- How often a name is active.
abbrev active : Text → List ActiveTask → ℕ
active t ts = count t (started_ids ts) + count t (unstarted_ids ts)

active-create :
    (t u : Text) (ts : List ActiveTask)
    → active t (ts ++ record { task_id = u; started = false } ∷ [])
      ≡ active t ts + (if same t u then 1 else 0)
unfolding started_ids unstarted_ids
active-create t u [] = omega arith
active-create t u (v ∷ ts) = ground (arith, active-create t u ts)

active-start_at : (t : Text) (n : ℕ) (ts : List ActiveTask) → active t (start_at n ts) ≡ active t ts
unfolding started_ids unstarted_ids start_at
active-start_at t n [] = refl
active-start_at t zero (v ∷ ts) = ground arith
active-start_at t (suc n) (v ∷ ts) = ground (arith, active-start_at t n ts)

length-start_at : (n : ℕ) (ts : List ActiveTask) → length (start_at n ts) ≡ length ts
unfolding start_at
length-start_at n [] = refl
length-start_at zero (v ∷ ts) = refl
length-start_at (suc n) (v ∷ ts) = omega (arith, length-start_at n ts)

active-end_at :
    (t : Text) (n : ℕ) (ts : List ActiveTask)
    → active t (end_at n ts).0 + count t (end_at n ts).1 ≡ active t ts
unfolding started_ids unstarted_ids end_at
active-end_at t n [] = omega arith
active-end_at t zero (v ∷ ts) = ground arith
active-end_at t (suc n) (v ∷ ts) = ground (arith, active-end_at t n ts)

length-end_at :
    (n : ℕ) (ts : List ActiveTask) → length (end_at n ts).0 + length (end_at n ts).1 ≡ length ts
unfolding end_at
length-end_at n [] = omega arith
length-end_at zero (v ∷ ts) = ground arith
length-end_at (suc n) (v ∷ ts) = omega (arith, length-end_at n ts)

-- The count is that of the tasks, and each name is released or active as often as it was dispatched.
record IsAccounted (seen : Text → ℕ) (p : TaskPool) : Type 0 where
  pub counted : p.active_count ≡ length p.active_tasks
  pub named : (t : Text) → count t p.released + active t p.active_tasks ≡ seen t

create_task-IsAccounted :
    (seen : Text → ℕ) (u : Text) (p : TaskPool)
    → IsAccounted seen p
    → IsAccounted (λ t. seen t + (if same t u then 1 else 0)) (create_task u p)
unfolding create_task
create_task-IsAccounted seen u p a = record {
  counted = omega (arith, a.counted, length-append {0} p.active_tasks);
  named = λ t. omega (arith, a.named t, active-create t u p.active_tasks);
}

start_at-IsAccounted :
    (seen : Text → ℕ) (n : ℕ) (p : TaskPool)
    → IsAccounted seen p
    → IsAccounted seen (record p { active_tasks = start_at n p.active_tasks })
start_at-IsAccounted seen n p a = record {
  counted = omega (arith, a.counted, length-start_at n p.active_tasks);
  named = λ t. omega (arith, a.named t, active-start_at t n p.active_tasks);
}

finish_task-IsAccounted :
    (seen : Text → ℕ) (n : ℕ) (p : TaskPool)
    → IsAccounted seen p
    → IsAccounted seen (finish_task n p)
unfolding finish_task
finish_task-IsAccounted seen n p a = record {
  counted = omega (arith, a.counted, length-end_at n p.active_tasks);
  named = λ t. omega (
    arith,
    a.named t,
    active-end_at t n p.active_tasks,
    count-append t p.released (end_at n p.active_tasks).1,
  );
}

task_events-IsAccounted :
    (seen : Text → ℕ) (events : List TaskEvent) (p : TaskPool)
    → IsAccounted seen p
    → IsAccounted (λ t. seen t + count t (dispatched events)) (task_events events p)
unfolding task_events task_event
task_events-IsAccounted seen [] p a = record {
  counted = a.counted;
  named = λ t. omega (arith, a.named t);
}
task_events-IsAccounted seen (dispatches u ∷ events) p a =
    let b =
      task_events-IsAccounted (λ t. seen t + (if same t u then 1 else 0)) events (create_task u p)
        (create_task-IsAccounted seen u p a) in
    record { counted = b.counted; named = λ t. omega (arith, b.named t) }
task_events-IsAccounted seen (starts n ∷ events) p a =
    task_events-IsAccounted seen events _ (start_at-IsAccounted seen n p a)
task_events-IsAccounted seen (finishes n ∷ events) p a =
    task_events-IsAccounted seen events _ (finish_task-IsAccounted seen n p a)

cancel_tasks-lem :
    (ts : List ActiveTask) (p : TaskPool)
    → p.active_tasks ≡ ts
    → p.active_count ≡ length ts
    → let after = cancel_tasks ts p in
      (after.active_count ≡ 0)
      × (after.active_tasks ≡ [])
      × ((t : Text) → count t after.released ≡ count t p.released + count t (started_ids ts))
unfolding cancel_tasks started_ids
cancel_tasks-lem [] p e counted = (counted, e, λ t. omega arith)
cancel_tasks-lem (u ∷ ts) p e counted =
    (refl, refl, λ t. count-append t p.released (started_ids (u ∷ ts)))

-- Whatever is dispatched, begins and ends, in any order, and then a shutdown: the count of active tasks
-- was always that of the tasks, and is zero afterwards, with no task left; and each name was released
-- as often as it was dispatched, but for the tasks that had not begun when they were cancelled, which
-- never enter their lifecycle.
pub shutdown_tasks-accounts :
    (max_tasks : ℕ) (events : List TaskEvent)
    → let p = task_events events (new_tasks max_tasks) in
      let after = shutdown_tasks p in
      (p.active_count ≡ length p.active_tasks)
      × (after.active_count ≡ 0)
      × (after.active_tasks ≡ [])
      × ((t : Text)
          → count t after.released + count t (unstarted_ids p.active_tasks)
            ≡ count t (dispatched events))
unfolding shutdown_tasks unstarted_ids
shutdown_tasks-accounts max_tasks events =
    let p = task_events events (new_tasks max_tasks) in
    let a =
      task_events-IsAccounted (λ t. 0) events (new_tasks max_tasks)
        (record { counted = refl; named = λ t. omega arith }) in
    let (none_counted, none_active, released) = cancel_tasks-lem p.active_tasks p refl a.counted in
    (a.counted, none_counted, none_active, λ t. omega (arith, a.named t, released t))
