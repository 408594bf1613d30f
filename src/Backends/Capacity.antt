-- ===== src/Backends/Capacity.antt =====
-- What the count of dispatched tasks tells.
use redis_rate_limiter.Prelude.{
  ℕ, zero, suc, ◌+◌, ◌≤◌, ◌≡◌, refl, ap, ◌∙◌, sym, subst, subst₂, inl, inr, Bool, true, false, List,
  [], ◌∷◌, length, length-append, ltb, arith, Bool-cases, if◌then◌else◌,
}
use redis_rate_limiter.Prelude.Text.{Text}
use redis_rate_limiter.Backends.{
  Pool, new_pool, has_local_capacity, Submission, import_error, submit_error, submitted,
  dispatch_thread, dispatch_process, drop_at, is_at, complete_thread, PoolEvent, drains, completes,
  thread_event, process_event, complete_process,
}

-- 1 for a submission that is made and raises.
abbrev pub lost_by : PoolEvent → Pool → ℕ
lost_by (drains submit_error task_id) p = if has_local_capacity p then 1 else 0
lost_by (drains submitted task_id) p = 0
lost_by (drains import_error task_id) p = 0
lost_by (completes n) p = 0

-- The events in turn, and how many submissions raised.
pub thread_all : List PoolEvent → Pool → Pool × ℕ
thread_all [] p = (p, 0)
thread_all (e ∷ events) p =
    let (q, lost) = thread_all events (thread_event e p) in (q, lost_by e p + lost)

pub process_all : List PoolEvent → Pool → Pool × ℕ
process_all [] p = (p, 0)
process_all (e ∷ events) p =
    let (q, lost) = process_all events (process_event e p) in (q, lost_by e p + lost)

length-drop_at :
    (n : ℕ) (ts : List Text) → is_at n ts ≡ true → suc (length (drop_at n ts)) ≡ length ts
length-drop_at n [] e = cc
length-drop_at zero (t ∷ ts) e = refl
length-drop_at (suc n) (t ∷ ts) e = ap suc (length-drop_at n ts e)

-- The count is that of the running tasks and of `lost` others, and within the workers.
abbrev pub Accounts : ℕ → Pool → Type 0
Accounts lost p =
    (p.local_dispatched ≡ length p.running + lost) × (p.local_dispatched ≤ p.local_max_workers)

drains-Accounts :
    (outcome : Submission) (task_id : Text) (lost : ℕ) (p : Pool)
    → Accounts lost p
    → Accounts (lost + lost_by (drains outcome task_id) p) (thread_event (drains outcome task_id) p)
unfolding thread_event dispatch_thread has_local_capacity
drains-Accounts import_error task_id lost p h = ground arith
drains-Accounts submit_error task_id lost p h = ground arith
drains-Accounts submitted task_id lost p h = ground (arith, length-append p.running (task_id ∷ []))

completes-Accounts : (n lost : ℕ) (p : Pool) → Accounts lost p → Accounts lost (complete_thread n p)
unfolding complete_thread
completes-Accounts n lost p h = elim (Bool-cases (is_at n p.running)) [
  | inl here ↦ rw here (omega (arith, h, length-drop_at n p.running here), omega (arith, h))
  | inr gone ↦ rw gone h
]

thread_event-Accounts :
    (e : PoolEvent) (lost : ℕ) (p : Pool)
    → Accounts lost p
    → Accounts (lost + lost_by e p) (thread_event e p)
unfolding thread_event
thread_event-Accounts (drains outcome task_id) lost p h = drains-Accounts outcome task_id lost p h
thread_event-Accounts (completes n) lost p h =
    subst (λ k. Accounts k (complete_thread n p)) (omega arith) (completes-Accounts n lost p h)

thread_event_workers :
    (e : PoolEvent) (p : Pool) → (thread_event e p).local_max_workers ≡ p.local_max_workers
unfolding thread_event dispatch_thread complete_thread
thread_event_workers (drains import_error task_id) p = ground arith
thread_event_workers (drains submit_error task_id) p = ground arith
thread_event_workers (drains submitted task_id) p = ground arith
thread_event_workers (completes n) p = ground arith

thread_all-Accounts :
    (events : List PoolEvent) (lost : ℕ) (p : Pool)
    → Accounts lost p
    → Accounts (lost + (thread_all events p).1) (thread_all events p).0
      × ((thread_all events p).0.local_max_workers ≡ p.local_max_workers)
unfolding thread_all
thread_all-Accounts [] lost p h = (subst (λ k. Accounts k p) (omega arith) h, refl)
thread_all-Accounts (e ∷ events) lost p h =
    let q = thread_event e p in
    let (accounts, workers) =
      thread_all-Accounts events (lost + lost_by e p) q (thread_event-Accounts e lost p h) in
    (
      subst (λ k. Accounts k (thread_all events q).0) (omega arith) accounts,
      workers ∙ thread_event_workers e p,
    )

-- A pool without its lifecycles.
abbrev forget : Pool → Pool
forget p = record p { entered = [] }

forget-choice :
    (b : Bool) (p q : Pool) → forget (if b then p else q) ≡ (if b then forget p else forget q)
forget-choice true p q = refl
forget-choice false p q = refl

forget-process_event :
    (e : PoolEvent) (p : Pool) → forget (process_event e p) ≡ thread_event e (forget p)
unfolding process_event thread_event dispatch_process dispatch_thread complete_process
    complete_thread has_local_capacity
forget-process_event (drains import_error task_id) p = forget-choice (has_local_capacity p) p p
forget-process_event (drains submit_error task_id) p =
    forget-choice (has_local_capacity p) (dispatch_process submit_error task_id p) p
forget-process_event (drains submitted task_id) p =
    forget-choice (has_local_capacity p) (dispatch_process submitted task_id p) p
forget-process_event (completes n) p = elim (Bool-cases (is_at n p.running)) [
  | inl here ↦ rw here refl
  | inr gone ↦ rw gone refl
]

lost_by-forget : (e : PoolEvent) (p : Pool) → lost_by e (forget p) ≡ lost_by e p
unfolding has_local_capacity
lost_by-forget (drains import_error task_id) p = refl
lost_by-forget (drains submit_error task_id) p = refl
lost_by-forget (drains submitted task_id) p = refl
lost_by-forget (completes n) p = refl

-- The process pool counts as the thread pool does.
forget-process_all :
    (events : List PoolEvent) (p : Pool)
    → (forget (process_all events p).0 ≡ (thread_all events (forget p)).0)
      × ((process_all events p).1 ≡ (thread_all events (forget p)).1)
unfolding process_all thread_all
forget-process_all [] p = (refl, refl)
forget-process_all (e ∷ events) p =
    let (pools, lost) = forget-process_all events (process_event e p) in
    let same_pool = forget-process_event e p in
    (
      pools ∙ ap (λ q. (thread_all events q).0) same_pool,
      ap (λ k. lost_by e p + k) (lost ∙ ap (λ q. (thread_all events q).1) same_pool)
          ∙ ap (λ k. k + (thread_all events (thread_event e (forget p))).1)
              (sym (lost_by-forget e p)),
    )

-- A pool of so many workers, of whose submissions so many have raised.
abbrev pub IsLeft : ℕ → Pool × ℕ → Type 0
IsLeft workers (p, lost) =
    (length p.running + lost ≤ workers)
    × (has_local_capacity p ≡ ltb (length p.running + lost) workers)

Accounts-IsLeft :
    (workers lost : ℕ) (p : Pool)
    → Accounts lost p
    → p.local_max_workers ≡ workers
    → IsLeft workers (p, lost)
unfolding has_local_capacity
Accounts-IsLeft workers lost p (counted, within) e =
    (omega (arith, counted, within, e), rw (counted, e) refl)

-- Whatever the drains dispatch and the executor completes, in any order, on the thread pool or the asyncio
-- backend, and on the process pool: at no time do more tasks run than there are workers, and there is
-- local capacity exactly when the running tasks and the submissions that have raised so far are
-- together fewer than the workers.
pub all-IsLeft :
    (workers : ℕ) (events : List PoolEvent)
    → IsLeft workers (thread_all events (new_pool workers))
      × IsLeft workers (process_all events (new_pool workers))
unfolding has_local_capacity
all-IsLeft workers events =
    let (counted, kept) =
      thread_all-Accounts events 0 (new_pool workers) (omega arith, omega arith) in
    let (pools, lost) = forget-process_all events (new_pool workers) in
    let threads =
      Accounts-IsLeft workers (thread_all events (new_pool workers)).1
        (thread_all events (new_pool workers)).0
        (subst (λ k. Accounts k (thread_all events (new_pool workers)).0) (omega arith) counted)
        kept in
    (threads, subst₂ (λ p k. IsLeft workers (p, k)) (sym pools) (sym lost) threads)
