-- ===== src/Brokers/Registered.antt =====
-- register_worker of src/redis_rate_limiter/backends/huey/tasks/worker.py: the one generic worker of a
-- process, which moves from one Huey instance to the next. Instances are numbered; what Huey does with
-- its tasks is not looked into, only what it is asked for.
use redis_rate_limiter.Prelude.{
  ℕ, ◌≡◌, refl, Option, none, some, List, [], ◌∷◌, ◌++◌, ◌==◌, if◌then◌else◌, Bool-cases, inl, inr,
  arith,
}

pub data HueyCall : Type 0 where
  -- generic_rate_limited_worker.unregister() and huey_instance.task(name=TASK_NAME)
  unregister register : ℕ → HueyCall

-- The instance of generic_rate_limited_worker afterwards, and what was asked for.
unfoldable pub register_worker : Option ℕ → ℕ → Option ℕ × List HueyCall
register_worker none huey = (some huey, register huey ∷ [])
register_worker (some old) huey =
    if old == huey then (some old, []) else (some huey, unregister old ∷ register huey ∷ [])

unfoldable pub register_all : Option ℕ → List ℕ → Option ℕ × List HueyCall
unfolding register_worker
register_all worker [] = (worker, [])
register_all worker (huey ∷ hueys) =
    let (moved, calls) = register_worker worker huey in
    let (last, rest) = register_all moved hueys in (last, calls ++ rest)

-- The one instance that has the worker, after these calls; `none` if two would have it at once, or if it
-- is taken from one that does not have it.
unfoldable pub holder : Option ℕ → List HueyCall → Option (Option ℕ)
holder h [] = some h
holder none (register huey ∷ calls) = holder (some huey) calls
holder none (unregister huey ∷ calls) = none
holder (some h) (register huey ∷ calls) = none
holder (some h) (unregister huey ∷ calls) = if h == huey then holder none calls else none

abbrev pub last_of : Option ℕ → List ℕ → Option ℕ
last_of h [] = h
last_of h (huey ∷ hueys) = last_of (some huey) hueys

-- However often a process configures its Huey instances: the generic worker is never registered with
-- two of them at once, nor taken from one that does not have it, and in the end the instance that was
-- configured last has it.
register_all-holder :
    (worker : Option ℕ) (hueys : List ℕ)
    → holder worker (register_all worker hueys).1 ≡ some (last_of worker hueys)
unfolding register_all register_worker holder
register_all-holder worker [] = refl
register_all-holder none (huey ∷ hueys) = register_all-holder (some huey) hueys
register_all-holder (some old) (huey ∷ hueys) = elim (Bool-cases (old == huey)) [
  | inl e ↦ ground (arith, register_all-holder (some old) hueys)
  | inr n ↦ rw n (ground (arith, register_all-holder (some huey) hueys))
]
