-- ===== src/Async.antt =====
-- Coroutines, for src/redis_rate_limiter/core/async_limiters.py. What runs between two awaits runs in one
-- piece; the coroutines of a process, and those of others, take turns at each await.
pub mod Schedule
pub mod Drain
pub mod Loop
pub mod Heartbeat
pub mod Managed
pub mod Scripts
pub mod Lifespan
use redis_rate_limiter.Prelude.{ℕ, zero, suc, ◌≡◌, refl, ap, ◌∙◌, Option, none, some, List, [], ◌∷◌}

-- A coroutine over a shared state. A step changes the state as it finds it then, and goes on with
-- what it has seen.
pub data Co (S A : Type 0) : Type 0 where
  done : A → Co S A
  step : (S → S) → (S → Co S A) → Co S A

-- A coroutine that is awaited inside another one.
infixl 55 ◌>>=◌
unfoldable pub ◌>>=◌ : {S A B : Type 0} → Co S A → (A → Co S B) → Co S B
done a >>= next = next a
step f k >>= next = step f (λ s. k s >>= next)

-- It runs to its end, and nothing else runs.
unfoldable pub complete : {S A : Type 0} → Co S A → S → S × A
complete (done a) s = (s, a)
complete (step f k) s = complete (k s) (f s)

-- Its next step.
unfoldable pub resume : {S A : Type 0} → Co S A → S → S × Co S A
resume (done a) s = (s, done a)
resume (step f k) s = (f s, k s)

-- The event loop lets the coroutine at this place take a step.
unfoldable pub resume_at : {S A : Type 0} → ℕ → List (Co S A) → S → S × List (Co S A)
unfolding resume
resume_at n [] s = (s, [])
resume_at zero (c ∷ cs) s = let (t, d) = resume c s in (t, d ∷ cs)
resume_at (suc n) (c ∷ cs) s = let (t, ds) = resume_at n cs s in (t, c ∷ ds)

-- Which coroutine takes the next step, again and again.
unfoldable pub interleave : {S A : Type 0} → List ℕ → List (Co S A) → S → S × List (Co S A)
unfolding resume_at
interleave [] cs s = (s, cs)
interleave (n ∷ turns) cs s = let (t, ds) = resume_at n cs s in interleave turns ds t

-- To await a coroutine is to run it, and then what follows.
pub complete-bind :
    {S A B : Type 0} (c : Co S A) (next : A → Co S B) (s : S)
    → complete (c >>= next) s ≡ complete (next (complete c s).1) (complete c s).0
unfolding ◌>>=◌ complete
complete-bind (done a) next s = refl
complete-bind (step f k) next s = complete-bind (k s) next (f s)
