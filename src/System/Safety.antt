-- ===== src/System/Safety.antt =====
-- What holds however the processes interleave.
use redis_rate_limiter.Prelude.{ℕ, ◌≤◌, ap, List, [], ◌∷◌, length, arith}
use redis_rate_limiter.Prelude.Text.{Text}
use redis_rate_limiter.Redis.{Redis}
use redis_rate_limiter.Redis.SortedSet.{length-remove, length-insert, length-drop_through}
use redis_rate_limiter.Redis.SortedSet.Members.{Each, Each-insert, Each-remove, length-insert_there}
use redis_rate_limiter.Limiter.Schedule.{Codec}
use redis_rate_limiter.Scripts.Task.{Task}
use redis_rate_limiter.Scripts.Consume.Steps.{State, state}
use redis_rate_limiter.System.{
  Call, perform, run, Move, queue, reclaim, discard, admit, renew, release, Moves, here, next,
}
use redis_rate_limiter.System.Refinement.{Owned, Fits, follow, perform-Moves}

-- At most so many leases, and each waiting task is owned.
pub record IsSafe (max_concurrency : ℕ) (P : Text → Type 0) (s : State) : Type 0 where
  pub within : length s.leases ≤ max_concurrency
  pub owned : Each P s.pending

module _ (max_concurrency : ℕ) (loads : Text → Task) (P : Text → Type 0) where
  Move-IsSafe :
      {s t : State}
      → Move max_concurrency loads P s t
      → IsSafe max_concurrency P s
      → IsSafe max_concurrency P t
  Move-IsSafe {s} {t} (queue priority raw o e) h = record {
    within = omega (arith, ap (λ (u : State). length u.leases) e, h.within);
    owned = rw e (Each-insert P priority raw s.pending o h.owned);
  }
  Move-IsSafe {s} {t} (reclaim top e) h = record {
    within =
        omega (
          arith,
          ap (λ (u : State). length u.leases) e,
          h.within,
          length-drop_through top s.leases,
        );
    owned = rw e h.owned;
  }
  Move-IsSafe {s} {t} (discard raw to_dead e) h = record {
    within = omega (arith, ap (λ (u : State). length u.leases) e, h.within);
    owned = rw e (Each-remove P raw s.pending h.owned);
  }
  Move-IsSafe {s} {t} (admit until raw room e) h = record {
    within = omega (
      arith,
      ap (λ (u : State). length u.leases) e,
      room,
      length-insert until (loads raw).id s.leases,
    );
    owned = rw e (Each-remove P raw s.pending h.owned);
  }
  Move-IsSafe {s} {t} (renew until old task_id held e) h = record {
    within = omega (
      arith,
      ap (λ (u : State). length u.leases) e,
      h.within,
      length-insert_there until task_id s.leases old held,
    );
    owned = rw e h.owned;
  }
  Move-IsSafe {s} {t} (release task_id e) h = record {
    within =
        omega
          (arith, ap (λ (u : State). length u.leases) e, h.within, length-remove task_id s.leases);
    owned = rw e h.owned;
  }

  pub Moves-IsSafe :
      {s t : State}
      → Moves max_concurrency loads P s t
      → IsSafe max_concurrency P s
      → IsSafe max_concurrency P t
  Moves-IsSafe here h = h
  Moves-IsSafe (next rest m) h = Move-IsSafe m (Moves-IsSafe rest h)

module _ (R : Redis) (C : Codec) (loads : Text → Task) (id : Text) (max_concurrency : ℕ) where
  abbrev pub AllFit : List (Call R C loads) → Type 0
  AllFit [] = Unit {0}
  AllFit (c ∷ calls) = Fits R C loads id max_concurrency c × AllFit calls

  abbrev IsSafeState : State → Type 0
  IsSafeState = IsSafe max_concurrency (Owned R C loads id max_concurrency)

  pub perform-IsSafe :
      (c : Call R C loads) (db : R.Db)
      → Fits R C loads id max_concurrency c
      → IsSafeState (state R id db)
      → IsSafeState (state R id (perform R C loads c db))
  perform-IsSafe c db fits h =
      Moves-IsSafe max_concurrency loads (Owned R C loads id max_concurrency)
        (perform-Moves R C loads id max_concurrency c db fits h.owned) h

  -- Any calls of any processes on this limiter, each at most at this concurrency and storing tasks that
  -- read back as owned, in any order, refine the abstract limiter: from a safe state, what they do
  -- together to the three collections is some of its moves.
  run-Moves :
      (calls : List (Call R C loads)) (db : R.Db)
      → AllFit calls
      → IsSafeState (state R id db)
      → Moves max_concurrency loads
          (Owned R C loads id max_concurrency)
          (state R id db)
          (state R id (run R C loads calls db))
  unfolding run
  run-Moves [] db fits h = here
  run-Moves (c ∷ calls) db fits h =
      follow R C loads id max_concurrency
        (perform-Moves R C loads id max_concurrency c db fits.0 h.owned)
        (run-Moves calls (perform R C loads c db) fits.1 (perform-IsSafe c db fits.0 h))

  -- From a safe state, whatever calls the processes make on this limiter, each at most at this
  -- concurrency and storing tasks that read back as owned, and in any order: never more leases than
  -- the concurrency allows, and each waiting task carries its own in-flight key.
  pub run-IsSafe :
      (calls : List (Call R C loads)) (db : R.Db)
      → AllFit calls
      → IsSafeState (state R id db)
      → IsSafeState (state R id (run R C loads calls db))
  run-IsSafe calls db fits h =
      Moves-IsSafe max_concurrency loads (Owned R C loads id max_concurrency)
        (run-Moves calls db fits h) h
