-- ===== src/Decorators.antt =====
-- `rate_limited` of src/redis_rate_limiter/core/decorators.py: a task that runs inside its lifecycle.
-- The decorated function and the resolver of limiters are arguments.
use redis_rate_limiter.Prelude.{◌≡◌, refl, true, false, Option, none, some, [], ◌∷◌}
use redis_rate_limiter.Prelude.Text.{Text, same, same_refl}
use redis_rate_limiter.Keys.{
  concurrency, key_of, same-key_of, get_inflight_key, get_inflight_key-eq,
}
use redis_rate_limiter.Redis.{Redis, is_absent}
use redis_rate_limiter.Redis.SortedSet.{score, score-remove}
use redis_rate_limiter.Limiter.{Limiter}
use redis_rate_limiter.Limiter.Schedule.{exit_lifecycle}
use redis_rate_limiter.Scripts.Lease.{release_script}

-- What is read of the keyword arguments: limiter_id and _rate_limit_task_id.
pub record Kwargs : Type 0 where
  pub limiter_id : Option Text
  pub rate_limit_task_id : Option Text

-- What a call ends with.
pub data Ended (A : Type 0) : Type 0 where
  returned : A → Ended A
  -- the exception of the function
  raised : Ended A
  -- ValueError, the exception of the resolver, and KeyError
  missing_limiter_id unresolved missing_task_id : Ended A

-- limiter_id or kwargs.get("limiter_id")
unfoldable pub chosen_id : Option Text → Kwargs → Option Text
chosen_id none kwargs = kwargs.limiter_id
chosen_id (some []) kwargs = kwargs.limiter_id
chosen_id (some (c ∷ cs)) kwargs = some (c ∷ cs)

module _ (R : Redis) {A : Type 0} (get_limiter : Text → Option Limiter)
    (func : R.Db → R.Db × Ended A) where
  -- with limiter.task_lifecycle(task_id): the function, and __exit__, which runs also when it raises.
  unfoldable pub run_inside : Limiter → Text → R.Db → R.Db × Ended A
  unfolding exit_lifecycle
  run_inside l task_id db =
      let (db', result) = func db in ((exit_lifecycle R l task_id db').0, result)

  unfoldable pub with_task : Limiter → Option Text → R.Db → R.Db × Ended A
  unfolding run_inside
  with_task l none db = (db, missing_task_id)
  with_task l (some task_id) db = run_inside l task_id db

  unfoldable pub with_limiter : Option Limiter → Kwargs → R.Db → R.Db × Ended A
  unfolding with_task
  with_limiter none kwargs db = (db, unresolved)
  with_limiter (some l) kwargs db = with_task l kwargs.rate_limit_task_id db

  unfoldable pub with_id : Option Text → Kwargs → R.Db → R.Db × Ended A
  unfolding with_limiter
  with_id none kwargs db = (db, missing_limiter_id)
  with_id (some id) kwargs db = with_limiter (get_limiter id) kwargs db

  -- The wrapper of rate_limited(limiter_id, get_limiter=...).
  unfoldable pub rate_limited : Option Text → Kwargs → R.Db → R.Db × Ended A
  unfolding with_id chosen_id
  rate_limited limiter_id kwargs db = with_id (chosen_id limiter_id kwargs) kwargs db

  exit_lifecycle_releases :
      (l : Limiter) (t : Text) (db : R.Db)
      → same t [] ≡ false
      → let after = (exit_lifecycle R l t db).0 in
        (score t (R.view after (key_of l.id concurrency)).zset ≡ none)
        × (is_absent (R.view after (get_inflight_key l.id t)) ≡ true)
  unfolding exit_lifecycle release_script
  exit_lifecycle_releases l t db named =
      rw (named, get_inflight_key-eq)
        (
          simp (R.view-del, R.view-zrem, same-key_of, same_refl, score-remove),
          simp (R.view-del, same_refl),
        )

  -- Where the limiter and the task are found: whatever the function does to the database, and whether it
  -- returns or raises, its result or exception goes on, and afterwards the task has no lease and no
  -- in-flight marker.
  pub rate_limited_releases :
      (limiter_id : Option Text) (kwargs : Kwargs) (db : R.Db) (id t : Text) (l : Limiter)
      → chosen_id limiter_id kwargs ≡ some id
      → get_limiter id ≡ some l
      → kwargs.rate_limit_task_id ≡ some t
      → same t [] ≡ false
      → let (after, result) = rate_limited limiter_id kwargs db in
        (result ≡ (func db).1)
        × (score t (R.view after (key_of l.id concurrency)).zset ≡ none)
        × (is_absent (R.view after (get_inflight_key l.id t)) ≡ true)
  unfolding rate_limited with_id with_limiter with_task run_inside
  rate_limited_releases limiter_id kwargs db id t l chosen found task named =
      let (lease, marker) = exit_lifecycle_releases l t (func db).0 named in
      rw (chosen, found, task) (refl, lease, marker)
