-- ===== src/Async/Schedule.antt =====
-- `schedule_task`, `_cleanup_inflight_key`, `trigger_consume`, `acquire`, `consume`, `extend_lease` and
-- AsyncTaskLifecycle.__aexit__ of src/redis_rate_limiter/core/async_limiters.py, with a step for each
-- command that is awaited.
pub mod Agreement
pub mod Holding
pub mod Exclusion
use redis_rate_limiter.Prelude.{
  ℕ, Bool, true, false, not, Option, none, some, List, [], ◌∷◌, ◌++◌, if◌then◌else◌, ◌==◌,
}
use redis_rate_limiter.Prelude.Int.{ℤ}
use redis_rate_limiter.Prelude.Text.{Text, codes, same}
use redis_rate_limiter.Keys.{buffer, concurrency, drain_signal, key_of, get_inflight_key}
use redis_rate_limiter.Redis.{Redis}
use redis_rate_limiter.Limiter.{Limiter, get_inflight_ttl}
use redis_rate_limiter.Limiter.Acquire.{
  Acquired, bad_timeout, no_drain_loop, Acquiring, waiting, ended, marker_max_age, after_schedule,
  await_signal,
}
use redis_rate_limiter.Limiter.Consume.{ConsumeResult, consume, extend_lease}
use redis_rate_limiter.Limiter.Schedule.{
  Codec, Event, wake, publish, metric, Scheduled, returned, raised, task_id_of, get_task_data_str,
  script_max_age,
}
use redis_rate_limiter.Scripts.Clock.{Time, now_ms}
use redis_rate_limiter.Scripts.Lease.{schedule_script, release_script, Released}
use redis_rate_limiter.Scripts.Task.{Task, acquire_marker_path}
use redis_rate_limiter.Async.{Co, done, step, ◌>>=◌}

-- What the coroutines share: the server, and what they have left for others so far.
pub record Shared (R : Redis) : Type 0 where
  pub db : R.Db
  pub events : List Event

module _ {R : Redis} {A : Type 0} where
  -- A command that is awaited: it changes the database when it is run, and replies.
  unfoldable pub command :
      {X : Type 0} → (R.Db → R.Db × X) → (X → Co (Shared R) A) → Co (Shared R) A
  command f next = step (λ s. record s { db = (f s.db).0 }) (λ s. next (f s.db).1)

  unfoldable pub tell : Event → Co (Shared R) A → Co (Shared R) A
  tell e next = step (λ s. record s { events = s.events ++ e ∷ [] }) (λ s. next)

  -- trigger_consume: _schedule_drain, and _publish_drain_signal
  unfoldable pub trigger_consume_async : Limiter → Co (Shared R) A → Co (Shared R) A
  unfolding tell
  trigger_consume_async l next =
      tell wake (tell (publish (key_of l.id drain_signal) l.worker_id) next)

  -- _cleanup_inflight_key
  unfoldable pub cleanup_inflight_key : Text → Co (Shared R) A → Co (Shared R) A
  unfolding command
  cleanup_inflight_key inflight_key next = command (λ db. (R.del inflight_key db, tt)) (λ _. next)

module _ (R : Redis) (C : Codec) (l : Limiter) (func_path : Text) (payload : C.Payload) where
  open R use {Db}

  -- After the script has run.
  unfoldable pub announce : Co (Shared R) Scheduled
  unfolding trigger_consume_async tell
  announce =
      let task_id = task_id_of C func_path payload in
      trigger_consume_async l (tell (metric true task_id) (done (returned true task_id)))

  -- After the script has raised.
  unfoldable pub give_up : Co (Shared R) Scheduled
  unfolding cleanup_inflight_key
  give_up =
      cleanup_inflight_key (get_inflight_key l.id (task_id_of C func_path payload)) (done raised)

  module _ (works : Bool) (claim_time script_time : Time) (priority : ℤ) (max_age : Option ℕ) where
    -- `_eval_script` of schedule.lua: it runs, or raises and changes nothing.
    unfoldable pub run_schedule : Db → Db
    run_schedule db =
        let task_id = task_id_of C func_path payload in
        if works
        then schedule_script R script_time (key_of l.id buffer)
            (get_task_data_str C l task_id func_path payload) priority (script_max_age max_age) db
        else db

    -- From `_eval_script` on.
    unfoldable pub enqueue : Co (Shared R) Scheduled
    unfolding command run_schedule announce give_up
    enqueue = command (λ db. (run_schedule db, tt)) (λ _. if works then announce else give_up)

    -- After SET NX.
    unfoldable pub after_claim : Bool → Co (Shared R) Scheduled
    unfolding tell enqueue
    after_claim true = enqueue
    after_claim false =
        let task_id = task_id_of C func_path payload in
        tell (metric false task_id) (done (returned false task_id))

    unfoldable pub schedule_task_async : Co (Shared R) Scheduled
    unfolding command after_claim
    schedule_task_async =
        let inflight_key = get_inflight_key l.id (task_id_of C func_path payload) in
        command (R.set_nx inflight_key (codes "1") (get_inflight_ttl l max_age) (now_ms claim_time))
          after_claim

module _ (R : Redis) where
  -- BLPOP, at the moment it ends.
  unfoldable pub await_admission : Limiter → Acquiring → Co (Shared R) Acquired
  unfolding command
  await_admission l (ended a) = done a
  await_admission l (waiting task_id) = command (await_signal R l task_id) done

  unfoldable pub acquire_async :
      (C : Codec) → Bool → Time → Time → Limiter → ℕ → C.Payload → ℤ → Co (Shared R) Acquired
  unfolding schedule_task_async await_admission ◌>>=◌
  acquire_async C works claim_time script_time l timeout_ms payload priority =
      if timeout_ms == 0
      then done bad_timeout
      else if not l.drain_enabled
      then done no_drain_loop
      else schedule_task_async R C l acquire_marker_path payload works claim_time script_time
          priority (some (marker_max_age timeout_ms))
        >>= (λ scheduled. await_admission l (after_schedule scheduled))

  unfoldable pub consume_async :
      (Text → Task) → Time → Limiter → Co (Shared R) (Option ConsumeResult)
  unfolding command
  consume_async loads time l = command (consume R loads time l) done

  -- Whether it returned: otherwise it raised KeyError.
  unfoldable pub extend_lease_async : (Text → Task) → Time → Limiter → Text → ℕ → Co (Shared R) Bool
  unfolding command
  extend_lease_async loads time l task_id duration =
      command (extend_lease R loads time l task_id duration) done

  -- release.lua, which publishes as well
  unfoldable pub release_async : Limiter → Text → Shared R → Shared R × Released
  release_async l task_id s =
      let inflight_key = if not (same task_id []) then get_inflight_key l.id task_id else [] in
      let (db', released) =
        release_script R (key_of l.id concurrency) inflight_key (key_of l.id drain_signal) task_id
          l.worker_id s.db in
      (
        record s { db = db'; events = s.events ++ publish released.channel released.message ∷ [] },
        released,
      )

  -- __aexit__, but for the heartbeat
  unfoldable pub aexit : Limiter → Text → Co (Shared R) Released
  unfolding release_async tell
  aexit l task_id =
      step (λ s. (release_async l task_id s).0)
        (λ s. tell wake (done (release_async l task_id s).1))
