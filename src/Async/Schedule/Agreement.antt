-- ===== src/Async/Schedule/Agreement.antt =====
-- A coroutine that nothing interrupts does what the synchronous method does.
use redis_rate_limiter.Prelude.{
  ℕ, ◌≡◌, refl, ◌∙◌, Bool, true, false, Option, some, List, [], ◌∷◌, ◌++◌, Bool-cases, inl, inr,
  if◌then◌else◌, not, ◌==◌,
}
use redis_rate_limiter.Prelude.Int.{ℤ}
use redis_rate_limiter.Prelude.Text.{Text, codes}
use mathlib.Core.List.{append_assoc, append-nil}
use redis_rate_limiter.Scripts.Lease.{schedule_script}
use redis_rate_limiter.Keys.{buffer, key_of, get_inflight_key}
use redis_rate_limiter.Redis.{Redis}
use redis_rate_limiter.Limiter.{Limiter, get_inflight_ttl}
use redis_rate_limiter.Limiter.Schedule.{
  Codec, Event, Scheduled, schedule_task, trigger_consume, task_id_of, returned, raised, metric,
  get_task_data_str, script_max_age,
}
use redis_rate_limiter.Scripts.Clock.{Time, now_ms}
use redis_rate_limiter.Scripts.Task.{acquire_marker_path}
use redis_rate_limiter.Limiter.Acquire.{
  Acquired, Acquiring, waiting, ended, marker_max_age, after_schedule, acquire_marker, await_signal,
}
use redis_rate_limiter.Async.{◌>>=◌, complete, complete-bind}
use redis_rate_limiter.Async.Schedule.{
  Shared, schedule_task_async, after_claim, enqueue, announce, give_up, run_schedule, command, tell,
  cleanup_inflight_key, trigger_consume_async, acquire_async, await_admission,
}

module _ (R : Redis) (C : Codec) (l : Limiter) (func_path : Text) (payload : C.Payload) where
  open R use {Db}

  -- What schedule_task gives after SET NX, on the database that it left.
  unfoldable settled : Bool → Bool → Time → ℤ → Option ℕ → Db → Db × Scheduled × List Event
  unfolding trigger_consume
  settled fresh works time priority max_age claimed =
      let task_id = task_id_of C func_path payload in
      if not fresh
      then (claimed, returned false task_id, metric false task_id ∷ [])
      else if works
      then (
        schedule_script R time (key_of l.id buffer)
            (get_task_data_str C l task_id func_path payload) priority (script_max_age max_age)
            claimed,
        returned true task_id,
        trigger_consume l ++ metric true task_id ∷ [],
      )
      else (R.del (get_inflight_key l.id task_id) claimed, raised, [])

  complete-after_claim :
      (fresh works : Bool) (time : Time) (priority : ℤ) (max_age : Option ℕ) (s : Shared R)
      → let (db', result, events) = settled fresh works time priority max_age s.db in
        complete (after_claim R C l func_path payload works time time priority max_age fresh) s
        ≡ (record { db = db'; events = s.events ++ events }, result)
  unfolding complete settled after_claim enqueue announce give_up run_schedule command tell
      cleanup_inflight_key trigger_consume_async
  complete-after_claim false works time priority max_age s = refl
  complete-after_claim true false time priority max_age s = simp (append-nil)
  complete-after_claim true true time priority max_age s = simp (append_assoc)

  -- schedule_task of the asynchronous limiter, when no other coroutine runs and both its commands reach
  -- the server at the same time, does to the database and returns or raises what the synchronous
  -- one does, and leaves the same events, in the same order.
  pub complete-schedule_task_async :
      (works : Bool) (time : Time) (priority : ℤ) (max_age : Option ℕ) (s : Shared R)
      → let (db', result, events) =
          schedule_task R C works time l func_path payload priority max_age s.db in
        complete (schedule_task_async R C l func_path payload works time time priority max_age) s
        ≡ (record { db = db'; events = s.events ++ events }, result)
  unfolding complete schedule_task schedule_task_async command settled
  complete-schedule_task_async works time priority max_age s =
      let attempt =
        R.set_nx (get_inflight_key l.id (task_id_of C func_path payload)) (codes "1")
          (get_inflight_ttl l max_age) (now_ms time) s.db in
      complete-after_claim attempt.1 works time priority max_age (record s { db = attempt.0 })

module _ (R : Redis) where
  -- How the synchronous acquire ends, after its marker was scheduled or it has failed.
  abbrev pub admission : Limiter → Acquiring → R.Db → R.Db × Acquired
  admission l (ended a) db = (db, a)
  admission l (waiting task_id) db = await_signal R l task_id db

  complete-await_admission :
      (l : Limiter) (a : Acquiring) (s : Shared R)
      → complete (await_admission R l a) s
        ≡ (record s { db = (admission l a s.db).0 }, (admission l a s.db).1)
  unfolding complete await_admission command
  complete-await_admission l (ended a) s = refl
  complete-await_admission l (waiting task_id) s = refl

  complete-admitted :
      (C : Codec) (works : Bool) (time : Time) (l : Limiter) (max_age : Option ℕ)
      (payload : C.Payload) (priority : ℤ) (s : Shared R)
      → let (db', scheduled, events) =
          schedule_task R C works time l acquire_marker_path payload priority max_age s.db in
        let (db'', acquired) = admission l (after_schedule scheduled) db' in
        complete
          (schedule_task_async R C l acquire_marker_path payload works time time priority max_age
            >>= (λ r. await_admission R l (after_schedule r)))
          s
        ≡ (record { db = db''; events = s.events ++ events }, acquired)
  complete-admitted C works time l max_age payload priority s =
      let (db', scheduled, events) =
        schedule_task R C works time l acquire_marker_path payload priority max_age s.db in
      complete-bind
        (schedule_task_async R C l acquire_marker_path payload works time time priority max_age)
        (λ r. await_admission R l (after_schedule r)) s
      ∙ rw
          (complete-schedule_task_async R C l acquire_marker_path payload works time priority
            max_age s)
          (complete-await_admission l (after_schedule scheduled)
            (record { db = db'; events = s.events ++ events }))

  -- acquire of the asynchronous limiter, when no other coroutine runs, all its commands reach the server
  -- at one time and BLPOP ends at once, does to the database, leaves behind, and returns or
  -- raises what the synchronous one does.
  complete-acquire_async :
      (C : Codec) (works : Bool) (time : Time) (l : Limiter) (timeout_ms : ℕ) (payload : C.Payload)
      (priority : ℤ) (s : Shared R)
      → let (db', acquiring, events) =
          acquire_marker R C works time l timeout_ms payload priority s.db in
        let (db'', acquired) = admission l acquiring db' in
        complete (acquire_async R C works time time l timeout_ms payload priority) s
        ≡ (record { db = db''; events = s.events ++ events }, acquired)
  unfolding complete acquire_async acquire_marker get_task_data_str
  complete-acquire_async C works time l timeout_ms payload priority s =
      elim (Bool-cases (timeout_ms == 0)) [
        | inl zero_timeout ↦ rw zero_timeout (simp (append-nil))
        | inr some_timeout ↦ elim (Bool-cases l.drain_enabled) [
          | inr idle ↦ rw (some_timeout, idle) (simp (append-nil))
          | inl draining ↦
              rw (some_timeout, draining)
                (complete-admitted C works time (record l { drain_enabled = true })
                  (some (marker_max_age timeout_ms)) payload priority s)
        ]
      ]
