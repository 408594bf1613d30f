-- ===== src/Limiter/Acquire/InTime.antt =====
-- consume.lua leases an acquire marker only while its caller waits.
use redis_rate_limiter.Prelude.{
  ℕ, ◌+◌, ◌-◌, ◌<◌, ◌≡◌, refl, ap, ◌∙◌, Bool, true, false, ◌&&◌, Option, none, some, [], ◌∷◌, ltb,
  if◌then◌else◌, Bool-cases, inl, inr, length, subst,
}
use redis_rate_limiter.Prelude.Text.{Text}
use redis_rate_limiter.Keys
use redis_rate_limiter.Keys.{window_key, key_of, signal_key, signal_key-eq, same-key_of}
use redis_rate_limiter.Redis.{Redis}
use redis_rate_limiter.Redis.SortedSet.{ZSet}
use redis_rate_limiter.Limiter.{Limiter}
use redis_rate_limiter.Limiter.Acquire.{lifecycle, await_signal}
use redis_rate_limiter.Limiter.Acquire.Signals.{popped_signal}
use redis_rate_limiter.Scripts.Clock.{Time, now_ms}
use redis_rate_limiter.Scripts.Task.{Task, is_marker}
use redis_rate_limiter.Window.{
  current_window_start, estimated_count, below_limit, remaining_tokens, reset_in_ms,
}
use redis_rate_limiter.Prelude.Int.{pos}
use redis_rate_limiter.Scripts.Acquire.{read_count}
use redis_rate_limiter.Scripts.Consume.{
  reclaim_leases, blocked, Keys, Arguments, Reply, fairness_ttl, yields, take_head, take_first,
  dequeue, consume_script,
}
use redis_rate_limiter.Limiter.Acquire.Admission.{
  Signalled, in_time, no_task_replied, admit-Signalled, take_head_admits,
}
use redis_rate_limiter.Limiter.Consume.{ConsumeResult, arguments_of, read_reply, consume}
use redis_rate_limiter.Scripts.Consume.Steps.{keys_of}

-- The task of a result, if there is one.
abbrev result_task : Option ConsumeResult → Option Task
result_task none = none
result_task (some r) = r.task

module _ (R : Redis) where
  open R use {Db, view}

  -- The reply is about this task, a marker in time whose caller is signalled.
  abbrev pub AdmitsInTime : (Text → Task) → Time → Text → Text → Db → Type 0
  AdmitsInTime decode time base raw db =
      (timeout_ms : ℕ)
      → is_marker (decode raw) ≡ true
      → (decode raw).acquire_timeout_ms ≡ some timeout_ms
      → (now_ms time < (decode raw).arrived_at + timeout_ms) × Signalled R base (decode raw).id db

  module _ (decode : Text → Task) (time : Time) (k : Keys) (a : Arguments) where
    take_first_in_time :
        (pending : ZSet) (reply r : Reply) (raw : Text) (db : Db)
        → reply.task ≡ none
        → (take_first R decode time k a pending reply db).1 ≡ some r
        → r.task ≡ some raw
        → AdmitsInTime decode time k.base raw (take_first R decode time k a pending reply db).0
    unfolding take_first
    take_first_in_time [] reply r raw db no_task e t =
        absurd (no_task_replied R reply r raw no_task e t)
    take_first_in_time ((score, head) ∷ later) reply r raw db no_task e t =
        let (ready, same_raw, admission) =
          take_head_admits R time k a head raw (decode head) reply r db no_task e t in
        subst
          (λ (u : Text).
            AdmitsInTime decode time k.base u (take_head R time k a head (decode head) reply db).0)
          same_raw
          (λ timeout_ms marker h. (
            in_time time (decode head) timeout_ms marker h ready,
            rw admission (
                admit-Signalled R time k a head (decode head)
                  (record reply { buffer_count = reply.buffer_count - 1 }) timeout_ms
                  (R.zrem k.buffer head db) marker h),
          ))

    guarded_in_time :
        (ready : Bool) (pending : ZSet) (reply r : Reply) (raw : Text) (db : Db)
        → reply.task ≡ none
        → (if ready then take_first R decode time k a pending reply db else (db, some reply)).1
          ≡ some r
        → r.task ≡ some raw
        → AdmitsInTime decode time k.base raw
            (if ready then take_first R decode time k a pending reply db else (db, some reply)).0
    guarded_in_time true pending reply r raw db no_task e t =
        take_first_in_time pending reply r raw db no_task e t
    guarded_in_time false pending reply r raw db no_task e t =
        absurd (no_task_replied R reply r raw no_task e t)

    dequeue_in_time :
        (active : ℕ) (r : Reply) (raw : Text) (db : Db)
        → (dequeue R decode time k a active db).1 ≡ some r
        → r.task ≡ some raw
        → AdmitsInTime decode time k.base raw (dequeue R decode time k a active db).0
    unfolding dequeue
    dequeue_in_time active r raw db e t =
        let w : ℕ = a.window_size_ms in
        let now : ℕ = now_ms time in
        let start : ℕ = current_window_start now w in
        let current : ℕ = read_count R (window_key k.base start) db in
        let previous : ℕ = read_count R (window_key k.base (start - w)) db in
        let estimated : ℕ = estimated_count now w previous current in
        guarded_in_time (below_limit estimated w a.rate_limit && ltb active a.max_concurrency)
          (view db k.buffer).zset
          (record {
            status = blocked;
            task = none;
            remaining = pos (remaining_tokens estimated w a.rate_limit);
            active_now = active;
            reset = reset_in_ms now w;
            buffer_count = length (view db k.buffer).zset;
            previous_count = previous;
            current_count = current;
          })
          r raw db refl e t

    -- When consume.lua replies with an acquire marker that has a timeout: the marker's deadline, its
    -- arrival and the timeout, is still to come, and its signal is in the list that its caller waits at.
    consume_script_in_time :
        (r : Reply) (raw : Text) (db : Db)
        → (consume_script R decode time k a db).1 ≡ some r
        → r.task ≡ some raw
        → AdmitsInTime decode time k.base raw (consume_script R decode time k a db).0
    unfolding consume_script
    consume_script_in_time r raw db e t =
        let healed : Db = reclaim_leases R time k.concurrency db in
        let active : ℕ = length (view healed k.concurrency).zset in
        let called : Db =
          R.set_px (key_of k.base Keys.last_caller) a.worker_id (fairness_ttl a) (now_ms time)
            healed in
        elim (Bool-cases (
          yields (view healed (key_of k.base Keys.last_consumer)).str
            (view healed (key_of k.base Keys.last_caller)).str a.worker_id)) [
              | inl yes_yields ↦ absurd (no_task_replied R _ r raw refl (rw yes_yields at e) t)
              | inr goes_on ↦ rw goes_on (dequeue_in_time active r raw called (rw goes_on at e) t)
            ]

  read_raw :
      (loads : Text → Task) (o : Option Text) (task : Task)
      → (elim o [ none ↦ none | some raw ↦ some (loads raw) ]) ≡ some task
      → (raw : Text) × (o ≡ some raw) × (loads raw ≡ task)
  read_raw loads none task e = cc
  read_raw loads (some raw) task e = (raw, refl, cc)

  replied_task :
      (loads : Text → Task) (o : Option Reply) (r : ConsumeResult) (task : Task)
      → (elim o [ none ↦ none | some q ↦ some (read_reply R loads q) ]) ≡ some r
      → r.task ≡ some task
      → (reply : Reply) × (raw : Text) × (o ≡ some reply)
        × (reply.task ≡ some raw)
        × (loads raw ≡ task)
  unfolding read_reply
  replied_task loads none r task e t = cc
  replied_task loads (some q) r task e t =
      let (raw, has_raw, read) = read_raw loads q.task task (ap result_task e ∙ t) in
      (q, raw, refl, has_raw, read)

  consume_replies :
      (loads : Text → Task) (time : Time) (l : Limiter) (r : ConsumeResult) (task : Task) (db : Db)
      → (consume R loads time l db).1 ≡ some r
      → r.task ≡ some task
      → (reply : Reply) × (raw : Text) × ((consume_script R loads time
            (keys_of l.id)
            (arguments_of l)
            db).1
          ≡ some reply)
        × (reply.task ≡ some raw)
        × (loads raw ≡ task)
  unfolding consume read_reply
  consume_replies loads time l r task db e t =
      replied_task loads (consume_script R loads time (keys_of l.id) (arguments_of l) db).1 r task e
        t

  popped_of :
      (l : Limiter) (task_id : Text) (db : Db)
      → Signalled R l.id task_id db
      → (await_signal R l task_id db).1 ≡ lifecycle task_id
  unfolding await_signal
  popped_of l task_id db (signals, e) = rw e (popped_signal R task_id _ signals task_id)

  -- When consume takes an acquire marker that has a timeout: the server's time is before the marker's
  -- arrival plus the timeout, and a BLPOP on the database as it is then gives the marker's caller its
  -- lifecycle.
  pub consume_in_time :
      (loads : Text → Task) (time : Time) (l : Limiter) (r : ConsumeResult) (task : Task)
      (timeout_ms : ℕ) (db : Db)
      → (consume R loads time l db).1 ≡ some r
      → r.task ≡ some task
      → is_marker task ≡ true
      → task.acquire_timeout_ms ≡ some timeout_ms
      → (now_ms time < task.arrived_at + timeout_ms)
        × ((await_signal R l task.id (consume R loads time l db).0).1 ≡ lifecycle task.id)
  unfolding consume
  consume_in_time loads time l r task timeout_ms db e t marker h =
      let (reply, raw, replied, has_raw, read) = consume_replies loads time l r task db e t in
      subst
        (λ (u : Task).
          is_marker u ≡ true
          → u.acquire_timeout_ms ≡ some timeout_ms
          → (now_ms time < u.arrived_at + timeout_ms)
            × ((await_signal R l u.id (consume R loads time l db).0).1 ≡ lifecycle u.id))
        read
        (λ m x.
          let (before, signalled) =
            consume_script_in_time loads time (keys_of l.id) (arguments_of l) reply raw db replied
              has_raw timeout_ms m x in
          (before, popped_of l (loads raw).id _ signalled))
        marker h
