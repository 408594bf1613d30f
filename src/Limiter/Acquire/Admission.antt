-- ===== src/Limiter/Acquire/Admission.antt =====
-- What consume.lua does when it admits an acquire marker.
use redis_rate_limiter.Prelude.{
  ℕ, ◌+◌, ◌-◌, ◌<◌, ◌≡◌, refl, ap, Bool, true, false, ◌&&◌, Option, none, some, List, [], ◌∷◌, ◌++◌,
  arith, Bool-cases, inl, inr,
}
use redis_rate_limiter.Prelude.Text.{Text, same}
use redis_rate_limiter.Keys
use redis_rate_limiter.Keys.{window_key, key_of, signal_key, signal_key-eq, same-key_of}
use redis_rate_limiter.Redis.{Redis}
use redis_rate_limiter.Limiter.Acquire.Signals.{pushed}
use redis_rate_limiter.Scripts.Clock.{Time, now_ms}
use redis_rate_limiter.Scripts.Task.{Task, is_marker}
use redis_rate_limiter.Scripts.Consume.{
  Keys, Arguments, Reply, fairness_ttl, is_expired, past_deadline, signal, signal_marker, confirm,
  lease, admit, take_head,
}

-- The task of a reply, if there is one.
abbrev task_in : Option Reply → Option Text
task_in none = none
task_in (some r) = r.task

pub in_time :
    (time : Time) (task : Task) (timeout_ms : ℕ)
    → is_marker task ≡ true
    → task.acquire_timeout_ms ≡ some timeout_ms
    → (is_marker task && past_deadline time task) ≡ false
    → now_ms time < task.arrived_at + timeout_ms
unfolding past_deadline
in_time time task timeout_ms marker h e = ground arith

module _ (R : Redis) where
  open R use {Db, view}

  -- The caller that waits for this task finds its signal.
  abbrev pub Signalled : Text → Text → Db → Type 0
  Signalled base task_id db =
      (signals : List Text) × ((view db (signal_key base task_id)).list ≡ signals ++ task_id ∷ [])

  confirm-Signalled :
      (time : Time) (k : Keys) (a : Arguments) (raw t : Text) (reply : Reply) (done : Bool)
      (db : Db)
      → Signalled k.base t db
      → Signalled k.base t (confirm R time k a raw reply done db).0
  unfolding confirm
  confirm-Signalled time k a raw t reply false db s = s
  confirm-Signalled time k a raw t reply true db (signals, e) =
      let last : Text = key_of k.base Keys.last_consumer in
      let at : Text = key_of k.base (Keys.acquire t) in
      let apart : same last at ≡ false = same-key_of k.base Keys.last_consumer (Keys.acquire t) in
      (
        signals,
        rw (signal_key-eq k.base t) (
            rw (R.view-set_px last a.worker_id (fairness_ttl a) (now_ms time) db at, apart)
              (rw (signal_key-eq k.base t) at e)),
      )

  signal-Signalled :
      (time : Time) (base : Text) (task : Task) (timeout_ms : ℕ) (db : Db)
      → task.acquire_timeout_ms ≡ some timeout_ms
      → Signalled base task.id (signal R time base task db).0
  unfolding signal
  signal-Signalled time base task timeout_ms db h = rw h (
    (view db (signal_key base task.id)).list,
    pushed R (signal_key base task.id) task.id timeout_ms (now_ms time) db,
  )

  pub admit-Signalled :
      (time : Time) (k : Keys) (a : Arguments) (raw : Text) (task : Task) (reply : Reply)
      (timeout_ms : ℕ) (db : Db)
      → is_marker task ≡ true
      → task.acquire_timeout_ms ≡ some timeout_ms
      → Signalled k.base task.id (admit R time k a raw task reply db).0
  unfolding admit signal_marker
  admit-Signalled time k a raw task reply timeout_ms db marker h = rw marker (
      confirm-Signalled time k a raw task.id reply
        (signal R time k.base task (lease R time k a task reply db)).1
        (signal R time k.base task (lease R time k a task reply db)).0
        (signal-Signalled time k.base task timeout_ms (lease R time k a task reply db) h))

  pub no_task_replied :
      (q r : Reply) (raw : Text) → q.task ≡ none → some q ≡ some r → r.task ≡ some raw → ⊥
  no_task_replied q r raw none_there e t = cc (ap task_in e)

  confirm_task :
      (time : Time) (k : Keys) (a : Arguments) (raw raw' : Text) (reply r : Reply) (done : Bool)
      (db : Db)
      → (confirm R time k a raw reply done db).1 ≡ some r
      → r.task ≡ some raw'
      → raw ≡ raw'
  unfolding confirm
  confirm_task time k a raw raw' reply r false db e t = cc
  confirm_task time k a raw raw' reply r true db e t = cc (ap task_in e)

  -- A reply with a task comes of an admission, of a task that is in time.
  pub take_head_admits :
      (time : Time) (k : Keys) (a : Arguments) (raw raw' : Text) (task : Task) (reply r : Reply)
      (db : Db)
      → reply.task ≡ none
      → (take_head R time k a raw task reply db).1 ≡ some r
      → r.task ≡ some raw'
      → ((is_marker task && past_deadline time task) ≡ false)
        × (raw ≡ raw')
        × (take_head R time k a raw task reply db
            ≡ admit R time k a raw task
                (record reply { buffer_count = reply.buffer_count - 1 })
                (R.zrem k.buffer raw db))
  unfolding take_head
  take_head_admits time k a raw raw' task reply r db no_task e t =
      elim (Bool-cases (is_expired time a task)) [
        | inl old ↦ absurd (no_task_replied _ r raw' no_task (rw old at e) t)
        | inr young ↦ elim (Bool-cases (is_marker task && past_deadline time task)) [
          | inl late ↦ absurd (no_task_replied _ r raw' no_task (rw (young, late) at e) t)
          | inr ready ↦
              rw (young, ready)
                (
                  refl,
                  confirm_task time k a raw raw'
                      (record reply { buffer_count = reply.buffer_count - 1 }) r _ _
                      (rw (young, ready) at e) t,
                  refl,
                )
        ]
      ]
