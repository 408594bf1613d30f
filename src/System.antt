-- ===== src/System.antt =====
-- The processes that share one limiter: the calls of schedule_task, consume, extend_lease and
-- TaskLifecycle.__exit__ (src/redis_rate_limiter/core/limiters.py), by any of them, one after another
-- as Redis runs their scripts, and what the buffer, the leases and the dead letter queue may do.
pub mod Commands
pub mod Refinement
pub mod Safety
pub mod Chains
pub mod Specification
use redis_rate_limiter.Prelude.{
  ℕ, ◌≤◌, ◌<◌, ◌≡◌, Bool, Option, some, List, [], ◌∷◌, ◌++◌, length, if◌then◌else◌,
}
use redis_rate_limiter.Prelude.Int.{ℤ}
use redis_rate_limiter.Prelude.Text.{Text}
use redis_rate_limiter.Keys.{get_inflight_key}
use redis_rate_limiter.Redis.{Redis}
use redis_rate_limiter.Redis.SortedSet.{insert, remove, drop_through, score}
use redis_rate_limiter.Limiter.{Limiter}
use redis_rate_limiter.Limiter.Consume.{consume, extend_lease}
use redis_rate_limiter.Limiter.Schedule.{Codec, schedule_task, exit_lifecycle}
use redis_rate_limiter.Scripts.Clock.{Time}
use redis_rate_limiter.Scripts.Task.{Task}
use redis_rate_limiter.Scripts.Consume.Steps.{State}

module _ (R : Redis) (C : Codec) (loads : Text → Task) where
  open R use {Db}
  open C use {Payload}

  -- A call, on the limiter object of the process that makes it.
  pub data Call : Type 0 where
    schedules : Bool → Time → Limiter → Text → Payload → ℤ → Option ℕ → Call
    consumes : Time → Limiter → Call
    renews : Time → Limiter → Text → ℕ → Call
    exits : Limiter → Text → Call

  unfoldable pub perform : Call → Db → Db
  perform (schedules works time l func_path payload priority max_age) db =
      (schedule_task R C works time l func_path payload priority max_age db).0
  perform (consumes time l) db = (consume R loads time l db).0
  perform (renews time l task_id duration) db = (extend_lease R loads time l task_id duration db).0
  perform (exits l task_id) db = (exit_lifecycle R l task_id db).0

  unfoldable pub run : List Call → Db → Db
  unfolding perform
  run [] db = db
  run (c ∷ calls) db = run calls (perform c db)

-- The abstract limiter, over the three collections alone: which changes there may be, with at most
-- `max_concurrency` leases. `Owned` tells which tasks may wait.
pub data Move (max_concurrency : ℕ) (loads : Text → Task) (Owned : Text → Type 0) (s t : State)
    : Type 0 where
  queue :
      (priority : ℤ) (raw : Text)
      → Owned raw
      → t ≡ record s { pending = insert priority raw s.pending }
      → Move max_concurrency loads Owned s t
  reclaim :
      (top : ℤ)
      → t ≡ record s { leases = drop_through top s.leases }
      → Move max_concurrency loads Owned s t
  discard :
      (raw : Text) (to_dead : Bool)
      → t ≡ record s {
        pending = remove raw s.pending;
        dead = (if to_dead then s.dead ++ raw ∷ [] else s.dead);
      }
      → Move max_concurrency loads Owned s t
  admit :
      (until : ℤ) (raw : Text)
      → length s.leases < max_concurrency
      → t
        ≡ record s { pending = remove raw s.pending; leases = insert until (loads raw).id s.leases }
      → Move max_concurrency loads Owned s t
  renew :
      (until old : ℤ) (task_id : Text)
      → score task_id s.leases ≡ some old
      → t ≡ record s { leases = insert until task_id s.leases }
      → Move max_concurrency loads Owned s t
  release :
      (task_id : Text)
      → t ≡ record s { leases = remove task_id s.leases }
      → Move max_concurrency loads Owned s t

pub data Moves (max_concurrency : ℕ) (loads : Text → Task) (Owned : Text → Type 0) (s : State)
    : State → Type 0 where
  here : Moves max_concurrency loads Owned s s
  next :
      {t u : State}
      → Moves max_concurrency loads Owned s t
      → Move max_concurrency loads Owned t u
      → Moves max_concurrency loads Owned s u
