-- ===== src/Limiter/Schedule.antt =====
-- `schedule_task`, `trigger_consume`, the task lifecycle and `acquire` of
-- src/redis_rate_limiter/core/limiters.py. `json.dumps` of a payload and the MD5 digest are
-- parameters. Messages that are published, and calls of `_schedule_drain`, are listed as events.
pub mod Deduplication
use redis_rate_limiter.Prelude.{
  ℕ, ◌+◌, ◌*◌, ◌/◌, Bool, true, false, not, Option, none, some, List, [], ◌∷◌, ◌++◌, max,
  if◌then◌else◌, ◌==◌,
}
use redis_rate_limiter.Prelude.Int.{ℤ, pos}
use redis_rate_limiter.Prelude.Text.{Text, codes, same}
use redis_rate_limiter.Keys.{
  buffer, concurrency, drain_signal, key_of, get_inflight_key, signal_key,
}
use redis_rate_limiter.Redis.{Redis}
use redis_rate_limiter.Limiter.{Limiter, get_inflight_ttl}
use redis_rate_limiter.Scripts.Clock.{Time, now_ms}
use redis_rate_limiter.Scripts.Task.{acquire_marker_path}
use redis_rate_limiter.Scripts.Lease.{schedule_script, release_script, Released}

-- What a call leaves for others: a wake-up of the local drain loop, a published message, a metric.
pub data Event : Type 0 where
  wake : Event
  publish : Text → Text → Event
  metric : Bool → Text → Event

-- hashlib.md5 and json.dumps of the payload
pub record Codec : Type 1 where
  pub Payload : Type 0
  -- json.dumps({"path": ..., "payload": ...}, sort_keys=True)
  pub signature : Text → Payload → Text
  pub md5 : Text → Text
  -- json.dumps({"id": ..., "func_path": ..., "payload": ..., "inflight_key": ...})
  pub dumps : Text → Text → Payload → Text → Text

pub data Scheduled : Type 0 where
  -- (was_scheduled, task_id)
  returned : Bool → Text → Scheduled
  -- the exception of the script, after the clean-up
  raised : Scheduled

-- _schedule_drain() and _publish_drain_signal()
unfoldable pub trigger_consume : Limiter → List Event
trigger_consume l = wake ∷ publish (key_of l.id drain_signal) l.worker_id ∷ []

-- `max_age or ""`: an override of 0 is no override for the script.
unfoldable pub script_max_age : Option ℕ → Option ℕ
script_max_age none = none
script_max_age (some n) = if n == 0 then none else some n

module _ (C : Codec) where
  open C use {Payload}

  -- _get_task_signature_str and the digest
  unfoldable pub task_id_of : Text → Payload → Text
  task_id_of func_path payload = C.md5 (C.signature func_path payload)

  -- _get_task_data_str
  unfoldable pub get_task_data_str : Limiter → Text → Text → Payload → Text
  get_task_data_str l task_id func_path payload =
      C.dumps task_id func_path payload (get_inflight_key l.id task_id)

module _ (R : Redis) (C : Codec) where
  open R use {Db, set_nx, del}
  open C use {Payload}

  -- `works` tells whether the script runs; otherwise the claim is taken back and the exception goes
  -- on. The priority is finite.
  unfoldable pub schedule_task :
      Bool → Time → Limiter → Text → Payload → ℤ → Option ℕ → Db → Db × Scheduled × List Event
  unfolding task_id_of get_task_data_str trigger_consume script_max_age
  schedule_task works time l func_path payload priority max_age db =
      let task_id = task_id_of C func_path payload in
      let inflight_key = get_inflight_key l.id task_id in
      let (claimed, fresh) =
        set_nx inflight_key (codes "1") (get_inflight_ttl l max_age) (now_ms time) db in
      let full_data = get_task_data_str C l task_id func_path payload in
      if not fresh
      then (claimed, returned false task_id, metric false task_id ∷ [])
      else if works
      then (
        schedule_script R time (key_of l.id buffer) full_data priority (script_max_age max_age)
            claimed,
        returned true task_id,
        trigger_consume l ++ metric true task_id ∷ [],
      )
      else (del inflight_key claimed, raised, [])

module _ (R : Redis) where
  open R use {Db}

  -- TaskLifecycle.__exit__, but for the heartbeat: release.lua and the local wake-up. An empty task
  -- id has the in-flight key "".
  unfoldable pub exit_lifecycle : Limiter → Text → Db → Db × Released × List Event
  exit_lifecycle l task_id db =
      let inflight_key = if not (same task_id []) then get_inflight_key l.id task_id else [] in
      let (db', released) =
        release_script R (key_of l.id concurrency) inflight_key (key_of l.id drain_signal) task_id
          l.worker_id db in
      (db', released, publish released.channel released.message ∷ wake ∷ [])
