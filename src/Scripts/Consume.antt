-- ===== src/Scripts/Consume.antt =====
-- src/redis_rate_limiter/lua/consume.lua
pub mod Steps
pub mod Cases
pub mod Fairness
pub mod Outcomes
pub mod Safety
use redis_rate_limiter.Prelude.{
  ℕ, ◌+◌, ◌-◌, ◌*◌, ◌/◌, Bool, true, false, not, ◌&&◌, Option, none, some, [], ◌∷◌, length, ltb,
  leb, if◌then◌else◌, is_some, or_else,
}
use redis_rate_limiter.Prelude.Int.{ℤ, pos, negsuc, sub_ℕ, ◌-ℤ◌}
use redis_rate_limiter.Prelude.Text.{Text, same}
use redis_rate_limiter.Keys.{Role, key_of, signal_key, window_key}
use redis_rate_limiter.Redis.{Redis}
use redis_rate_limiter.Redis.SortedSet.{ZSet}
use redis_rate_limiter.Window.{
  current_window_start, estimated_count, below_limit, remaining_tokens, reset_in_ms,
}
use redis_rate_limiter.Scripts.Clock.{Time, now_ms}
use redis_rate_limiter.Scripts.Task.{Task, is_marker}
use redis_rate_limiter.Scripts.Acquire.{read_count, count_request}

pub record Keys : Type 0 where
  pub base : Text
  pub buffer : Text
  pub concurrency : Text
  pub dlq : Text

-- The numbers of ARGV, with the window in milliseconds, and the worker.
pub record Arguments : Type 0 where
  pub window_size_ms : ℕ
  pub rate_limit : ℕ
  pub max_concurrency : ℕ
  pub max_age : ℕ
  pub lease_duration : ℕ
  pub worker_id : Text

-- {status, task_json_or_false, remaining, active_now, reset_in_ms, buffer_count, previous_count,
-- current_count}
pub record Reply : Type 0 where
  pub status : ℤ
  pub task : Option Text
  pub remaining : ℤ
  pub active_now : ℕ
  pub reset : ℕ
  pub buffer_count : ℕ
  pub previous_count : ℕ
  pub current_count : ℕ

abbrev pub admitted : ℤ
admitted = pos 1

abbrev pub blocked : ℤ
blocked = pos 0

abbrev pub expired : ℤ
expired = negsuc 0

abbrev pub marker_skipped : ℤ
marker_skipped = negsuc 1

abbrev pub yielded : ℤ
yielded = negsuc 2

abbrev pub is_text : Option Text → Text → Bool
is_text none t = false
is_text (some s) t = same s t

-- last_consumer == worker_id and last_caller ~= false and last_caller ~= worker_id
unfoldable pub yields : Option Text → Option Text → Text → Bool
yields last_consumer last_caller worker_id =
    is_text last_consumer worker_id && (is_some last_caller && not (is_text last_caller worker_id))

-- 2 * window_size_ms + 10000
abbrev pub fairness_ttl : Arguments → ℕ
fairness_ttl a = 2 * a.window_size_ms + 10000

-- task_age > effective_max_age
unfoldable pub is_expired : Time → Arguments → Task → Bool
is_expired time a task =
    ltb (or_else task.max_age a.max_age) (time.seconds - task.arrived_at / 1000)

-- The deadline of an acquire marker has passed.
unfoldable pub past_deadline : Time → Task → Bool
past_deadline time task = elim task.acquire_timeout_ms [
  | none ↦ false
  | some timeout_ms ↦ leb (task.arrived_at + timeout_ms) (now_ms time)
]

-- {1, tasks[1], remaining - 1, active_now + 1, ..., current_count + 1}
abbrev pub granted : Text → Reply → Reply
granted raw reply = record reply {
  status = admitted;
  task = some raw;
  remaining = reply.remaining -ℤ pos 1;
  active_now = reply.active_now + 1;
  current_count = reply.current_count + 1;
}

module _ (R : Redis) where
  open R use {Db, view, set_px, pexpire, del, zadd, zrem, zremrangebyscore, rpush}

  -- Self-heal: ZREMRANGEBYSCORE concurrency_key -inf (timestamp - 1)
  unfoldable pub reclaim_leases : Time → Text → Db → Db
  reclaim_leases time concurrency = zremrangebyscore concurrency (sub_ℕ time.seconds 1)

  -- The acquire marker's signal. A marker with no timeout makes PEXPIRE fail, after the push.
  unfoldable pub signal : Time → Text → Task → Db → Db × Bool
  signal time base task db =
      let key = signal_key base task.id in
      let pushed = rpush key task.id db in
      elim task.acquire_timeout_ms [
        | none ↦ (pushed, false)
        | some timeout_ms ↦ (pexpire key timeout_ms (now_ms time) pushed, true)
      ]

  unfoldable pub signal_marker : Time → Text → Task → Db → Db × Bool
  unfolding signal
  signal_marker time base task db = if is_marker task then signal time base task db else (db, true)

  -- SET last_consumer_key and the reply with status 1; `none` is an error of the script.
  unfoldable pub confirm : Time → Keys → Arguments → Text → Reply → Bool → Db → Db × Option Reply
  confirm time k a raw reply false db = (db, none)
  confirm time k a raw reply true db = (
    set_px (key_of k.base Role.last_consumer) a.worker_id (fairness_ttl a) (now_ms time) db,
    some (granted raw reply),
  )

  -- INCR of the window's counter, and ZADD of the lease.
  unfoldable pub lease : Time → Keys → Arguments → Task → Reply → Db → Db
  lease time k a task reply db =
      let now = now_ms time in
      let current_key = window_key k.base (current_window_start now a.window_size_ms) in
      let counted = count_request R current_key a.window_size_ms now reply.current_count db in
      zadd k.concurrency (pos (time.seconds + a.lease_duration)) task.id counted

  -- From INCR on.
  unfoldable pub admit : Time → Keys → Arguments → Text → Task → Reply → Db → Db × Option Reply
  unfolding lease signal_marker confirm
  admit time k a raw task reply db =
      let (signalled, done) = signal_marker time k.base task (lease time k a task reply db) in
      confirm time k a raw reply done signalled

  -- The head of the buffer, from ZREM on; `reply` is the reply with the head still counted.
  unfoldable pub take_head : Time → Keys → Arguments → Text → Task → Reply → Db → Db × Option Reply
  unfolding is_expired past_deadline admit
  take_head time k a raw task reply db =
      let removed = zrem k.buffer raw db in
      let less : Reply = record reply { buffer_count = reply.buffer_count - 1 } in
      if is_expired time a task
      then (
        del task.inflight_key (if is_marker task then removed else rpush k.dlq raw removed),
        some (record less { status = expired }),
      )
      else if is_marker task && past_deadline time task
      then (del task.inflight_key removed, some (record less { status = marker_skipped }))
      else admit time k a raw task less removed

  module _ (decode : Text → Task) where
    -- ZRANGE buffer_key 0 0
    unfoldable pub take_first : Time → Keys → Arguments → ZSet → Reply → Db → Db × Option Reply
    unfolding take_head
    take_first time k a [] reply db = (db, some reply)
    take_first time k a ((score, raw) ∷ later) reply db =
        take_head time k a raw (decode raw) reply db

    -- From the window counters to the end, with `active` leases.
    unfoldable pub dequeue : Time → Keys → Arguments → ℕ → Db → Db × Option Reply
    unfolding take_first read_count
    dequeue time k a active db =
        let w = a.window_size_ms in
        let now = now_ms time in
        let start = current_window_start now w in
        let current = read_count R (window_key k.base start) db in
        let previous = read_count R (window_key k.base (start - w)) db in
        let estimated = estimated_count now w previous current in
        let reply : Reply = record {
          status = blocked;
          task = none;
          remaining = pos (remaining_tokens estimated w a.rate_limit);
          active_now = active;
          reset = reset_in_ms now w;
          buffer_count = length (view db k.buffer).zset;
          previous_count = previous;
          current_count = current;
        } in
        if below_limit estimated w a.rate_limit && ltb active a.max_concurrency
        then take_first time k a (view db k.buffer).zset reply db
        else (db, some reply)

    unfoldable pub consume_script : Time → Keys → Arguments → Db → Db × Option Reply
    unfolding reclaim_leases yields dequeue
    consume_script time k a db =
        let healed = reclaim_leases time k.concurrency db in
        let active = length (view healed k.concurrency).zset in
        let last_consumer = (view healed (key_of k.base Role.last_consumer)).str in
        let last_caller = (view healed (key_of k.base Role.last_caller)).str in
        let called =
          set_px (key_of k.base Role.last_caller) a.worker_id (fairness_ttl a) (now_ms time)
            healed in
        if yields last_consumer last_caller a.worker_id
        then (
          called,
          some (record {
            status = yielded;
            task = none;
            remaining = pos 0;
            active_now = active;
            reset = 0;
            buffer_count = 0;
            previous_count = 0;
            current_count = 0;
          }),
        )
        else dequeue time k a active called
