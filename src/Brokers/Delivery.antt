-- ===== src/Brokers/Delivery.antt =====
-- What is scheduled through a broker is what its worker runs.
use redis_rate_limiter.Prelude.{
  ℕ, ◌≡◌, refl, Bool, true, false, Option, none, some, [], if◌then◌else◌, arith, ap, ◌∙◌,
}
use redis_rate_limiter.Prelude.Int.{ℤ}
use redis_rate_limiter.Prelude.Text.{Text, same, same_refl}
use redis_rate_limiter.Keys.{buffer, concurrency, key_of, get_inflight_key, get_inflight_key-eq}
use redis_rate_limiter.Redis.{Redis, is_absent}
use redis_rate_limiter.Redis.SortedSet.{score}
use redis_rate_limiter.Importing.{Interpreter, resolved, failed, import_string}
use redis_rate_limiter.Limiter.{Limiter}
use redis_rate_limiter.Limiter.Schedule.{task_id_of, get_task_data_str, script_max_age, returned}
use redis_rate_limiter.Limiter.Schedule.Deduplication.{schedule_task_fresh}
use redis_rate_limiter.Scripts.Clock.{Time}
use redis_rate_limiter.Scripts.Lease.{stored_task}
use redis_rate_limiter.Decorators.{Ended, chosen_id, rate_limited_releases}
use redis_rate_limiter.Brokers.{
  Broker, celery, rq, dramatiq, huey, Message, generic, custom, sent, failed_dispatch, TaskCodec,
  codec_of, schedule_routed, send, after_import, send_custom, route, dispatch_task, call_with,
  run_imported, generic_rate_limited_worker,
}
use redis_rate_limiter.Brokers.Payload.{
  Value, Fields, dict, build_enhanced_payload, use_executor_of, data_of,
}

-- The message that a route and a payload ask for.
abbrev pub message_of : Bool → Limiter → Text → Value → Text → Message
message_of true l func_path payload task_id = generic l.id func_path payload task_id
message_of false l func_path payload task_id = custom func_path payload task_id

-- Whether the process that dispatches has to import the function, and can.
abbrev pub may_import : Interpreter → Bool → Broker → Text → Bool
may_import I true broker func_path = true
may_import I false celery func_path = true
may_import I false rq func_path = true
may_import I false dramatiq func_path = elim (import_string I func_path) [
  | resolved func ↦ true
  | failed e ↦ false
]
may_import I false huey func_path = elim (import_string I func_path) [
  | resolved func ↦ true
  | failed e ↦ false
]

module _ (I : Interpreter) (accepts : Message → Bool) where
  route_lem :
      (broker : Broker) (l : Limiter) (func_path task_id : Text) (payload : Value)
      (use_executor : Bool)
      → route I accepts broker l func_path task_id (some use_executor) (some payload) ≡ (
          if may_import I use_executor broker func_path
          then send I accepts (message_of use_executor l func_path payload task_id)
          else failed_dispatch)
  unfolding route send_custom after_import
  route_lem broker l func_path task_id payload true = refl
  route_lem celery l func_path task_id payload false = refl
  route_lem rq l func_path task_id payload false = refl
  route_lem dramatiq l func_path task_id payload false = ground arith
  route_lem huey l func_path task_id payload false = ground arith

  -- Whatever the payload is: the dispatch of what build_enhanced_payload made of it recovers the payload
  -- and the route. The broker gets the payload as it was, under the limiter's identifier for the generic
  -- worker, and under the function's path for the user's own; Dramatiq and Huey import the user's own
  -- first, and raise when that fails.
  dispatch_task-build :
      (broker : Broker) (l : Limiter) (func_path task_id : Text) (payload : Value)
      (use_executor : Bool)
      → dispatch_task I accepts broker l func_path
          (build_enhanced_payload payload use_executor)
          task_id
        ≡ (if may_import I use_executor broker func_path
            then send I accepts (message_of use_executor l func_path payload task_id)
            else failed_dispatch)
  unfolding dispatch_task use_executor_of data_of build_enhanced_payload
  dispatch_task-build broker l func_path task_id payload use_executor =
      route_lem broker l func_path task_id payload use_executor

  dispatch_task_sent :
      (broker : Broker) (l : Limiter) (func_path task_id : Text) (payload : Value)
      → accepts (generic l.id func_path payload task_id) ≡ true
      → dispatch_task I accepts broker l func_path (build_enhanced_payload payload true) task_id
        ≡ sent (generic l.id func_path payload task_id)
  unfolding send
  dispatch_task_sent broker l func_path task_id payload ok =
      rw (dispatch_task-build broker l func_path task_id payload true, ok) refl

-- What json.loads makes of a member of the buffer.
pub record StoredTask : Type 0 where
  pub id : Text
  pub func_path : Text
  pub payload : Value

module _ (R : Redis) (I : Interpreter) {A : Type 0} (get_limiter : Text → Option Limiter)
    (call : I.Object → Fields → R.Db → R.Db × Ended A) where
  generic_rate_limited_worker_lem :
      (l w : Limiter) (func_path task_id : Text) (payload : Value) (db : R.Db)
      → get_limiter l.id ≡ some w
      → w.id ≡ l.id
      → same task_id [] ≡ false
      → let (after, result) =
          generic_rate_limited_worker R I get_limiter call l.id func_path payload task_id db in
        (result ≡ (run_imported R I get_limiter call (import_string I func_path) payload db).1)
        × (score task_id (R.view after (key_of l.id concurrency)).zset ≡ none)
        × (is_absent (R.view after (get_inflight_key l.id task_id)) ≡ true)
  unfolding generic_rate_limited_worker chosen_id
  generic_rate_limited_worker_lem l w func_path task_id payload db found id named =
      let (result, lease, marker) =
        rate_limited_releases R get_limiter
          (run_imported R I get_limiter call (import_string I func_path) payload) none
          (record { limiter_id = some l.id; rate_limit_task_id = some task_id }) db l.id task_id w
          refl found refl named in
      (result, rw id at lease, rw id at marker)

  run_found :
      (func_path : Text) (func : I.Object) (fields : Fields) (db : R.Db)
      → import_string I func_path ≡ resolved func
      → run_imported R I get_limiter call (import_string I func_path) (dict fields) db
        ≡ call func fields db
  unfolding run_imported call_with
  run_found func_path func fields db found = rw found refl

  -- A task that is scheduled through the executor, when its marker was absent and the script runs, and
  -- when the stored text reads back as the task it was made of: the buffer has a text at the task's
  -- priority whose dispatch, on whichever of the four brokers, if it accepts the message, sends it to the
  -- generic worker; there, in a process that knows the limiter and finds the function, the function gets
  -- the fields that the caller scheduled, its result or exception goes on, and afterwards the task has no
  -- lease and no in-flight marker.
  pub schedule_routed-runs :
      (c : TaskCodec) (loads : Text → StoredTask) (accepts : Message → Bool) (broker : Broker)
      (l w : Limiter) (func_path : Text) (fields : Fields) (func : I.Object) (time : Time)
      (priority : ℤ) (max_age : Option ℕ) (db later : R.Db)
      → let payload = build_enhanced_payload (dict fields) true in
        let task_id = task_id_of (codec_of c) func_path payload in
        is_absent (R.view db (get_inflight_key l.id task_id)) ≡ true
        → loads (
            stored_task time
              (get_task_data_str (codec_of c) l task_id func_path payload)
              (script_max_age max_age))
          ≡ record { id = task_id; func_path = func_path; payload = payload }
        → same task_id [] ≡ false
        → accepts (generic l.id func_path (dict fields) task_id) ≡ true
        → get_limiter l.id ≡ some w
        → w.id ≡ l.id
        → import_string I func_path ≡ resolved func
        → let scheduled =
            schedule_routed R c true time l func_path (dict fields) priority max_age true db in
          let (after, result) =
            generic_rate_limited_worker R I get_limiter call l.id func_path
              (dict fields)
              task_id
              later in
          (scheduled.1 ≡ returned true task_id)
          × ((m : Text) × (score m (R.view scheduled.0 (key_of l.id buffer)).zset ≡ some priority)
              × (dispatch_task I accepts broker l (loads m).func_path (loads m).payload (loads m).id
                  ≡ sent (generic l.id func_path (dict fields) task_id)))
          × (result ≡ (call func fields later).1)
          × (score task_id (R.view after (key_of l.id concurrency)).zset ≡ none)
          × (is_absent (R.view after (get_inflight_key l.id task_id)) ≡ true)
  unfolding schedule_routed get_task_data_str
  schedule_routed-runs c loads accepts broker l w func_path fields func time priority max_age db
        later fresh reads named accepted known id found =
      let payload : Value = build_enhanced_payload (dict fields) true in
      let task_id : Text = task_id_of (codec_of c) func_path payload in
      let text : Text =
        stored_task time (get_task_data_str (codec_of c) l task_id func_path payload)
          (script_max_age max_age) in
      let (done, marked, buffered, kept) =
        schedule_task_fresh R (codec_of c) l func_path payload true time priority max_age db
          (rw (← (get_inflight_key-eq l.id task_id)) fresh) refl in
      let (ran, lease, marker) =
        generic_rate_limited_worker_lem l w func_path task_id (dict fields) later known id named in
      (
        done,
        (
          text,
          buffered text ∙ rw (same_refl text) refl,
          rw reads (dispatch_task_sent I accepts broker l func_path task_id (dict fields) accepted),
        ),
        ran ∙ ap (λ (p : R.Db × Ended A). p.1) (run_found func_path func fields later found),
        lease,
        marker,
      )
