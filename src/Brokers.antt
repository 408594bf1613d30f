-- ===== src/Brokers.antt =====
-- The broker backends (src/redis_rate_limiter/backends/celery, rq, dramatiq and huey): each schedules a
-- task with its route, hands an admitted one to its broker, and has a generic worker, which runs the
-- function of a message inside the task's lifecycle. The brokers are parameters: whether they accept a
-- message.
pub mod Payload
pub mod Delivery
pub mod Registered
use redis_rate_limiter.Prelude.{ℕ, Bool, true, false, Option, none, some, List, if◌then◌else◌}
use redis_rate_limiter.Prelude.Int.{ℤ}
use redis_rate_limiter.Prelude.Text.{Text}
use redis_rate_limiter.Redis.{Redis}
use redis_rate_limiter.Importing.{Interpreter, Imported, resolved, failed, import_string}
use redis_rate_limiter.Limiter.{Limiter}
use redis_rate_limiter.Limiter.Schedule.{Event, Codec, Scheduled, schedule_task}
use redis_rate_limiter.Scripts.Clock.{Time}
use redis_rate_limiter.Decorators.{Ended, raised, rate_limited}
use Payload.{Value, Fields, dict, build_enhanced_payload, use_executor_of, data_of}

pub data Broker : Type 0 where
  celery rq dramatiq huey : Broker

-- What a broker gets: the arguments of the generic worker, or a call of the user's own.
pub data Message : Type 0 where
  -- limiter_id, func_path, payload and _rate_limit_task_id
  generic : Text → Text → Value → Text → Message
  -- the function's path, its one argument, and _rate_limit_task_id
  custom : Text → Value → Text → Message

-- What _dispatch_task ends with.
pub data Dispatched : Type 0 where
  sent : Message → Dispatched
  -- the exception of the payload, of the import or of the broker
  failed_dispatch : Dispatched

-- The signatures and texts of tasks, for payloads that are dicts.
pub record TaskCodec : Type 0 where
  pub signature : Text → Value → Text
  pub md5 : Text → Text
  pub dumps : Text → Text → Value → Text → Text

abbrev pub codec_of : TaskCodec → Codec
codec_of c = record { Payload = Value; signature = c.signature; md5 = c.md5; dumps = c.dumps }

module _ (R : Redis) (c : TaskCodec) where
  -- schedule_task of the four backends
  unfoldable pub schedule_routed :
      Bool
      → Time
      → Limiter
      → Text
      → Value
      → ℤ
      → Option ℕ
      → Bool
      → R.Db
      → R.Db × Scheduled × List Event
  unfolding build_enhanced_payload schedule_task
  schedule_routed works time l func_path payload priority max_age use_executor db =
      schedule_task R (codec_of c) works time l func_path
        (build_enhanced_payload payload use_executor) priority max_age db

module _ (I : Interpreter) (accepts : Message → Bool) where
  unfoldable pub send : Message → Dispatched
  send message = if accepts message then sent message else failed_dispatch

  unfoldable pub after_import : Imported I.Object → Message → Dispatched
  unfolding send
  after_import (resolved func) message = send message
  after_import (failed e) message = failed_dispatch

  -- Celery and RQ get the path of the user's task, Dramatiq and Huey the task itself.
  unfoldable pub send_custom : Broker → Text → Message → Dispatched
  unfolding after_import import_string
  send_custom celery func_path message = send message
  send_custom rq func_path message = send message
  send_custom dramatiq func_path message = after_import (import_string I func_path) message
  send_custom huey func_path message = after_import (import_string I func_path) message

  unfoldable pub route : Broker → Limiter → Text → Text → Option Bool → Option Value → Dispatched
  unfolding send_custom
  route broker l func_path task_id none payload = failed_dispatch
  route broker l func_path task_id (some use_executor) none = failed_dispatch
  route broker l func_path task_id (some true) (some payload) =
      send (generic l.id func_path payload task_id)
  route broker l func_path task_id (some false) (some payload) =
      send_custom broker func_path (custom func_path payload task_id)

  -- _dispatch_task
  unfoldable pub dispatch_task : Broker → Limiter → Text → Value → Text → Dispatched
  unfolding route use_executor_of data_of
  dispatch_task broker l func_path payload task_id =
      route broker l func_path task_id (use_executor_of payload) (data_of payload)

-- A process of workers: `get_limiter` is `get` of the backend's class, and `call` what a function does
-- with keyword arguments.
module _ (R : Redis) (I : Interpreter) {A : Type 0} (get_limiter : Text → Option Limiter)
    (call : I.Object → Fields → R.Db → R.Db × Ended A) where
  -- target_func(**payload), where a payload that is no dict is a TypeError
  unfoldable pub call_with : I.Object → Value → R.Db → R.Db × Ended A
  call_with func (dict fields) db = call func fields db
  call_with func _ db = (db, raised)

  unfoldable pub run_imported : Imported I.Object → Value → R.Db → R.Db × Ended A
  unfolding call_with
  run_imported (resolved func) payload db = call_with func payload db
  run_imported (failed e) payload db = (db, raised)

  -- generic_rate_limited_worker, inside its decorator
  unfoldable pub generic_rate_limited_worker : Text → Text → Value → Text → R.Db → R.Db × Ended A
  unfolding rate_limited run_imported import_string
  generic_rate_limited_worker limiter_id func_path payload task_id db =
      rate_limited R get_limiter (run_imported (import_string I func_path) payload) none
        (record { limiter_id = some limiter_id; rate_limit_task_id = some task_id }) db
