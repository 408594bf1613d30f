-- ===== src/Examples/Brokers.antt =====
-- A task that goes through a broker, on the database in memory.
use redis_rate_limiter.Prelude.{◌≡◌, refl, true, none, some, ◌∷◌, ◌++◌}
use redis_rate_limiter.Prelude.Int.{pos}
use redis_rate_limiter.Prelude.Text.{Text, codes}
use redis_rate_limiter.Keys.{key_of, concurrency, buffer, get_inflight_key}
use redis_rate_limiter.Redis.{is_absent}
use redis_rate_limiter.Redis.Memory.{Table, empty, memory}
use redis_rate_limiter.Redis.SortedSet.{score}
use redis_rate_limiter.Importing.{Interpreter, import_string}
use redis_rate_limiter.Limiter.Schedule
use redis_rate_limiter.Limiter.Schedule.{task_id_of}
use redis_rate_limiter.Decorators.{Ended, returned}
use redis_rate_limiter.Brokers.{
  dramatiq, generic, sent, TaskCodec, schedule_routed, dispatch_task, generic_rate_limited_worker,
}
use redis_rate_limiter.Brokers.Payload.{Fields, end, field, dict, number, build_enhanced_payload}
use redis_rate_limiter.Brokers.Delivery.{StoredTask, schedule_routed-runs}
use redis_rate_limiter.Examples.Data.{api, limiter, noon}

abbrev app : Interpreter
app = record {
  Object = Text;
  module_of = λ fn. some (codes "app");
  qualname_of = λ fn. some fn;
  attribute = λ module_path name. some name;
  is_callable = λ fn. true;
  is_same = λ a b. true;
}

abbrev task_codec : TaskCodec
task_codec = record {
  signature = λ path payload. path;
  md5 = λ t. b'm' ∷ t;
  dumps = λ id path payload key. id ++ codes "}";
}

-- app.send(to=3)
abbrev three : Fields
three = field (codes "to") (number (pos 3)) end

abbrev send_path : Text
send_path = codes "app.send"

abbrev send_id : Text
send_id = codes "mapp.send"

abbrev stored : StoredTask
stored = record {
  id = send_id;
  func_path = send_path;
  payload = build_enhanced_payload (dict three) true;
}

-- A function that returns what it was given.
abbrev echo : Text → Fields → Table → Table × Ended Fields
echo func fields db = (db, returned fields)

schedule_routed-runs_example :
    let scheduled =
      schedule_routed memory task_codec true noon limiter send_path
        (dict three)
        (pos 0)
        none
        true
        empty in
    let (after, result) =
      generic_rate_limited_worker memory app
        (λ id. some limiter)
        echo
        api
        send_path
        (dict three)
        send_id
        empty in
    (scheduled.1 ≡ Schedule.returned true send_id)
    × ((m : Text) × (score m (scheduled.0 (key_of api buffer)).zset ≡ some (pos 0))
        × (dispatch_task app
              (λ message. true)
              dramatiq
              limiter
              send_path
              (build_enhanced_payload (dict three) true)
              send_id
            ≡ sent (generic api send_path (dict three) send_id)))
    × (result ≡ returned three)
    × (score send_id (after (key_of api concurrency)).zset ≡ none)
    × (is_absent (after (get_inflight_key api send_id)) ≡ true)
unfolding task_id_of import_string
schedule_routed-runs_example =
    schedule_routed-runs memory app (λ id. some limiter) echo task_codec (λ raw. stored)
      (λ message. true) dramatiq limiter limiter send_path three (codes "send") noon (pos 0) none
      empty empty refl refl refl refl refl refl refl
