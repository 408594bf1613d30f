-- ===== src/Metrics.antt =====
-- PrometheusMetricsExporter of src/redis_rate_limiter/integrations/prometheus.py, and `_emit_metric` of
-- core/limiters.py, which calls it. What the exporter does is the list of its calls of prometheus_client.
pub mod Meaning
pub mod Consumed
use redis_rate_limiter.Prelude.{
  ℕ, Bool, true, false, Option, none, some, List, [], ◌∷◌, ◌==◌, if◌then◌else◌,
}
use redis_rate_limiter.Prelude.Int.{ℤ}
use redis_rate_limiter.Prelude.Text.{Text}
use redis_rate_limiter.Redis.{Redis}
use redis_rate_limiter.Limiter.{Limiter}
use redis_rate_limiter.Limiter.Consume.{ConsumeResult, consume}
use redis_rate_limiter.Scripts.Clock.{Time}
use redis_rate_limiter.Scripts.Task.{Task}

-- The data of a "consume" event.
pub record ConsumeData : Type 0 where
  pub success : Bool
  pub expired : Bool
  pub remaining_tokens : ℤ
  pub active_concurrency : ℕ
  pub reset_in_ms : ℕ
  pub remaining_tasks : ℕ

-- An event with its data; `other` is an event with another name.
pub data MetricEvent : Type 0 where
  consume_event : ConsumeData → MetricEvent
  schedule_event : Bool → Text → MetricEvent
  other : Text → MetricEvent

-- The label `outcome` of redis_rate_limiter_consume_total; `dispatched` stands for "success".
pub data Label : Type 0 where
  dispatched rejected expired empty : Label

-- Calls of prometheus_client: `inc` of a counter with its label, and `set` of a gauge.
pub data MetricCall : Type 0 where
  consume_total : Label → MetricCall
  schedule_total : Bool → MetricCall
  set_remaining_tokens : ℤ → MetricCall
  set_active_concurrency : ℕ → MetricCall
  set_buffer_depth : ℕ → MetricCall

unfoldable pub outcome_of : ConsumeData → Label
outcome_of d =
    if d.expired
    then expired
    else if d.success
    then dispatched
    else if d.remaining_tasks == 0
    then empty
    else rejected

-- _handle_consume
unfoldable pub handle_consume : ConsumeData → List MetricCall
unfolding outcome_of
handle_consume d =
    consume_total (outcome_of d)
    ∷ set_remaining_tokens d.remaining_tokens
    ∷ set_active_concurrency d.active_concurrency
    ∷ set_buffer_depth d.remaining_tasks
    ∷ []

-- _handle_schedule
unfoldable pub handle_schedule : Bool → List MetricCall
handle_schedule scheduled = schedule_total scheduled ∷ []

-- __call__
unfoldable pub call_exporter : MetricEvent → List MetricCall
unfolding handle_consume handle_schedule
call_exporter (consume_event d) = handle_consume d
call_exporter (schedule_event scheduled task_id) = handle_schedule scheduled
call_exporter (other event) = []

-- _emit_metric, with a callback that returns or raises; an exception is only logged
unfoldable pub emit_metric :
    {S : Type 0} → Option (MetricEvent → S → S × Bool) → MetricEvent → S → S
emit_metric none event s = s
emit_metric (some callback) event s = (callback event s).0

-- The data that consume emits.
unfoldable pub metric_of : ConsumeResult → ConsumeData
metric_of r = record {
  success = r.success;
  expired = r.expired;
  remaining_tokens = r.remaining_tokens;
  active_concurrency = r.active_concurrency;
  reset_in_ms = r.reset_in_ms;
  remaining_tasks = r.remaining_tasks;
}

abbrev pub emit_result :
    {S : Type 0} → Option (MetricEvent → S → S × Bool) → Option ConsumeResult → S → S
emit_result callback none s = s
emit_result callback (some r) s = emit_metric callback (consume_event (metric_of r)) s

module _ (R : Redis) (loads : Text → Task) {S : Type 0}
    (callback : Option (MetricEvent → S → S × Bool)) where
  -- consume with its metric: a script that raises emits none.
  unfoldable pub consume_measured : Time → Limiter → R.Db × S → (R.Db × S) × Option ConsumeResult
  unfolding emit_metric metric_of consume
  consume_measured time l (db, s) =
      let (db', result) = consume R loads time l db in
      ((db', emit_result callback result s), result)
