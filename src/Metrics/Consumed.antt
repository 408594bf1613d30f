-- ===== src/Metrics/Consumed.antt =====
-- A run of consume with the exporter as its callback.
use redis_rate_limiter.Prelude.{
  ℕ, ◌+◌, ◌≡◌, refl, sym, ap, subst, true, false, Option, none, some, List, [], ◌∷◌, ◌++◌, length,
  or_else,
}
use redis_rate_limiter.Prelude.Text.{Text}
use redis_rate_limiter.Redis.{Redis}
use redis_rate_limiter.Redis.SortedSet.{drop_through}
use redis_rate_limiter.Prelude.Int.{sub_ℕ, ℤ, pos}
use redis_rate_limiter.Limiter.{Limiter}
use redis_rate_limiter.Limiter.Consume.{ConsumeResult, consume, read_reply, arguments_of}
use redis_rate_limiter.Scripts.Clock.{Time}
use redis_rate_limiter.Scripts.Task.{Task}
use redis_rate_limiter.Keys.{key_of, last_consumer, last_caller}
use redis_rate_limiter.Scripts.Consume.{
  Keys, Reply, Arguments, consume_script, yields, reclaim_leases,
}
use redis_rate_limiter.Scripts.Consume.Steps.{State, state}
use redis_rate_limiter.Scripts.Consume.Cases.{Outcome, OwnsHead}
use redis_rate_limiter.Scripts.Consume.Outcomes.{consume_outcome}
use redis_rate_limiter.Metrics.{
  empty, outcome_of, metric_of, MetricCall, call_exporter, consume_total, set_remaining_tokens,
  set_active_concurrency, set_buffer_depth, consume_measured, emit_metric, handle_consume,
}
use redis_rate_limiter.Metrics.Meaning.{Means, outcome_Means, label_yielded}

module _ (R : Redis) (loads : Text → Task) (time : Time) (l : Limiter) where
  abbrev live : R.Db → State
  live db = record (state R l.id db) {
    leases = drop_through (sub_ℕ time.seconds 1) (state R l.id db).leases;
  }

  abbrev lease_end : ℤ
  lease_end = pos (time.seconds + l.lease_duration)

  replied_Means :
      {active : ℕ} {s t : State} (o : Option Reply) (r : ConsumeResult)
      → elim o [ none ↦ none | some reply ↦ some (read_reply R loads reply) ] ≡ some r
      → Outcome time (arguments_of l) loads active s t o
      → Means (outcome_of (metric_of r)) loads lease_end l.max_concurrency active s t r
  replied_Means none r e out = cc
  replied_Means {active = active} {s = s} {t = t} (some reply) r e out =
      let p : read_reply R loads reply ≡ r = ap (λ (u : Option ConsumeResult). or_else u r) e in
      subst
        (λ (u : ConsumeResult).
          Means (outcome_of (metric_of u)) loads lease_end l.max_concurrency active s t u)
        p (outcome_Means R loads l time reply refl out)

  consume-Means :
      (r : ConsumeResult) (db : R.Db)
      → OwnsHead l.id loads (state R l.id db).pending
      → (consume R loads time l db).1 ≡ some r
      → Means
          (outcome_of (metric_of r))
          loads
          lease_end
          l.max_concurrency
          (length (live db).leases)
          (live db)
          (state R l.id (consume R loads time l db).0)
          r
  unfolding consume
  consume-Means r db own got =
      replied_Means _ r got (consume_outcome R l.id time (arguments_of l) loads db own)

  consume_measured-eq :
      (r : ConsumeResult) (calls : List MetricCall) (db : R.Db)
      → (consume R loads time l db).1 ≡ some r
      → (consume_measured R loads
          (some (λ e u. (u ++ call_exporter e, false)))
          time
          l
          (db, calls)).0
        ≡ ((consume R loads time l db).0, calls ++ handle_consume (metric_of r))
  unfolding consume_measured emit_metric call_exporter
  consume_measured-eq r calls db got = rw got refl

-- A run of consume with the exporter as its callback, on a limiter whose first task, if any, carries the
-- limiter's own in-flight key, when it returns: the exporter counts it once and sets each gauge once; and
-- the label tells what has happened to the buffer and the leases. For success, the first task has left the
-- buffer, the result is that task, it has a lease that ends lease_duration from now, there was a free
-- slot, and of the gauges the one of leases is one more than the live leases were, and the one of waiting tasks
-- one less than the buffer held. For expired, the first
-- task has left the buffer, and no lease has changed. For rejected, a marker was dropped, or nothing has
-- changed and a limit was reached. For empty, a marker was dropped, or nothing has changed and the buffer
-- was empty or the worker has yielded.
pub consume_measured-Means :
    (R : Redis) (loads : Text → Task) (time : Time) (l : Limiter) (r : ConsumeResult)
    (calls : List MetricCall) (db : R.Db)
    → OwnsHead l.id loads (state R l.id db).pending
    → (consume R loads time l db).1 ≡ some r
    → let live = drop_through (sub_ℕ time.seconds 1) (state R l.id db).leases in
      let label = outcome_of (metric_of r) in
      let ((after, made), _) =
        consume_measured R loads (some (λ e u. (u ++ call_exporter e, false))) time l (db, calls) in
      (made
        ≡ calls
          ++ consume_total label
            ∷ set_remaining_tokens r.remaining_tokens
            ∷ set_active_concurrency r.active_concurrency
            ∷ set_buffer_depth r.remaining_tasks
            ∷ [])
      × Means label loads
          (pos (time.seconds + l.lease_duration))
          l.max_concurrency
          (length live)
          (record (state R l.id db) { leases = live })
          (state R l.id after)
          r
unfolding handle_consume metric_of
consume_measured-Means R loads time l r calls db own got =
    rw (consume_measured-eq R loads time l r calls db got)
      (refl, consume-Means R loads time l r db own got)

-- What the exporter does when the worker yields, whatever number of tasks waits.
handle_consume-yielded :
    (R : Redis) (loads : Text → Task) (time : Time) (k : Keys) (a : Arguments) (db : R.Db)
    → yields
        (R.view (reclaim_leases R time k.concurrency db) (key_of k.base last_consumer)).str
        (R.view (reclaim_leases R time k.concurrency db) (key_of k.base last_caller)).str
        a.worker_id
      ≡ true
    → (r : Reply) → (consume_script R loads time k a db).1 ≡ some r
    → (outcome_of (metric_of (read_reply R loads r)) ≡ empty)
      × ((metric_of (read_reply R loads r)).remaining_tasks ≡ 0)
unfolding consume_script read_reply metric_of outcome_of
handle_consume-yielded R loads time k a db turn r e =
    let p : _ ≡ r = ap (λ (o : Option Reply). or_else o r) (rw turn at e) in
    (
      label_yielded R loads r (ap (λ (u : Reply). u.status) (sym p))
          (ap (λ (u : Reply). u.buffer_count) (sym p)),
      ap (λ (u : Reply). u.buffer_count) (sym p),
    )
