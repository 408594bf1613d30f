-- ===== src/Scripts/Consume/Outcomes.antt =====
-- Each run of consume.lua has one of the outcomes of Cases.
use redis_rate_limiter.Prelude.{
  ℕ, suc, ◌+◌, ◌-◌, ◌<◌, ◌≡◌, refl, sym, ap, ◌∙◌, subst₂, ◌⊎◌, inl, inr, Bool, true, false, ◌&&◌,
  none, some, [], ◌∷◌, arith, ltb, length, Bool-cases,
}
use redis_rate_limiter.Prelude.Int.{ℤ, pos, sub_ℕ}
use redis_rate_limiter.Prelude.Text.{Text}
use redis_rate_limiter.Keys.{
  last_consumer, last_caller, key_of, buffer, concurrency, get_inflight_key, get_inflight_key-eq,
  window_key,
}
use redis_rate_limiter.Redis.{Redis}
use redis_rate_limiter.Redis.SortedSet.{ZSet, insert, drop_through}
use redis_rate_limiter.Window.{current_window_start, estimated_count, below_limit}
use redis_rate_limiter.Window.Limit.{full_or_spent}
use redis_rate_limiter.Scripts.Acquire.{read_count}
use redis_rate_limiter.Scripts.Clock.{Time, now_ms}
use redis_rate_limiter.Scripts.Task.{Task, is_marker}
use redis_rate_limiter.Scripts.Consume.{
  Arguments, Reply, admitted, blocked, is_expired, past_deadline, admit, take_head, take_first,
  dequeue, consume_script, reclaim_leases, fairness_ttl, yields, confirm, lease, granted,
}
use redis_rate_limiter.Scripts.Consume.Steps.{
  State, keys_of, state, state-zrem, state-zadd, state-zremrangebyscore, state-rpush, state-set_px,
  state-del, state-count_request, state-signal_marker, signal_marker_cases,
}
use redis_rate_limiter.Scripts.Consume.Cases.{Outcome, idle, died, skipped, leased, OwnsHead}

module _ (R : Redis) (id : Text) (time : Time) (a : Arguments) where
  open R use {Db, view}

  state-confirm :
      (raw : Text) (reply : Reply) (done : Bool) (db : Db)
      → state R id (confirm R time (keys_of id) a raw reply done db).0 ≡ state R id db
  unfolding confirm
  state-confirm raw reply true db = state-set_px R id last_consumer _ _ _ db refl
  state-confirm raw reply false db = refl

  state-admit :
      (raw : Text) (task : Task) (reply : Reply) (db : Db)
      → state R id (admit R time (keys_of id) a raw task reply db).0 ≡ record (state R id db) {
        leases = insert (pos (time.seconds + a.lease_duration)) task.id (state R id db).leases;
      }
  unfolding admit
  state-admit raw task reply db =
      simp (state-confirm, state-signal_marker, state-zadd, state-count_request)

  reply-admit :
      (raw : Text) (task : Task) (reply : Reply) (db : Db)
      → ((reply' : Reply) × ((admit R time (keys_of id) a raw task reply db).1 ≡ some reply')
          × (reply'.task ≡ some raw)
          × (reply'.status ≡ admitted)
          × (reply'.active_now ≡ reply.active_now + 1)
          × (reply'.buffer_count ≡ reply.buffer_count))
        ⊎ (((admit R time (keys_of id) a raw task reply db).1 ≡ none)
            × (is_marker task ≡ true)
            × (task.acquire_timeout_ms ≡ none))
  unfolding admit confirm
  reply-admit raw task reply db =
      elim (signal_marker_cases R id time task (lease R time (keys_of id) a task reply db)) [
        | inl e ↦ inl (granted raw reply, rw (e, confirm), refl, refl, refl, refl)
        | inr (e, m, n) ↦ inr (rw (e, confirm), m, n)
      ]

  one_less :
      (z : ZSet) (n : ℕ) (score : ℤ) (raw : Text) (later : ZSet)
      → z ≡ (score, raw) ∷ later
      → n ≡ length z
      → (n - 1) + 1 ≡ length z
  one_less z n score raw later h count =
      let full : length z ≡ suc (length later) = ap (λ (y : ZSet). length y) h in
      omega (arith, full, count)

  module _ (decode : Text → Task) (active : ℕ) where
    state-clear :
        (task : Task) (db : Db)
        → task.inflight_key ≡ get_inflight_key id task.id
        → state R id (R.del task.inflight_key db) ≡ state R id db
    state-clear task db own = rw (own, get_inflight_key-eq) (state-del R id task.id db)

    leased-reply :
        (z : ZSet) (raw : Text) (task : Task) (reply : Reply) (db : Db)
        → reply.active_now ≡ active
        → reply.buffer_count + 1 ≡ length z
        → ((reply' : Reply) × ((admit R time (keys_of id) a raw task reply db).1 ≡ some reply')
            × (reply'.task ≡ some raw)
            × (reply'.status ≡ admitted)
            × (reply'.active_now ≡ active + 1)
            × (reply'.buffer_count + 1 ≡ length z))
          ⊎ (((admit R time (keys_of id) a raw task reply db).1 ≡ none)
              × (is_marker task ≡ true)
              × (task.acquire_timeout_ms ≡ none))
    leased-reply z raw task reply db e less = elim (reply-admit raw task reply db) [
      | inl (reply', same, taken, status, act, count) ↦
          inl (reply', same, taken, status, omega (arith, act, e), omega (arith, count, less))
      | inr failed ↦ inr failed
    ]

    head_outcome :
        (score : ℤ) (raw : Text) (later : ZSet) (reply : Reply) (db : Db)
        → (state R id db).pending ≡ (score, raw) ∷ later
        → (decode raw).inflight_key ≡ get_inflight_key id (decode raw).id
        → reply.active_now ≡ active
        → reply.task ≡ none
        → reply.buffer_count ≡ length (state R id db).pending
        → active < a.max_concurrency
        → let (db', r) = take_head R time (keys_of id) a raw (decode raw) reply db in
          Outcome time a decode active (state R id db) (state R id db') r
    unfolding take_head
    head_outcome score raw later reply db h own e none_yet count room =
        let less : (reply.buffer_count - 1) + 1 ≡ length (state R id db).pending =
          one_less (state R id db).pending reply.buffer_count score raw later h count in
        elim (Bool-cases (is_expired time a (decode raw))) [
          | inl old ↦ elim (Bool-cases (is_marker (decode raw))) [
            | inl m ↦
                rw (old, m)
                  (died score raw later _ h old refl (none_yet, e, less) refl
                    (rw m (state-clear (decode raw) _ own ∙ state-zrem R id raw db)))
            | inr m ↦
                rw (old, m)
                  (died score raw later _ h old refl (none_yet, e, less) refl
                    (rw m (state-clear (decode raw) _ own ∙ simp (state-rpush, state-zrem))))
          ]
          | inr young ↦
              elim (Bool-cases (is_marker (decode raw) && past_deadline time (decode raw))) [
                | inl late ↦
                    rw (young, late)
                      (skipped score raw later _ h (ground arith) (ground arith) refl
                        (none_yet, e, less) refl
                        (state-clear (decode raw) _ own ∙ state-zrem R id raw db))
                | inr due ↦
                    rw (young, due)
                      (leased score raw later h young due room
                        (leased-reply (state R id db).pending raw (decode raw)
                          (record reply { buffer_count = reply.buffer_count - 1 })
                          (R.zrem (key_of id buffer) raw db) e less)
                        (simp (state-admit, state-zrem)))
              ]
        ]

    first_outcome :
        (z : ZSet) (reply : Reply) (db : Db)
        → (state R id db).pending ≡ z
        → OwnsHead id decode z
        → reply.active_now ≡ active
        → reply.task ≡ none
        → reply.status ≡ blocked
        → reply.buffer_count ≡ length (state R id db).pending
        → active < a.max_concurrency
        → let (db', r) = take_first R decode time (keys_of id) a z reply db in
          Outcome time a decode active (state R id db) (state R id db') r
    unfolding take_first
    first_outcome [] reply db h own e none_yet status count room =
        idle reply refl none_yet e (inr (status, (count, inl h))) refl
    first_outcome ((score, raw) ∷ later) reply db h own e none_yet status count room =
        head_outcome score raw later reply db h own e none_yet count room

    dequeue_outcome :
        (db : Db)
        → OwnsHead id decode (state R id db).pending
        → let (db', r) = dequeue R decode time (keys_of id) a active db in
          Outcome time a decode active (state R id db) (state R id db') r
    unfolding dequeue state
    dequeue_outcome db own = elim (Bool-cases open_now) [
      | inl e ↦ rw e (
          first_outcome (view db (key_of id buffer)).zset _ db refl own refl refl refl refl
            (ground arith))
      | inr e ↦
          rw e
            (idle _ refl refl refl (inr (refl, (refl, inr (full_or_spent _ _ _ active _ e)))) refl)
    ]
      where
        open_now : Bool
        open_now =
            below_limit
              (estimated_count (now_ms time) a.window_size_ms
                (read_count R
                  (window_key id
                    (current_window_start (now_ms time) a.window_size_ms - a.window_size_ms))
                  db)
                (read_count R (window_key id (current_window_start (now_ms time) a.window_size_ms))
                  db))
              a.window_size_ms a.rate_limit
            && ltb active a.max_concurrency

  abbrev pub healed : Db → Db
  healed = reclaim_leases R time (key_of id concurrency)

  abbrev pub called : Db → Db
  called db =
      R.set_px (key_of id last_caller) a.worker_id (fairness_ttl a) (now_ms time) (healed db)

  pub state-called :
      (db : Db)
      → state R id (called db) ≡ record (state R id db) {
        leases = drop_through (sub_ℕ time.seconds 1) (state R id db).leases;
      }
  unfolding reclaim_leases
  state-called db =
      state-set_px R id last_caller _ _ _ (healed db) refl ∙ state-zremrangebyscore R id _ db

  same_leases :
      (db : Db)
      → length (view (healed db) (key_of id concurrency)).zset
        ≡ length (state R id (called db)).leases
  unfolding state
  same_leases db =
      sym
        (ap (λ (u : State). length u.leases) (state-set_px R id last_caller _ _ _ (healed db) refl))

  -- One run of consume.lua, on a limiter whose first task, if any, carries the limiter's own in-flight
  -- key: the leases that ended before this second are reclaimed, and then nothing is taken (a yield, an
  -- empty buffer, or a limit), or the first task goes to the dead letter queue, is dropped as an acquire
  -- marker that is too old or whose caller has given up, or gets a lease, which needs a free concurrency
  -- slot. Buffer, leases and queue are given for each, and of the reply the status, the task, the number
  -- of leases and that of waiting tasks. Where a marker without a timeout gets a lease, the script may
  -- fail instead of replying.
  pub consume_outcome :
      (decode : Text → Task) (db : Db)
      → OwnsHead id decode (state R id db).pending
      → let s = state R id db in
        let live = drop_through (sub_ℕ time.seconds 1) s.leases in
        let (db', r) = consume_script R decode time (keys_of id) a db in
        Outcome time a decode (length live) (record s { leases = live }) (state R id db') r
  unfolding consume_script
  consume_outcome decode db own =
      subst₂
        (λ n u.
          let (db', r) = consume_script R decode time (keys_of id) a db in
          Outcome time a decode n u (state R id db') r)
        (same_leases db ∙ ap (λ (u : State). length u.leases) (state-called db)) (state-called db)
        (elim (Bool-cases (
          yields (view (healed db) (key_of id last_consumer)).str
            (view (healed db) (key_of id last_caller)).str a.worker_id)) [
              | inl e ↦ rw e (idle _ refl refl refl (inl (refl, refl)) refl)
              | inr e ↦ rw e (dequeue_outcome decode _ (called db) (rw state-called own))
            ])
