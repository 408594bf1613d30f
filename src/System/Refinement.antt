-- ===== src/System/Refinement.antt =====
-- Each call refines the abstract limiter: what it does to the three collections is some moves.
use redis_rate_limiter.Prelude.{
  ◌+◌, ℕ, ◌≤◌, ◌≡◌, refl, sym, ap, ◌∙◌, subst, Bool, true, false, not, Option, none, some, [], ◌∷◌,
  length, arith, Bool-cases, inl, inr, ◌⊎◌,
}
use redis_rate_limiter.Prelude.Int.{ℤ, pos, sub_ℕ}
use redis_rate_limiter.Prelude.Text.{Text, codes, same}
use redis_rate_limiter.Keys.{
  buffer, concurrency, inflight, key_of, get_inflight_key, get_inflight_key-eq,
}
use redis_rate_limiter.Redis.{Redis}
use redis_rate_limiter.Redis.SortedSet.{ZSet, insert, drop_through, score}
use redis_rate_limiter.Redis.SortedSet.Members.{Each}
use redis_rate_limiter.Limiter.{Limiter, get_inflight_ttl}
use redis_rate_limiter.Limiter.Consume.{consume, extend_lease, arguments_of}
use redis_rate_limiter.Limiter.Schedule.{
  Codec, schedule_task, exit_lifecycle, get_task_data_str, task_id_of, script_max_age,
}
use redis_rate_limiter.Scripts.Clock.{Time, now_ms}
use redis_rate_limiter.Scripts.Task.{Task, is_marker}
use redis_rate_limiter.Scripts.Lease.{schedule_script, stored_task, renew_script, release_script}
use redis_rate_limiter.Scripts.Consume.{Arguments, Reply, consume_script}
use redis_rate_limiter.Scripts.Consume.Steps.{State, keys_of, state}
use redis_rate_limiter.Scripts.Consume.Cases.{Outcome, idle, died, skipped, leased, OwnsHead}
use redis_rate_limiter.Scripts.Consume.Outcomes.{consume_outcome}
use redis_rate_limiter.System.{
  Call, schedules, consumes, renews, exits, perform, Move, queue, reclaim, discard, admit, renew,
  release, Moves, here, next,
}
use redis_rate_limiter.System.Commands.{
  state-set_nx, state-unmarked, state-queued, state-renewed, state-released,
}

module _ (R : Redis) (C : Codec) (loads : Text → Task) (id : Text) (max_concurrency : ℕ) where
  open R use {Db, view}

  -- A stored task that reads back with the in-flight key that the limiter gives to its name.
  abbrev pub Owned : Text → Type 0
  Owned raw = (loads raw).inflight_key ≡ get_inflight_key id (loads raw).id

  -- The call is on this limiter, with at most this concurrency, and what it stores reads back as owned.
  abbrev pub Fits : Call R C loads → Type 0
  Fits (schedules works time l func_path payload priority max_age) =
      (l.id ≡ id)
      × Owned (
          stored_task time
            (get_task_data_str C l (task_id_of C func_path payload) func_path payload)
            (script_max_age max_age))
  Fits (consumes time l) = (l.id ≡ id) × (l.max_concurrency ≤ max_concurrency)
  Fits (renews time l task_id duration) = l.id ≡ id
  Fits (exits l task_id) = l.id ≡ id

  abbrev pub Steps : State → State → Type 0
  Steps = Moves max_concurrency loads Owned

  one : {s t : State} → Move max_concurrency loads Owned s t → Steps s t
  one m = next here m

  none_at_all : {s t : State} → t ≡ s → Steps s t
  none_at_all {s} e = subst (Steps s) (sym e) here

  pub head-owned : (z : ZSet) → Each Owned z → OwnsHead id loads z
  head-owned [] h = tt
  head-owned ((a, m) ∷ z) h = h.0

  pub follow : {s t u : State} → Steps s t → Steps t u → Steps s u
  follow first here = first
  follow first (next rest m) = next (follow first rest) m

  Outcome-Moves :
      {time : Time} {a : Arguments} {s t : State} {o : Option Reply}
      → a.max_concurrency ≤ max_concurrency
      → Outcome time a loads (length s.leases) s t o
      → Steps s t
  Outcome-Moves w (idle _ _ _ _ _ e) = none_at_all e
  Outcome-Moves w (died _ raw _ _ _ _ _ _ _ e) =
      one (discard raw (not (is_marker (loads raw))) (ground arith))
  Outcome-Moves w (skipped _ raw _ _ _ _ _ _ _ _ e) = one (discard raw false e)
  Outcome-Moves w (leased _ raw _ _ _ _ room _ e) = one (admit _ raw (omega arith) e)

  consume-Moves :
      (time : Time) (l : Limiter) (db : Db)
      → l.id ≡ id
      → l.max_concurrency ≤ max_concurrency
      → Each Owned (state R id db).pending
      → Steps (state R id db) (state R id (consume R loads time l db).0)
  unfolding consume
  consume-Moves time l db named within owned = follow (one (reclaim (sub_ℕ time.seconds 1) refl)) (
      Outcome-Moves within (
        subst
          (λ key.
            Outcome time (arguments_of l) loads
              (length (drop_through (sub_ℕ time.seconds 1) (state R id db).leases))
              (record (state R id db) {
                leases = drop_through (sub_ℕ time.seconds 1) (state R id db).leases;
              })
              (state R id (consume_script R loads time (keys_of key) (arguments_of l) db).0)
              (consume_script R loads time (keys_of key) (arguments_of l) db).1)
          (sym named)
          (consume_outcome R id time (arguments_of l) loads db
            (head-owned (state R id db).pending owned))))

  pub marker-key :
      (l : Limiter) (t : Text) → l.id ≡ id → get_inflight_key l.id t ≡ key_of id (inflight t)
  marker-key l t named = ap (λ i. get_inflight_key i t) named ∙ get_inflight_key-eq id t

  schedule_task-Moves :
      (works : Bool) (time : Time) (l : Limiter) (func_path : Text) (payload : C.Payload)
      (priority : ℤ) (max_age : Option ℕ) (db : Db)
      → Fits (schedules works time l func_path payload priority max_age)
      → Steps
          (state R id db)
          (state R id (schedule_task R C works time l func_path payload priority max_age db).0)
  unfolding schedule_task schedule_script
  schedule_task-Moves works time l func_path payload priority max_age db (named, owned) =
      let t = task_id_of C func_path payload in
      let key = get_inflight_key l.id t in
      let attempt = R.set_nx key (codes "1") (get_inflight_ttl l max_age) (now_ms time) db in
      let unchanged : state R id attempt.0 ≡ state R id db =
        state-set_nx R id key t _ _ _ db (marker-key l t named) in
      elim (Bool-cases attempt.1) [
        | inr taken ↦ rw taken (none_at_all unchanged)
        | inl fresh ↦ elim (Bool-cases works) [
          | inr broken ↦
              rw (fresh, broken)
                (none_at_all
                  (state-unmarked R id key t attempt.0 (marker-key l t named) ∙ unchanged))
          | inl fine ↦
              rw (fresh, fine)
                (one (
                  queue priority _ owned (
                    state-queued R id _ _ _ attempt.0 (ap (λ i. key_of i buffer) named)
                    ∙ ap
                        (λ (u : State). record u {
                          pending =
                              insert priority
                                (stored_task time (get_task_data_str C l t func_path payload)
                                  (script_max_age max_age))
                                u.pending;
                        })
                        unchanged)))
        ]
      ]

  pub renewed_cases :
      (time : Time) (key task_id : Text) (duration : ℕ) (db : Db)
      → ((score task_id (view db key).zset ≡ none)
          × ((renew_script R time key task_id duration db).0 ≡ db))
        ⊎ ((old : ℤ) × (score task_id (view db key).zset ≡ some old)
            × ((renew_script R time key task_id duration db).0
                ≡ R.zadd key (pos (time.seconds + duration)) task_id db))
  unfolding renew_script
  renewed_cases time key task_id duration db =
      elim (score task_id (view db key).zset)
          as (λ o.
            score task_id (view db key).zset ≡ o
            → ((score task_id (view db key).zset ≡ none)
                × ((elim o as (λ _. Db × Bool) [
                  | some old ↦ (R.zadd key (pos (time.seconds + duration)) task_id db, true)
                  | none ↦ (db, false)
                ]).0
                    ≡ db))
              ⊎ ((old : ℤ) × (score task_id (view db key).zset ≡ some old)
                  × ((elim o as (λ _. Db × Bool) [
                    | some old ↦ (R.zadd key (pos (time.seconds + duration)) task_id db, true)
                    | none ↦ (db, false)
                  ]).0
                      ≡ R.zadd key (pos (time.seconds + duration)) task_id db))) [
                        | none ↦ λ e. inl (e, refl)
                        | some old ↦ λ e. inr (old, e, refl)
                      ]
        refl

  renew-Moves :
      (time : Time) (l : Limiter) (task_id : Text) (duration : ℕ) (db : Db)
      → l.id ≡ id
      → Steps (state R id db) (state R id (extend_lease R loads time l task_id duration db).0)
  unfolding extend_lease state
  renew-Moves time l task_id duration db named =
      let key : key_of l.id concurrency ≡ key_of id concurrency =
        ap (λ i. key_of i concurrency) named in
      elim (renewed_cases time (key_of l.id concurrency) task_id duration db) [
        | inl (_, gone) ↦ none_at_all (ap (state R id) gone)
        | inr (old, held, done) ↦ one (
            renew (pos (time.seconds + duration)) old task_id
              (sym (ap (λ k. score task_id (view db k).zset) key) ∙ held)
              (ap (state R id) done ∙ state-renewed R id _ _ _ db key))
      ]

  exit-Moves :
      (l : Limiter) (task_id : Text) (db : Db)
      → l.id ≡ id
      → Steps (state R id db) (state R id (exit_lifecycle R l task_id db).0)
  unfolding exit_lifecycle release_script
  exit-Moves l task_id db named = elim (Bool-cases (same task_id [])) [
    | inl empty ↦ rw empty here
    | inr task ↦ rw task (
        one (
          release task_id (
            state-unmarked R id _ task_id _ (marker-key l task_id named)
            ∙ state-released R id _ task_id db (ap (λ i. key_of i concurrency) named))))
  ]

  -- Each call, on a limiter of this name and at most this concurrency, whose waiting tasks are all owned,
  -- changes the buffer, the leases and the dead letter queue by moves of the abstract limiter.
  pub perform-Moves :
      (c : Call R C loads) (db : Db)
      → Fits c
      → Each Owned (state R id db).pending
      → Steps (state R id db) (state R id (perform R C loads c db))
  unfolding perform
  perform-Moves (schedules works time l func_path payload priority max_age) db fits owned =
      schedule_task-Moves works time l func_path payload priority max_age db fits
  perform-Moves (consumes time l) db fits owned = consume-Moves time l db fits.0 fits.1 owned
  perform-Moves (renews time l task_id duration) db fits owned =
      renew-Moves time l task_id duration db fits
  perform-Moves (exits l task_id) db fits owned = exit-Moves l task_id db fits
