-- ===== src/System/Specification.antt =====
-- What each call may do to the buffer, the leases and the dead letter queue, and no more.
use redis_rate_limiter.Prelude.{
  ◌+◌, ℕ, ◌<◌, ◌≡◌, refl, sym, ap, ◌∙◌, subst, Bool, true, false, Option, none, some, List, [], ◌∷◌,
  ◌++◌, ◌&&◌, length, Bool-cases, inl, inr, ◌⊎◌, if◌then◌else◌,
}
use redis_rate_limiter.Prelude.Int.{ℤ, pos, sub_ℕ}
use redis_rate_limiter.Prelude.Text.{Text, codes, same}
use redis_rate_limiter.Keys.{buffer, concurrency, key_of, get_inflight_key}
use redis_rate_limiter.Redis.{Redis}
use redis_rate_limiter.Redis.SortedSet.{ZSet, insert, remove, drop_through, score}
use redis_rate_limiter.Redis.SortedSet.Members.{Each}
use redis_rate_limiter.Limiter.{Limiter, get_inflight_ttl}
use redis_rate_limiter.Limiter.Consume.{consume, extend_lease, arguments_of}
use redis_rate_limiter.Limiter.Schedule.{
  Codec, schedule_task, exit_lifecycle, get_task_data_str, task_id_of, script_max_age,
}
use redis_rate_limiter.Scripts.Clock.{Time, now_ms}
use redis_rate_limiter.Scripts.Task.{Task, is_marker}
use redis_rate_limiter.Scripts.Lease.{schedule_script, stored_task, release_script}
use redis_rate_limiter.Scripts.Consume.{Reply, consume_script, is_expired, past_deadline}
use redis_rate_limiter.Scripts.Consume.Steps.{State, keys_of, state}
use redis_rate_limiter.Scripts.Consume.Cases.{Outcome, idle, died, skipped, leased}
use redis_rate_limiter.Scripts.Consume.Outcomes.{consume_outcome}
use redis_rate_limiter.System.{Call, schedules, consumes, renews, exits, perform, run}
use redis_rate_limiter.System.Commands.{
  state-set_nx, state-unmarked, state-queued, state-renewed, state-released,
}
use redis_rate_limiter.System.Refinement.{Owned, Fits, head-owned, marker-key, renewed_cases}
use redis_rate_limiter.System.Safety.{IsSafe, AllFit, perform-IsSafe}

-- What becomes of the first task of the buffer, once the leases that have ended are gone.
abbrev pub Served : (loads : Text → Task) → Time → Limiter → Text → State → State → Type 0
Served loads time l raw s t =
    let rest = record s { pending = remove raw s.pending } in
    -- too old: to the dead letter queue, if it is no acquire marker
    ((is_expired time (arguments_of l) (loads raw) ≡ true)
      × (t ≡ record rest { dead = (if is_marker (loads raw) then s.dead else s.dead ++ raw ∷ []) }))
    -- an acquire marker whose caller has given up: nothing more
    ⊎ ((is_marker (loads raw) ≡ true) × (past_deadline time (loads raw) ≡ true) × (t ≡ rest))
    -- a lease of its own, if one is free
    ⊎ ((is_expired time (arguments_of l) (loads raw) ≡ false)
        × ((is_marker (loads raw) && past_deadline time (loads raw)) ≡ false)
        × (length s.leases < l.max_concurrency)
        × (t ≡ record rest {
          leases = insert (pos (time.seconds + l.lease_duration)) (loads raw).id s.leases;
        }))

module _ (R : Redis) (C : Codec) (loads : Text → Task) (id : Text) where
  open R use {Db, view}

  abbrev stored : Time → Limiter → Text → C.Payload → Option ℕ → Text
  stored time l func_path payload max_age =
      stored_task time (get_task_data_str C l (task_id_of C func_path payload) func_path payload)
        (script_max_age max_age)

  -- The abstract limiter: what a call may do.
  abbrev pub Does : Call R C loads → State → State → Type 0
  Does (schedules works time l func_path payload priority max_age) s t =
      (t ≡ s)
      ⊎ ((works ≡ true)
          × (t ≡ record s {
            pending = insert priority (stored time l func_path payload max_age) s.pending;
          }))
  Does (consumes time l) s t =
      let live = record s { leases = drop_through (sub_ℕ time.seconds 1) s.leases } in
      (t ≡ live)
      ⊎ ((a : ℤ) × (raw : Text) × (later : ZSet) × (s.pending ≡ (a, raw) ∷ later)
          × Served loads time l raw live t)
  Does (renews time l task_id duration) s t =
      ((score task_id s.leases ≡ none) × (t ≡ s))
      ⊎ ((old : ℤ) × (score task_id s.leases ≡ some old)
          × (t ≡ record s { leases = insert (pos (time.seconds + duration)) task_id s.leases }))
  Does (exits l task_id) s t =
      if same task_id [] then t ≡ s else t ≡ record s { leases = remove task_id s.leases }

  -- One call after another.
  abbrev pub DoAll : List (Call R C loads) → State → State → Type 0
  DoAll [] s t = t ≡ s
  DoAll (c ∷ calls) s u = (t : State) × Does c s t × DoAll calls t u

  Outcome-Does :
      {time : Time} (l : Limiter) (s : State) {t : State} {o : Option Reply}
      → let live = record s { leases = drop_through (sub_ℕ time.seconds 1) s.leases } in
        Outcome time (arguments_of l) loads (length live.leases) live t o
        → Does (consumes time l) s t
  Outcome-Does l s (idle _ _ _ _ _ e) = inl e
  Outcome-Does l s (died a raw later _ first old _ _ _ e) = inr (a, raw, later, first, inl (old, e))
  Outcome-Does l s (skipped a raw later _ first m past _ _ _ e) =
      inr (a, raw, later, first, inr (inl (m, past, e)))
  Outcome-Does l s (leased a raw later first fresh on room _ e) =
      inr (a, raw, later, first, inr (inr (fresh, on, room, e)))

  consume-Does :
      (n : ℕ) (time : Time) (l : Limiter) (db : Db)
      → l.id ≡ id
      → Each (Owned R C loads id n) (state R id db).pending
      → Does (consumes time l) (state R id db) (state R id (consume R loads time l db).0)
  unfolding consume
  consume-Does n time l db named owned = Outcome-Does l (state R id db) (
      subst
        (λ key.
          Outcome time (arguments_of l) loads
            (length (drop_through (sub_ℕ time.seconds 1) (state R id db).leases))
            (record (state R id db) {
              leases = drop_through (sub_ℕ time.seconds 1) (state R id db).leases;
            })
            (state R id (consume_script R loads time (keys_of key) (arguments_of l) db).0)
            (consume_script R loads time (keys_of key) (arguments_of l) db).1)
        (sym named)
        (consume_outcome R id time (arguments_of l) loads db
          (head-owned R C loads id n (state R id db).pending owned)))

  schedule_task-Does :
      (works : Bool) (time : Time) (l : Limiter) (func_path : Text) (payload : C.Payload)
      (priority : ℤ) (max_age : Option ℕ) (db : Db)
      → l.id ≡ id
      → Does
          (schedules works time l func_path payload priority max_age)
          (state R id db)
          (state R id (schedule_task R C works time l func_path payload priority max_age db).0)
  unfolding schedule_task schedule_script
  schedule_task-Does works time l func_path payload priority max_age db named =
      let t = task_id_of C func_path payload in
      let key = get_inflight_key l.id t in
      let attempt = R.set_nx key (codes "1") (get_inflight_ttl l max_age) (now_ms time) db in
      let unchanged : state R id attempt.0 ≡ state R id db =
        state-set_nx R id key t _ _ _ db (marker-key R C loads id 0 l t named) in
      elim (Bool-cases attempt.1) [
        | inr taken ↦ rw taken (inl unchanged)
        | inl fresh ↦ elim (Bool-cases works) [
          | inr broken ↦
              rw (fresh, broken)
                (inl (
                  state-unmarked R id key t attempt.0 (marker-key R C loads id 0 l t named)
                  ∙ unchanged))
          | inl fine ↦
              rw (fresh, fine)
                (inr (
                  refl,
                  state-queued R id _ _ _ attempt.0 (ap (λ i. key_of i buffer) named)
                      ∙ ap
                          (λ (u : State). record u {
                            pending =
                                insert priority (stored time l func_path payload max_age) u.pending;
                          })
                          unchanged,
                ))
        ]
      ]

  renew-Does :
      (time : Time) (l : Limiter) (task_id : Text) (duration : ℕ) (db : Db)
      → l.id ≡ id
      → Does
          (renews time l task_id duration)
          (state R id db)
          (state R id (extend_lease R loads time l task_id duration db).0)
  unfolding extend_lease state
  renew-Does time l task_id duration db named =
      let key : key_of l.id concurrency ≡ key_of id concurrency =
        ap (λ i. key_of i concurrency) named in
      let there = sym (ap (λ k. score task_id (view db k).zset) key) in
      elim (renewed_cases R C loads id 0 time (key_of l.id concurrency) task_id duration db) [
        | inl (no_lease, gone) ↦ inl (there ∙ no_lease, ap (state R id) gone)
        | inr (old, held, done) ↦
            inr (old, there ∙ held, ap (state R id) done ∙ state-renewed R id _ _ _ db key)
      ]

  exit-Does :
      (l : Limiter) (task_id : Text) (db : Db)
      → l.id ≡ id
      → Does (exits l task_id) (state R id db) (state R id (exit_lifecycle R l task_id db).0)
  unfolding exit_lifecycle release_script
  exit-Does l task_id db named = elim (Bool-cases (same task_id [])) [
    | inl empty ↦ rw empty refl
    | inr task ↦ rw task (
        state-unmarked R id _ task_id _ (marker-key R C loads id 0 l task_id named)
        ∙ state-released R id _ task_id db (ap (λ i. key_of i concurrency) named))
  ]

  perform-Does :
      (n : ℕ) (c : Call R C loads) (db : Db)
      → Fits R C loads id n c
      → Each (Owned R C loads id n) (state R id db).pending
      → Does c (state R id db) (state R id (perform R C loads c db))
  unfolding perform
  perform-Does n (schedules works time l func_path payload priority max_age) db fits owned =
      schedule_task-Does works time l func_path payload priority max_age db fits.0
  perform-Does n (consumes time l) db fits owned = consume-Does n time l db fits.0 owned
  perform-Does n (renews time l task_id duration) db fits owned =
      renew-Does time l task_id duration db fits
  perform-Does n (exits l task_id) db fits owned = exit-Does l task_id db fits

  -- Any calls of any processes on this limiter, in any order, each at most at this concurrency and
  -- storing tasks that read back as owned, refine the abstract limiter from a safe state. One after
  -- another: schedule_task changes nothing, or stores its own task at its priority, if its script
  -- works; consume removes the leases that have ended, and then nothing more or the first task,
  -- which goes to the dead letter queue if it is too old, is dropped if it is an acquire marker
  -- that is too old or past its deadline, or gets a lease of its own if one is free; extend_lease
  -- sets the end of a lease that is there, and changes nothing where there is none; and the end of
  -- a lifecycle takes the lease of its task away.
  pub run-DoAll :
      (n : ℕ) (calls : List (Call R C loads)) (db : Db)
      → AllFit R C loads id n calls
      → IsSafe n (Owned R C loads id n) (state R id db)
      → DoAll calls (state R id db) (state R id (run R C loads calls db))
  unfolding run
  run-DoAll n [] db fits h = refl
  run-DoAll n (c ∷ calls) db fits h = (
    state R id (perform R C loads c db),
    perform-Does n c db fits.0 h.owned,
    run-DoAll n calls (perform R C loads c db) fits.1 (perform-IsSafe R C loads id n c db fits.0 h),
  )
