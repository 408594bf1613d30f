-- ===== src/Async/Schedule/Holding.antt =====
-- Which call of schedule_task holds the marker of its task.
use redis_rate_limiter.Prelude.{
  ℕ, suc, ◌+◌, ◌≤◌, leb, not, ◌&&◌, if◌then◌else◌, ◌≡◌, refl, ◌∙◌, sym, subst, Bool, true, false,
  Option, Bool-cases, inl, inr, arith,
}
use redis_rate_limiter.Prelude.Int.{ℤ}
use redis_rate_limiter.Prelude.Text.{Text, codes, same_refl}
use redis_rate_limiter.Keys.{same-key_of, get_inflight_key, get_inflight_key-eq}
use redis_rate_limiter.Redis.{Redis, is_absent}
use redis_rate_limiter.Limiter.{Limiter, get_inflight_ttl}
use redis_rate_limiter.Limiter.Schedule.{Codec, Event, Scheduled, returned, raised, task_id_of}
use redis_rate_limiter.Limiter.Schedule.Deduplication.{or_set-is_absent}
use redis_rate_limiter.Scripts.Clock.{Time, now_ms}
use redis_rate_limiter.Scripts.Lease.{schedule_script}
use redis_rate_limiter.Async.{Co, done, step, resume}
use redis_rate_limiter.Async.Schedule.{
  Shared, schedule_task_async, after_claim, enqueue, announce, give_up, run_schedule, command, tell,
  cleanup_inflight_key, trigger_consume_async,
}

-- What a call may differ in.
pub record Attempt : Type 0 where
  -- the limiter object of its process, whose name is replaced by the one that they share
  pub limiter : Limiter
  pub works : Bool
  pub claim_time : Time
  pub script_time : Time
  pub priority : ℤ
  pub max_age : Option ℕ

-- 1 for a call that scheduled the task.
abbrev pub wins : Scheduled → ℕ
wins (returned true task_id) = 1
wins (returned false task_id) = 0
wins raised = 0

abbrev pub wins_of : {S : Type 0} → Co S Scheduled → ℕ
wins_of (done r) = wins r
wins_of (step f k) = 0

module _ (R : Redis) (C : Codec) (id : Text) (func_path : Text) (payload : C.Payload) where
  open R use {Db, view}

  abbrev pub Call : Type 0
  Call = Co (Shared R) Scheduled

  abbrev limiter_of : Attempt → Limiter
  limiter_of a = record a.limiter { id = id }

  abbrev pub start : Attempt → Call
  start a =
      schedule_task_async R C (limiter_of a) func_path payload a.works a.claim_time a.script_time
        a.priority a.max_age

  abbrev pub marker : Text
  marker = get_inflight_key id (task_id_of C func_path payload)

  abbrev IsMarked : Shared R → Type 0
  IsMarked s = is_absent (view s.db marker) ≡ false

  -- Where a call is, and whether it holds the marker (1) or not (0).
  pub data Holds : Call → ℕ → Type 0 where
    starting : {c : Call} {n : ℕ} (a : Attempt) → c ≡ start a → n ≡ 0 → Holds c n
    queueing :
        {c : Call} {n : ℕ} (a : Attempt)
        → c
          ≡ enqueue R C
              (limiter_of a)
              func_path
              payload
              a.works
              a.claim_time
              a.script_time
              a.priority
              a.max_age
        → n ≡ 1
        → Holds c n
    giving_up :
        {c : Call} {n : ℕ} (a : Attempt)
        → c ≡ give_up R C (limiter_of a) func_path payload
        → n ≡ 1
        → Holds c n
    telling :
        {c : Call} {n : ℕ} (e : Event) (next : Call) → Holds next n → c ≡ tell e next → Holds c n
    ended : {c : Call} {n : ℕ} (r : Scheduled) → c ≡ done r → n ≡ wins r → Holds c n

  announce-Holds : (a : Attempt) → Holds (announce R C (limiter_of a) func_path payload) 1
  unfolding announce trigger_consume_async
  announce-Holds a = telling _ _ (telling _ _ (telling _ _ (ended _ refl refl) refl) refl) refl

  -- At most one call more than `k` holds the marker, and if as many do, it is there.
  abbrev pub IsExclusive : ℕ → ℕ → Shared R → Type 0
  IsExclusive k n s = (n ≤ suc k) × (suc k ≤ n → IsMarked s)

  -- With `m` held elsewhere.
  abbrev pub Goes : ℕ → ℕ → Shared R → Call → Type 0
  Goes k m t d = (n : ℕ) × Holds d n × IsExclusive k (n + m) t

  alone : (k m : ℕ) → m ≤ suc k → (suc k ≤ m → false ≡ true) → 1 + m ≤ suc k
  alone k m h f = elim (Bool-cases (leb (suc k) m)) [
    | inl e ↦ cc (f (ground arith))
    | inr e ↦ ground arith
  ]

  fewer : (k n : ℕ) → n ≤ suc k → (suc k ≤ n → false ≡ true) → n ≤ k
  fewer k n h f = omega (arith, alone k n h f)

  -- The server's time goes on, and the marker may be gone: 1 if it was there and is no more.
  abbrev pub passed : ℕ → Shared R → Shared R
  passed now s = record s { db = R.pass now s.db }

  abbrev pub lapsed : ℕ → Shared R → ℕ
  lapsed now s =
      if not (is_absent (view s.db marker)) && is_absent (view (R.pass now s.db) marker)
      then 1
      else 0

  pub passed-IsExclusive :
      (now k n : ℕ) (s : Shared R)
      → IsExclusive k n s
      → IsExclusive (k + lapsed now s) n (passed now s)
  passed-IsExclusive now k n s (few, marked) = elim (Bool-cases (is_absent (view s.db marker))) [
    | inl gone ↦
        let less : n ≤ k = fewer k n few (λ some. sym (marked some) ∙ gone) in
        rw gone (omega (arith, less), λ some. absurd (omega (arith, less, some)))
    | inr there ↦ elim (Bool-cases (is_absent (view (R.pass now s.db) marker))) [
      | inl over ↦ rw (there, over) (omega (arith, few), λ some. absurd (omega (arith, few, some)))
      | inr still ↦ rw (there, still) (omega (arith, few), λ some. refl)
    ]
  ]

  claim-IsMarked :
      (t : Time) (ttl : ℕ) (s : Shared R)
      → is_absent (view (R.set_nx marker (codes "1") ttl (now_ms t) s.db).0 marker) ≡ false
  claim-IsMarked t ttl s = rw (R.view-set_nx, same_refl) (or_set-is_absent (view s.db marker) _ _)

  claim-Goes :
      (a : Attempt) (k m : ℕ) (s : Shared R)
      → IsExclusive k (0 + m) s
      → Goes k m (resume (start a) s).0 (resume (start a) s).1
  unfolding resume schedule_task_async command after_claim
  claim-Goes a k m s x =
      let ttl = get_inflight_ttl (limiter_of a) a.max_age in
      let attempt = R.set_nx marker (codes "1") ttl (now_ms a.claim_time) s.db in
      let marked = claim-IsMarked a.claim_time ttl s in
      elim attempt.1
          as (λ fresh.
            attempt.1 ≡ fresh
            → Goes k m (record s { db = attempt.0 })
                (after_claim R C (limiter_of a) func_path payload a.works a.claim_time a.script_time
                  a.priority a.max_age fresh)) [
                    | false ↦
                        λ taken. (0, telling _ _ (ended _ refl refl) refl, (x.0, λ some. marked))
                    | true ↦ λ fresh. (
                      1,
                      queueing a refl refl,
                      (
                        alone k m (omega (arith, x.0)) (λ held.
                            sym (x.1 (omega (arith, held)))
                            ∙ sym (R.set_nx_done marker (codes "1") ttl (now_ms a.claim_time) s.db)
                            ∙ fresh),
                        λ some. marked,
                      ),
                    )
                  ]
        refl

  enqueue-IsMarked :
      (a : Attempt) (s : Shared R)
      → IsMarked s
      → is_absent (
          view
            (run_schedule R C
              (limiter_of a)
              func_path
              payload
              a.works
              a.claim_time
              a.script_time
              a.priority
              a.max_age
              s.db)
            marker)
        ≡ false
  unfolding run_schedule schedule_script
  enqueue-IsMarked a s h = elim (Bool-cases a.works) [
    | inl fine ↦
        rw fine (rw (R.view-zadd, get_inflight_key-eq, same-key_of) (rw get_inflight_key-eq at h))
    | inr broken ↦ rw broken h
  ]

  queue-Goes :
      (a : Attempt) (k m : ℕ) (s : Shared R)
      → IsExclusive k (1 + m) s
      → let c =
          enqueue R C
            (limiter_of a)
            func_path
            payload
            a.works
            a.claim_time
            a.script_time
            a.priority
            a.max_age in
        Goes k m (resume c s).0 (resume c s).1
  unfolding resume enqueue command
  queue-Goes a k m s x =
      let after : is_absent (view s.db marker) ≡ false → _ = enqueue-IsMarked a s in
      elim (Bool-cases a.works) [
        | inl fine ↦ (1, rw fine (announce-Holds a), (x.0, λ some. after (x.1 some)))
        | inr broken ↦ (1, rw broken (giving_up a refl refl), (x.0, λ some. after (x.1 some)))
      ]

  pub resume-Goes :
      (c : Call) (k n m : ℕ) (s : Shared R)
      → Holds c n
      → IsExclusive k (n + m) s
      → Goes k m (resume c s).0 (resume c s).1
  unfolding resume give_up cleanup_inflight_key command tell
  resume-Goes c k n m s (starting a e z) x =
      rw e (claim-Goes a k m s (subst (λ j. IsExclusive k (j + m) s) z x))
  resume-Goes c k n m s (queueing a e z) x =
      rw e (queue-Goes a k m s (subst (λ j. IsExclusive k (j + m) s) z x))
  resume-Goes c k n m s (giving_up a e z) x = rw e (
    0,
    ended raised refl refl,
    (omega (arith, z, x.0), λ some. absurd (omega (arith, z, x.0, some))),
  )
  resume-Goes c k n m s (telling e next h q) x = rw q (n, h, x)
  resume-Goes c k n m s (ended r e z) x = rw e (n, ended r refl z, x)
