-- ===== src/Async/Heartbeat/Coverage.antt =====
-- No registered task is forgotten by the asynchronous heartbeat, unless a renewal raises what is not
-- caught.
use redis_rate_limiter.Prelude.{
  ℕ, ◌≡◌, refl, ap, ◌∙◌, sym, subst, ◌≢◌, Bool, ◌||◌, or_else, inl, inr, true, false, Option, none,
  some, List, [], ◌∷◌, arith, Bool-cases, if◌then◌else◌,
}
use redis_rate_limiter.Prelude.Text.{Text, same, same→eq}
use redis_rate_limiter.Heartbeat.{
  Action, Entry, Thread, stopped, looping, renewing, Scheduler, put, set_health, Renewal, renewed,
  redis_error, other_error, renew_one,
}
use redis_rate_limiter.Heartbeat.Turns.{awaits, is_renewing, IsCovered, turn-IsCovered}
use redis_rate_limiter.Heartbeat.Registrations.{register-IsCovered, deregister-IsCovered}
use redis_rate_limiter.Heartbeat.Coverage.{reschedule-IsCovered}
use redis_rate_limiter.Async.Heartbeat.{
  AsyncScheduler, at_rest, is_head_due, peek, pop, settle_renewal, schedule_next, run_on,
  HeartbeatEvent, enters, leaves, closes, runs_on, occur, occur_all,
}

set_health-some :
    (healthy : Bool) (o : Option Entry) (e : Entry)
    → set_health healthy o ≡ some e
    → (d : Entry) × (o ≡ some d) × (d.generation ≡ e.generation)
unfolding set_health
set_health-some healthy none e h = cc
set_health-some healthy (some d) e h =
    (d, refl, ap (λ (q : Option Entry). (or_else q d).generation) h)

healthy-IsCovered :
    (healthy : Bool) (id : Text) (s : Scheduler)
    → IsCovered s
    → IsCovered (record s { entries = put id (set_health healthy (s.entries id)) s.entries })
healthy-IsCovered healthy id s c j e n h = elim (Bool-cases (same id j)) [
  | inl q ↦
      let (d, there, g) = set_health-some healthy (s.entries id) e (rw q at h) in
      subst (λ k. (awaits j k s.heap || is_renewing j s.thread) ≡ true) g
        (c j d n (sym (ap s.entries (same→eq id j q)) ∙ there))
  | inr q ↦ c j e n (rw q at h)
]

renew_one-IsCovered :
    (id : Text) (action : Action) (outcome : Renewal) (s : Scheduler)
    → IsCovered s
    → IsCovered (renew_one id action outcome s)
unfolding renew_one
renew_one-IsCovered id action renewed s c = healthy-IsCovered true id s c
renew_one-IsCovered id action redis_error s c = healthy-IsCovered false id s c
renew_one-IsCovered id action other_error s c = c

settle-IsCovered :
    (id : Text) (action : Action) (outcome : Renewal) (s : AsyncScheduler)
    → outcome ≢ other_error
    → IsCovered s.core
    → IsCovered (settle_renewal id action outcome s).core
unfolding settle_renewal
settle-IsCovered id action renewed s ok c = renew_one-IsCovered id action renewed s.core c
settle-IsCovered id action redis_error s ok c = renew_one-IsCovered id action redis_error s.core c
settle-IsCovered id action other_error s ok c = absurd (ok refl)

schedule_next-IsCovered :
    (interval now : ℕ) (id : Text) (action : Action) (s : AsyncScheduler)
    → s.core.thread ≡ renewing id action
    → IsCovered s.core
    → IsCovered (schedule_next interval now id s).core
unfolding schedule_next
schedule_next-IsCovered interval now id action s t c =
    reschedule-IsCovered interval now id (s.core.entries id) s.core refl
      (λ j e n q h. ground (arith, c j e n h))

peek-IsCovered :
    (now : ℕ) (s : AsyncScheduler)
    → s.core.thread ≡ looping
    → IsCovered s.core
    → IsCovered (peek now s).core
unfolding peek
peek-IsCovered now s t c =
    elim s.core.shutdown
      as (λ b.
        IsCovered
          (if b
            then record s { core = record s.core { thread = stopped } }
            else record s { due = is_head_due now s.core.heap }).core) [
              | true ↦ λ j e n h. ground (arith, c j e n h)
              | false ↦ c
            ]

run_on-IsCovered :
    (interval now : ℕ) (outcome : Renewal) (thread : Thread) (s : AsyncScheduler)
    → s.core.thread ≡ thread
    → outcome ≢ other_error
    → IsCovered s.core
    → IsCovered (run_on interval now outcome thread s).core
unfolding run_on pop
run_on-IsCovered interval now outcome stopped s t ok c = c
run_on-IsCovered interval now outcome looping s t ok c =
    elim s.due as (λ b. IsCovered (if b then pop now s else peek now s).core) [
      | true ↦ turn-IsCovered now s.core t c
      | false ↦ peek-IsCovered now s t c
    ]
run_on-IsCovered interval now outcome (renewing id action) s t ok c =
    elim s.settled
      as (λ b.
        IsCovered
          (if b
            then schedule_next interval now id s
            else settle_renewal id action outcome s).core) [
              | true ↦ schedule_next-IsCovered interval now id action s t c
              | false ↦ settle-IsCovered id action outcome s ok c
            ]

-- The renewal that this event may end does not raise an exception other than redis.RedisError.
abbrev pub IsCaught : HeartbeatEvent → Type 0
IsCaught (runs_on now outcome) = outcome ≢ other_error
IsCaught (enters now id action) = Unit {0}
IsCaught (leaves id) = Unit {0}
IsCaught closes = Unit {0}

abbrev pub AllCaught : List HeartbeatEvent → Type 0
AllCaught [] = Unit {0}
AllCaught (e ∷ events) = IsCaught e × AllCaught events

occur-IsCovered :
    (interval : ℕ) (e : HeartbeatEvent) (s : AsyncScheduler)
    → IsCaught e
    → IsCovered s.core
    → IsCovered (occur interval e s).core
unfolding occur
occur-IsCovered interval (enters now id action) s k c =
    register-IsCovered interval now id action s.core c
occur-IsCovered interval (leaves id) s k c = deregister-IsCovered id s.core c
occur-IsCovered interval closes s k c = c
occur-IsCovered interval (runs_on now outcome) s k c =
    run_on-IsCovered interval now outcome s.core.thread s refl k c

occur_all_covers :
    (interval : ℕ) (events : List HeartbeatEvent) (s : AsyncScheduler)
    → AllCaught events
    → IsCovered s.core
    → IsCovered (occur_all interval events s).core
unfolding occur_all
occur_all_covers interval [] s k c = c
occur_all_covers interval (e ∷ events) s k c =
    occur_all_covers interval events (occur interval e s) k.1 (occur-IsCovered interval e s k.0 c)

-- From the start of the asynchronous heartbeat, in any order of registrations, deregistrations and
-- steps of its task, in which no renewal ends with an exception other than redis.RedisError: each
-- registered task with a name has a tuple of its current generation in the heap, or is being renewed,
-- also where the heap or the entry changes between two locked parts of a turn or of a renewal.
pub occur_all-IsCovered :
    (interval : ℕ) (events : List HeartbeatEvent)
    → AllCaught events
    → IsCovered (occur_all interval events at_rest).core
occur_all-IsCovered interval events k =
    occur_all_covers interval events at_rest k (λ id e n h. ground arith)
