-- ===== src/Heartbeat/Coverage.antt =====
-- No registered task is forgotten by the heartbeat, unless a renewal raises what is not caught.
use redis_rate_limiter.Prelude.{
  ℕ, suc, ◌+◌, ◌≡◌, ap, ◌≢◌, inl, inr, true, false, Option, none, some, List, [], ◌∷◌, arith,
  Bool-cases,
}
use redis_rate_limiter.Prelude.Text.{Text, same, same→eq}
use redis_rate_limiter.Heartbeat.{Entry, Scheduler, other_error, reschedule, Event, renews}
use redis_rate_limiter.Heartbeat.Turns.{awaits, awaits-heappush, IsCovered}

-- Each named task but one is awaited by the heap.
abbrev pub OthersAwaited : Text → Scheduler → Type 0
OthersAwaited id s =
    (j : Text) (e : Entry)
    → same j [] ≡ false
    → same id j ≡ false
    → s.entries j ≡ some e
    → awaits j e.generation s.heap ≡ true

pub reschedule-IsCovered :
    (interval now : ℕ) (id : Text) (o : Option Entry) (s : Scheduler)
    → s.entries id ≡ o
    → OthersAwaited id s
    → IsCovered (reschedule interval now id o s)
unfolding reschedule
reschedule-IsCovered interval now id none s at others j e n h = elim (Bool-cases (same id j)) [
  | inl q ↦ ground (arith, ap s.entries (same→eq id j q))
  | inr q ↦ ground (arith, others j e n q h)
]
reschedule-IsCovered interval now id (some x) s at others j e n h =
    rw
      (awaits-heappush j e.generation
        (record { due = now + interval; task_id = id; generation = suc x.generation }) s.heap)
      (elim (Bool-cases (same id j)) [
        | inl q ↦ ground arith
        | inr q ↦ ground (arith, others j e n q (rw q at h))
      ])

-- No renewal ends with an exception other than redis.RedisError.
abbrev pub AllCaught : List Event → Type 0
AllCaught [] = Unit {0}
AllCaught (renews now outcome ∷ events) = (outcome ≢ other_error) × AllCaught events
AllCaught (_ ∷ events) = AllCaught events
