-- ===== src/System/Chains.antt =====
-- A row of runs of `consume` that each take a task ends.
use redis_rate_limiter.Prelude.{
  ℕ, ◌≤◌, ◌<◌, ◌≡◌, refl, ap, sym, subst, inl, inr, Bool, true, ◌||◌, Option, none, some, List, [],
  ◌∷◌, length, arith, or_else,
}
use redis_rate_limiter.Prelude.Int.{ℤ, pos, negsuc, eqb_ℤ, sub_ℕ}
use redis_rate_limiter.Prelude.Text.{Text, same_refl}
use redis_rate_limiter.Keys.{get_inflight_key}
use redis_rate_limiter.Redis.{Redis}
use redis_rate_limiter.Redis.SortedSet.{ZSet, remove, score, drop_through}
use redis_rate_limiter.Redis.SortedSet.Members.{Each, Each-remove, remove_shorter}
use redis_rate_limiter.Limiter.{Limiter}
use redis_rate_limiter.Limiter.Consume.{ConsumeResult, arguments_of, read_reply, consume}
use redis_rate_limiter.Scripts.Clock.{Time}
use redis_rate_limiter.Scripts.Task.{Task}
use redis_rate_limiter.Scripts.Consume.{Arguments, Reply, consume_script}
use redis_rate_limiter.Scripts.Consume.Steps.{State, state, keys_of}
use redis_rate_limiter.Scripts.Consume.Cases.{Outcome, idle, died, skipped, leased, OwnsHead}
use redis_rate_limiter.Scripts.Consume.Outcomes.{consume_outcome}

-- A result that says that a task left the buffer.
abbrev pub takes : ConsumeResult → Bool
takes r = r.success || (r.expired || r.marker_skipped)

abbrev takes_reply : Reply → Bool
takes_reply r = eqb_ℤ r.status (pos 1) || (eqb_ℤ r.status (negsuc 0) || eqb_ℤ r.status (negsuc 1))

reply_taken :
    (R : Redis) (loads : Text → Task) (o : Option Reply) (r : ConsumeResult)
    → elim o as (λ _. Option ConsumeResult) [ none ↦ none | some x ↦ some (read_reply R loads x) ]
      ≡ some r
    → takes r ≡ true
    → (x : Reply) × (o ≡ some x) × (takes_reply x ≡ true)
unfolding read_reply
reply_taken R loads none r e t = cc
reply_taken R loads (some x) r e t = (
  x,
  refl,
  subst (λ (q : ConsumeResult). takes q ≡ true)
      (sym (ap (λ (o : Option ConsumeResult). or_else o r) e)) t,
)

head-remove_gone :
    (a : ℤ) (raw : Text) (later z : ZSet) → z ≡ (a, raw) ∷ later → length (remove raw z) < length z
unfolding score
head-remove_gone a raw later z e = remove_shorter raw z a (rw (e, same_refl raw) refl)

-- A run whose reply says that it took a task shortens the buffer.
Outcome-shortens :
    {time : Time} {a : Arguments} {decode : Text → Task} {n : ℕ} {s t : State} {o : Option Reply}
    (r : Reply)
    → o ≡ some r
    → takes_reply r ≡ true
    → Outcome time a decode n s t o
    → length t.pending < length s.pending
Outcome-shortens r e h (idle reply same _ _ (inl y) _) = ground arith
Outcome-shortens r e h (idle reply same _ _ (inr (b, _)) _) = ground arith
Outcome-shortens {s = s} r e h (died a raw later _ first _ _ _ _ f) =
    omega
      (arith, head-remove_gone a raw later s.pending first, ap (λ (u : State). length u.pending) f)
Outcome-shortens {s = s} r e h (skipped a raw later _ first _ _ _ _ _ f) =
    omega
      (arith, head-remove_gone a raw later s.pending first, ap (λ (u : State). length u.pending) f)
Outcome-shortens {s = s} r e h (leased a raw later first _ _ _ _ f) =
    omega
      (arith, head-remove_gone a raw later s.pending first, ap (λ (u : State). length u.pending) f)

Outcome-Each :
    {time : Time} {a : Arguments} {decode : Text → Task} {n : ℕ} {s t : State} {o : Option Reply}
    (P : Text → Type 0)
    → Outcome time a decode n s t o
    → Each P s.pending
    → Each P t.pending
Outcome-Each P (idle _ _ _ _ _ f) h = rw f h
Outcome-Each {s = s} P (died _ raw _ _ _ _ _ _ _ f) h = rw f (Each-remove P raw s.pending h)
Outcome-Each {s = s} P (skipped _ raw _ _ _ _ _ _ _ _ f) h = rw f (Each-remove P raw s.pending h)
Outcome-Each {s = s} P (leased _ raw _ _ _ _ _ _ f) h = rw f (Each-remove P raw s.pending h)

module _ (R : Redis) (loads : Text → Task) (l : Limiter) where
  open R use {Db}

  abbrev IsOwned : Text → Type 0
  IsOwned raw = (loads raw).inflight_key ≡ get_inflight_key l.id (loads raw).id

  abbrev TakesAt : Time → Db → Type 0
  TakesAt time db =
      (r : ConsumeResult) × ((consume R loads time l db).1 ≡ some r) × (takes r ≡ true)

  -- Each of these runs takes a task.
  abbrev pub AllTake : List Time → Db → Type 0
  AllTake [] db = Unit {0}
  AllTake (time ∷ times) db = TakesAt time db × AllTake times (consume R loads time l db).0

  head-OwnsHead : (z : ZSet) → Each IsOwned z → OwnsHead l.id loads z
  head-OwnsHead [] h = tt
  head-OwnsHead ((a, m) ∷ z) h = h.0

  outcome :
      (time : Time) (db : Db)
      → Each IsOwned (state R l.id db).pending
      → let s = state R l.id db in
        let live = drop_through (sub_ℕ time.seconds 1) s.leases in
        Outcome time
          (arguments_of l)
          loads
          (length live)
          (record s { leases = live })
          (state R l.id (consume R loads time l db).0)
          (consume_script R loads time (keys_of l.id) (arguments_of l) db).1
  unfolding consume
  outcome time db h =
      consume_outcome R l.id time (arguments_of l) loads db
        (head-OwnsHead (state R l.id db).pending h)

  consume-shortens :
      (time : Time) (db : Db)
      → Each IsOwned (state R l.id db).pending
      → TakesAt time db
      → length (state R l.id (consume R loads time l db).0).pending
        < length (state R l.id db).pending
  unfolding consume
  consume-shortens time db h (r, e, t) =
      let (reply, got, took) =
        reply_taken R loads (consume_script R loads time (keys_of l.id) (arguments_of l) db).1 r e
          t in
      Outcome-shortens reply got took (outcome time db h)

  consume-Each :
      (time : Time) (db : Db)
      → Each IsOwned (state R l.id db).pending
      → Each IsOwned (state R l.id (consume R loads time l db).0).pending
  consume-Each time db h = Outcome-Each IsOwned (outcome time db h) h

  -- Where each waiting task carries the in-flight key that this limiter gives to its name: a row of
  -- consecutive runs of consume that each take a task, to lease it, to discard it as expired or to
  -- skip it as a marker, is no longer than the buffer was.
  pub AllTake-bounded :
      (times : List Time) (db : Db)
      → Each IsOwned (state R l.id db).pending
      → AllTake times db
      → length times ≤ length (state R l.id db).pending
  AllTake-bounded [] db h all = omega arith
  AllTake-bounded (time ∷ times) db h (took, later) = omega (
    arith,
    consume-shortens time db h took,
    AllTake-bounded times (consume R loads time l db).0 (consume-Each time db h) later,
  )
