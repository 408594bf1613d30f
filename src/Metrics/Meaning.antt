-- ===== src/Metrics/Meaning.antt =====
-- What the outcomes that the exporter counts say of the buffer and the leases.
use redis_rate_limiter.Prelude.{
  ℕ, ◌+◌, ◌≤◌, ◌<◌, ◌≡◌, refl, sym, ap, subst, ◌∙◌, ◌⊎◌, inl, inr, Bool, true, false, Option, some,
  [], ◌∷◌, arith, length, suc, if◌then◌else◌, ◌==◌,
}
use redis_rate_limiter.Prelude.Int.{ℤ, pos}
use redis_rate_limiter.Prelude.Text.{Text}
use redis_rate_limiter.Redis.{Redis}
use redis_rate_limiter.Redis.SortedSet.{ZSet, remove, insert}
use redis_rate_limiter.Limiter.{Limiter}
use redis_rate_limiter.Limiter.Consume.{ConsumeResult, read_reply, arguments_of}
use redis_rate_limiter.Scripts.Clock.{Time}
use redis_rate_limiter.Scripts.Task.{Task}
use redis_rate_limiter.Scripts.Consume
use redis_rate_limiter.Scripts.Consume.{
  Keys, Reply, Arguments, consume_script, yields, reclaim_leases,
}
use redis_rate_limiter.Scripts.Consume.Steps.{State}
use redis_rate_limiter.Scripts.Consume.Cases.{Outcome, idle, died, skipped, leased}
use redis_rate_limiter.Metrics.{Label, dispatched, rejected, expired, empty, outcome_of, metric_of}

-- The first task of the buffer.
abbrev pub IsHead : Text → State → Type 0
IsHead raw s = (score : ℤ) × (later : ZSet) × (s.pending ≡ (score, raw) ∷ later)

-- The first task has left the buffer.
abbrev pub HeadTaken : State → State → Type 0
HeadTaken s t = (raw : Text) × IsHead raw s × (t.pending ≡ remove raw s.pending)

-- What a label says of a run from `s`, in which `active` leases are live, to `t`. A lease ends at `until`.
abbrev pub Means : Label → (Text → Task) → ℤ → ℕ → ℕ → State → State → ConsumeResult → Type 0
Means dispatched loads until limit active s t r =
    (raw : Text) × IsHead raw s
    × (r.task ≡ some (loads raw))
    × (t ≡ record s {
      pending = remove raw s.pending;
      leases = insert until (loads raw).id s.leases;
    })
    × (active < limit)
    × (r.active_concurrency ≡ active + 1)
    × (r.remaining_tasks + 1 ≡ length s.pending)
Means expired loads until limit active s t r =
    HeadTaken s t × (t.leases ≡ s.leases) × (r.remaining_tasks + 1 ≡ length s.pending)
Means rejected loads until limit active s t r =
    ((r.marker_skipped ≡ true) × HeadTaken s t × (t.leases ≡ s.leases))
    ⊎ ((t ≡ s)
        × (r.remaining_tasks ≡ length s.pending)
        × ((limit ≤ active) ⊎ (r.remaining_tokens ≡ pos 0)))
Means empty loads until limit active s t r =
    ((r.marker_skipped ≡ true) × HeadTaken s t × (t.leases ≡ s.leases))
    ⊎ ((t ≡ s) × ((r.yielded ≡ true) ⊎ (s.pending ≡ [])))

suc_eqb-zero : (n : ℕ) → (suc n == 0) ≡ false
suc_eqb-zero n = ground arith

module _ (R : Redis) (loads : Text → Task) where
  abbrev label_of : Reply → Label
  label_of r = outcome_of (metric_of (read_reply R loads r))

  pub label_yielded :
      (r : Reply) → r.status ≡ Consume.yielded → r.buffer_count ≡ 0 → label_of r ≡ empty
  unfolding read_reply outcome_of metric_of
  label_yielded r status count = rw (status, count) refl

  label_idle :
      (r : Reply)
      → r.status ≡ Consume.blocked ⊎ r.status ≡ Consume.marker_skipped
      → (n : ℕ) → r.buffer_count ≡ n
      → label_of r ≡ (if n == 0 then empty else rejected)
  unfolding read_reply outcome_of metric_of
  label_idle r (inl status) n count = rw (status, count) refl
  label_idle r (inr status) n count = rw (status, count) refl

  label_expired : (r : Reply) → r.status ≡ Consume.expired → label_of r ≡ expired
  unfolding read_reply outcome_of metric_of
  label_expired r status = rw status refl

  label_dispatched : (r : Reply) → r.status ≡ Consume.admitted → label_of r ≡ dispatched
  unfolding read_reply outcome_of metric_of
  label_dispatched r status = rw status refl

  module _ (l : Limiter) (time : Time) where
    abbrev lease_end : ℤ
    lease_end = pos (time.seconds + l.lease_duration)

    -- What is meant, when nothing was taken.
    idle_Means :
        (z : ZSet) (active : ℕ) (s t : State) (r : Reply)
        → s.pending ≡ z
        → r.status ≡ Consume.blocked
        → r.buffer_count ≡ length z
        → t ≡ s
        → (z ≡ []) ⊎ (l.max_concurrency ≤ active) ⊎ (r.remaining ≡ pos 0)
        → Means (label_of r) loads lease_end l.max_concurrency active s t (read_reply R loads r)
    unfolding read_reply
    idle_Means [] active s t r at status count f why =
        rw (label_idle r (inl status) 0 count) (inr (f, inr at))
    idle_Means (first ∷ later) active s t r at status count f (inl none_left) = ground arith
    idle_Means (first ∷ later) active s t r at status count f (inr why) =
        let n : r.buffer_count ≡ suc (length later) = omega (arith, count) in
        rw (label_idle r (inl status) (suc (length later)) n, suc_eqb-zero (length later))
          (inr (f, count ∙ ap length (sym at), why))

    skipped_Means :
        (active : ℕ) (s t : State) (r : Reply) (u : Bool)
        → (r.buffer_count == 0) ≡ u
        → r.status ≡ Consume.marker_skipped
        → HeadTaken s t × (t.leases ≡ s.leases)
        → Means (label_of r) loads lease_end l.max_concurrency active s t (read_reply R loads r)
    unfolding read_reply
    skipped_Means active s t r true e status taken =
        rw (label_idle r (inr status) r.buffer_count refl, e)
          (inl (rw status refl, taken.0, taken.1))
    skipped_Means active s t r false e status taken =
        rw (label_idle r (inr status) r.buffer_count refl, e)
          (inl (rw status refl, taken.0, taken.1))

    same_why :
        (z : ZSet) (active : ℕ) (r q : Reply)
        → q ≡ r
        → (z ≡ []) ⊎ (l.max_concurrency ≤ active) ⊎ (q.remaining ≡ pos 0)
        → (z ≡ []) ⊎ (l.max_concurrency ≤ active) ⊎ (r.remaining ≡ pos 0)
    same_why z active r q p why =
        subst (λ (u : Reply). (z ≡ []) ⊎ (l.max_concurrency ≤ active) ⊎ (u.remaining ≡ pos 0)) p why

    pub outcome_Means :
        {active : ℕ} {s t : State} {o : Option Reply} (r : Reply)
        → o ≡ some r
        → Outcome time (arguments_of l) loads active s t o
        → Means (label_of r) loads lease_end l.max_concurrency active s t (read_reply R loads r)
    unfolding read_reply
    outcome_Means r e (idle reply same no_task act (inl (y, z)) f) =
        let y' : r.status ≡ Consume.yielded = cc in
        let z' : r.buffer_count ≡ 0 = cc in rw (label_yielded r y' z') (inr (f, inl (rw y' refl)))
    outcome_Means {s = s} r e (idle reply same no_task act (inr (b, (count, why))) f) =
        let p : reply ≡ r = cc in
        idle_Means s.pending _ s _ r refl (ap (λ (u : Reply). u.status) (sym p) ∙ b)
          (ap (λ (u : Reply). u.buffer_count) (sym p) ∙ count) f
          (same_why s.pending _ r reply p why)
    outcome_Means r e (died score raw later reply h _ same (_, _, left) status f) =
        let y : r.status ≡ Consume.expired = cc in
        let n : r.buffer_count ≡ reply.buffer_count = cc in
        rw (label_expired r y) (
          (raw, (score, later, h), ap (λ (u : State). u.pending) f),
          ap (λ (u : State). u.leases) f,
          omega (arith, n, left),
        )
    outcome_Means r e (skipped score raw later reply h _ _ same no_task status f) =
        let y : r.status ≡ Consume.marker_skipped = cc in
        skipped_Means _ _ _ r (r.buffer_count == 0) refl y (
          (raw, (score, later, h), ap (λ (u : State). u.pending) f),
          ap (λ (u : State). u.leases) f,
        )
    outcome_Means r e
          (leased score raw later h _ _ room (inl (reply, same, task, status, act, left)) f) =
        let y : r.status ≡ Consume.admitted = cc in
        let a : r.active_now ≡ reply.active_now = cc in
        let n : r.buffer_count ≡ reply.buffer_count = cc in
        let taken : r.task ≡ some raw = cc in
        rw (label_dispatched r y)
          (raw, (score, later, h), rw taken refl, f, room, a ∙ act, omega (arith, n, left))
    outcome_Means r e (leased score raw later h _ _ _ (inr (failed, _, _)) f) = ground arith
