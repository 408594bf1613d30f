-- ===== src/Scripts/Consume/Safety.antt =====
-- What consume.lua keeps: the concurrency limit, and every task.
use redis_rate_limiter.Prelude.{
  ℕ, ◌+◌, ◌≤◌, ◌≡◌, ap, ◌∙◌, ◌⊎◌, inl, inr, true, Option, some, [], ◌∷◌, ◌++◌, arith, length,
  Bool-cases,
}
use redis_rate_limiter.Prelude.Int.{ℤ, pos, sub_ℕ}
use redis_rate_limiter.Prelude.Text.{Text, same, same→eq, same_refl}
use redis_rate_limiter.Redis.{Redis}
use redis_rate_limiter.Redis.SortedSet.{
  score, length-insert, length-drop_through, score-insert, score-remove_ne,
}
use redis_rate_limiter.Scripts.Clock.{Time}
use redis_rate_limiter.Scripts.Task.{Task, is_marker}
use redis_rate_limiter.Scripts.Consume.{Arguments, Reply, is_expired, past_deadline, consume_script}
use redis_rate_limiter.Scripts.Consume.Steps.{State, keys_of, state}
use redis_rate_limiter.Scripts.Consume.Cases.{Outcome, idle, died, skipped, leased, OwnsHead}
use redis_rate_limiter.Scripts.Consume.Outcomes.{consume_outcome}

Outcome-leases :
    {time : Time} {a : Arguments} {decode : Text → Task} {s t : State} {r : Option Reply}
    → Outcome time a decode (length s.leases) s t r
    → (length t.leases ≤ length s.leases) ⊎ (length t.leases ≤ a.max_concurrency)
Outcome-leases {s = s} (idle _ _ _ _ _ e) =
    inl (omega (arith, ap (λ (u : State). length u.leases) e))
Outcome-leases (died _ _ _ _ _ _ _ _ _ e) =
    inl (omega (arith, ap (λ (u : State). length u.leases) e))
Outcome-leases (skipped _ _ _ _ _ _ _ _ _ _ e) =
    inl (omega (arith, ap (λ (u : State). length u.leases) e))
Outcome-leases {time} {a} {decode} {s} (leased _ raw _ _ _ _ room _ e) = inr (
    omega (
      arith,
      room,
      ap (λ (u : State). length u.leases) e,
      length-insert (pos (time.seconds + a.lease_duration)) (decode raw).id s.leases,
    ))

-- Where a task of the buffer may be after a run: there still, under a lease, in the dead letter
-- queue, or, if it is an acquire marker whose time is over, nowhere.
abbrev pub Kept : Time → Arguments → (Text → Task) → State → State → ℤ → Text → Type 0
Kept time a decode s t priority raw =
    (score raw t.pending ≡ some priority)
    ⊎ (score (decode raw).id t.leases ≡ some (pos (time.seconds + a.lease_duration)))
    ⊎ (t.dead ≡ s.dead ++ raw ∷ [])
    ⊎ ((is_marker (decode raw) ≡ true)
        × ((is_expired time a (decode raw) ≡ true) ⊎ (past_deadline time (decode raw) ≡ true)))

Outcome-Kept :
    {time : Time} {a : Arguments} {decode : Text → Task} {n : ℕ} {s t : State} {r : Option Reply}
    (priority : ℤ) (raw : Text)
    → score raw s.pending ≡ some priority
    → Outcome time a decode n s t r
    → Kept time a decode s t priority raw
Outcome-Kept p m h (idle _ _ _ _ _ e) = inl (rw e h)
Outcome-Kept {decode = decode} {s = s} p m h (died _ raw _ _ _ old _ _ _ e) =
    elim (Bool-cases (same m raw)) [
      | inr other ↦ inl (rw e (score-remove_ne raw m s.pending other ∙ h))
      | inl hit ↦ elim (Bool-cases (is_marker (decode raw))) [
        | inl marker ↦
            inr (inr (inr (rw (same→eq m raw hit) marker, inl (rw (same→eq m raw hit) old))))
        | inr plain ↦ inr (inr (inl (rw e (rw (plain, same→eq m raw hit)))))
      ]
    ]
Outcome-Kept {s = s} p m h (skipped _ raw _ _ _ marker late _ _ _ e) =
    elim (Bool-cases (same m raw)) [
      | inr other ↦ inl (rw e (score-remove_ne raw m s.pending other ∙ h))
      | inl hit ↦ inr (inr (inr (rw (same→eq m raw hit) marker, inr (rw (same→eq m raw hit) late))))
    ]
Outcome-Kept {s = s} p m h (leased _ raw _ _ _ _ _ _ e) = elim (Bool-cases (same m raw)) [
  | inr other ↦ inl (rw e (score-remove_ne raw m s.pending other ∙ h))
  | inl hit ↦ inr (inl (rw (e, same→eq m raw hit, score-insert, same_refl)))
]

module _ (R : Redis) (id : Text) (decode : Text → Task) (time : Time) (a : Arguments) (db : R.Db)
    (own : OwnsHead id decode (state R id db).pending) where
  abbrev before : State
  before = state R id db

  abbrev after : State
  after = state R id (consume_script R decode time (keys_of id) a db).0

  -- One run of consume.lua, on a limiter whose first task, if any, carries the limiter's own in-flight
  -- key, ends with no more leases than it found, or with at most max_concurrency.
  pub consume_concurrency :
      (length after.leases ≤ length before.leases) ⊎ (length after.leases ≤ a.max_concurrency)
  consume_concurrency = elim (Outcome-leases (consume_outcome R id time a decode db own)) [
    | inl fewer ↦
        inl (omega (arith, fewer, length-drop_through (sub_ℕ time.seconds 1) before.leases))
    | inr within ↦ inr within
  ]

  -- No task is lost: after one run of consume.lua, on a limiter whose first task, if any, carries the
  -- limiter's own in-flight key, each task of the buffer is still there with its priority, or holds a
  -- lease that lasts lease_duration from now, or is at the end of the dead letter queue, or is an
  -- acquire marker that is too old or past its deadline.
  pub consume_keeps :
      (priority : ℤ) (raw : Text)
      → score raw before.pending ≡ some priority
      → Kept time a decode before after priority raw
  consume_keeps priority raw h =
      Outcome-Kept priority raw h (consume_outcome R id time a decode db own)
