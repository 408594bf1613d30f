-- ===== src/Scripts/Consume/Fairness.antt =====
-- The turns of the workers that share one limiter.
use redis_rate_limiter.Prelude.{
  Bool, none, [], ◌∷◌, ◌⊎◌, ◌≤◌, ◌≡◌, true, false, Option, some, length,
}
use redis_rate_limiter.Prelude.Text.{Text}
use redis_rate_limiter.Keys.{Role, key_of}
use redis_rate_limiter.Redis.{Redis}
use redis_rate_limiter.Scripts.Clock.{Time, now_ms}
use redis_rate_limiter.Scripts.Task.{Task}
use redis_rate_limiter.Prelude.Int.{eqb_ℤ, ℤ, pos}
use redis_rate_limiter.Redis.SortedSet.{ZSet, remove}
use redis_rate_limiter.Scripts.Consume.{
  Arguments, Reply, yielded, blocked, yields, fairness_ttl, reclaim_leases,
}
use redis_rate_limiter.Scripts.Consume.Steps.{State, keys_of}

-- The reply of a yield.
abbrev pub says_yielded : Option Reply → Bool
says_yielded none = false
says_yielded (some r) = eqb_ℤ r.status yielded

module _ (R : Redis) (decode : Text → Task) (id : Text) (a : Arguments) where
  open R use {Db, view}

  -- The worker has to leave the turn to another one.
  abbrev pub MustYield : Time → Db → Type 0
  MustYield time db =
      let healed = reclaim_leases R time (keys_of id).concurrency db in
      yields (view healed (key_of id Role.last_consumer)).str
        (view healed (key_of id Role.last_caller)).str a.worker_id
      ≡ true

  -- What the script does before it dequeues.
  abbrev pub called : Time → Db → Db
  called time db =
      R.set_px (key_of id Role.last_caller) a.worker_id (fairness_ttl a) (now_ms time)
        (reclaim_leases R time (keys_of id).concurrency db)

  -- A run that goes on takes the first task, or finds none, or a limit in its way.
  abbrev pub TakesFirst : State → State → Option Reply → Type 0
  TakesFirst s t o =
      ((score : ℤ) × (raw : Text) × (later : ZSet) × (s.pending ≡ (score, raw) ∷ later)
        × (t.pending ≡ remove raw s.pending))
      ⊎ ((t ≡ s)
          × ((reply : Reply) × (o ≡ some reply)
              × (reply.status ≡ blocked)
              × ((s.pending ≡ [])
                  ⊎ (a.max_concurrency ≤ length s.leases)
                  ⊎ (reply.remaining ≡ pos 0))))
