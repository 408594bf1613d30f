-- ===== src/Drain/Backoff.antt =====
-- The recovery of `drain` from failures, and its pause.
use native.Mathlib.Nat.{pow-suc}
use redis_rate_limiter.Prelude.{
  ℕ, suc, ◌+◌, ◌-◌, ◌*◌, ◌^◌, ◌≤◌, ◌<◌, ◌≡◌, refl, ap, ◌∙◌, Bool, true, false, List, [], ◌∷◌, ◌++◌,
  min, arith, length, lt→ltb,
}
use redis_rate_limiter.Prelude.Text.{Text}
use redis_rate_limiter.Redis.{Redis}
use redis_rate_limiter.Limiter.{Limiter}
use redis_rate_limiter.Scripts.Task.{Task}
use redis_rate_limiter.Drain.{
  schedule_drain, Drained, Draw, Clocks, backoff_delay, settle, drain_unless_paused,
}

-- The recovery delay starts at 100 milliseconds (or the window, if that is shorter), doubles with
-- each further failure up to the window, and is never more than that.
backoff_delay_doubles :
    (l : Limiter) (n : ℕ)
    → (backoff_delay l 1 ≡ min l.window_ms 100)
      × (backoff_delay l (suc (suc n)) ≡ min l.window_ms (2 * backoff_delay l (suc n)))
      × (backoff_delay l (suc n) ≤ l.window_ms)
unfolding backoff_delay
backoff_delay_doubles l n =
    let next : 2 ^ (suc (suc n) - 1) ≡ 2 ^ suc n = ap (λ (k : ℕ). 2 ^ k) (omega arith) in
    let this : 2 ^ (suc n - 1) ≡ 2 ^ n = ap (λ (k : ℕ). 2 ^ k) (omega arith) in
    (refl, omega (arith, next, this, pow-suc 2 n), omega arith)

-- Drains in turn.
pub settle_all : Limiter → List Drained → Limiter
settle_all l [] = l
settle_all l (d ∷ ds) = settle_all (settle l d).0 ds

abbrev pub AllRaised : List Drained → Type 0
AllRaised [] = Unit {0}
AllRaised (d ∷ ds) = (d.raised ≡ true) × AllRaised ds

settle_all-window_ms : (l : Limiter) (ds : List Drained) → (settle_all l ds).window_ms ≡ l.window_ms
unfolding settle_all settle
settle_all-window_ms l [] = refl
settle_all-window_ms l (d ∷ ds) = settle_all-window_ms (settle l d).0 ds ∙ ground arith

settle_all_raised :
    (l : Limiter) (ds : List Drained)
    → AllRaised ds
    → (settle_all l ds).consecutive_drain_failures ≡ l.consecutive_drain_failures + length ds
unfolding settle_all settle
settle_all_raised l [] h = omega arith
settle_all_raised l (d ∷ ds) h = rw h.0 (settle_all_raised _ ds h.1 ∙ omega arith)

-- After a row of drains that failed: a drain that fails asks last for the delay that the whole row
-- has grown to, and keeps what it had asked for before; one that succeeds starts the count again.
settle_backoff :
    (l : Limiter) (ds : List Drained) (d : Drained)
    → AllRaised ds
    → ((d.raised ≡ true)
        → (settle (settle_all l ds) d).1
          ≡ d.actions
            ++ schedule_drain (record {
              num = min l.window_ms (100 * 2 ^ (l.consecutive_drain_failures + length ds));
              den = 1;
            })
              ∷ [])
      × ((d.raised ≡ false) → (settle (settle_all l ds) d).0.consecutive_drain_failures ≡ 0)
unfolding settle backoff_delay
settle_backoff l ds d h = (
  λ e.
      rw (e, settle_all-window_ms, settle_all_raised l ds h)
        (ap
          (λ (k : ℕ).
            d.actions
            ++ schedule_drain (record { num = min l.window_ms (100 * 2 ^ k); den = 1 }) ∷ [])
          (omega arith)),
  λ e. rw e,
)

module _ (R : Redis) (loads : Text → Task) (accepts : Task → Bool) where
  -- Before the pause is over, a drain changes neither Redis nor the limiter, and asks for one drain,
  -- at the end of the pause, which is later than now.
  drain_paused :
      (clocks : Clocks) (capacity : Bool) (draw : Draw) (l : Limiter) (db : R.Db)
      → clocks.wall < l.drain_paused_until
      → (drain_unless_paused R loads accepts clocks capacity draw l db ≡ (
        db,
        l,
        schedule_drain (record { num = l.drain_paused_until - clocks.wall; den = 1 }) ∷ [],
      ))
        × (0 < l.drain_paused_until - clocks.wall)
  unfolding drain_unless_paused
  drain_paused clocks capacity draw l db h = (rw (lt→ltb _ _ h), omega arith)
