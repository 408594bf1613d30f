-- ===== src/Scripts/Acquire/Laws.antt =====
-- What one request does: which are let through, what they count, and what the reply says.
use native.Mathlib.Nat.{lt_of_mul-lt-mul_right, div-eq_of_lt}
use redis_rate_limiter.Prelude.{
  ℕ, suc, ◌+◌, ◌-◌, ◌*◌, ◌≤◌, ◌<◌, ◌≡◌, ◌↔◌, false, arith, ◌==◌, Bool-cases, ◌⊎◌, inl, inr, ltb→lt,
}
use redis_rate_limiter.Prelude.Int.{pos, negsuc, ◌-ℤ◌}
use redis_rate_limiter.Prelude.Text.{Text, same, same_refl}
use redis_rate_limiter.Prelude.Decimal.{number-decimal}
use redis_rate_limiter.Keys.{window_key}
use redis_rate_limiter.Redis.{Redis}
use redis_rate_limiter.Window.{current_window_start, estimated_count, below_limit, remaining_tokens}
use redis_rate_limiter.Window.Decay.{count-le-estimated_count}
use redis_rate_limiter.Scripts.Clock.{Time, now_ms}
use redis_rate_limiter.Scripts.Acquire.{Reply, read_count, count_request, acquire_script}

module _ (R : Redis) where
  open R use {Db, view}

  pub read_count-count_request :
      (k : Text) (w now current : ℕ) (db : Db)
      → read_count R k (count_request R k w now current db) ≡ suc (read_count R k db)
  unfolding read_count count_request
  read_count-count_request k w now current db = elim (Bool-cases (current == 0)) [
    | inl e ↦ rw e (simp (R.view-pexpire, R.view-incr, same_refl, number-decimal))
    | inr e ↦ rw e (simp (R.view-incr, same_refl, number-decimal))
  ]

  pub view-count_request_ne :
      (k : Text) (w now current : ℕ) (db : Db) (j : Text)
      → same k j ≡ false
      → view (count_request R k w now current db) j ≡ view db j
  unfolding count_request
  view-count_request_ne k w now current db j h = elim (Bool-cases (current == 0)) [
    | inl e ↦ rw e (simp (R.view-pexpire, R.view-incr, h))
    | inr e ↦ rw e (simp (R.view-incr, h))
  ]

  module _ (time : Time) (base : Text) (w limit : ℕ) (db : Db) where
    abbrev pub key : Text
    key = window_key base (current_window_start (now_ms time) w)

    abbrev pub previous_key : Text
    previous_key = window_key base (current_window_start (now_ms time) w - w)

    abbrev pub estimate : ℕ
    estimate = estimated_count (now_ms time) w (read_count R previous_key db) (read_count R key db)

    abbrev pub outcome : Db × Reply
    outcome = acquire_script R time base w limit db

    admitted_cases :
        ((estimate < limit * w)
          × (outcome.0 ≡ count_request R key w (now_ms time) (read_count R key db) db)
          × (outcome.1.allowed ≡ 1)
          × (outcome.1.remaining ≡ pos (remaining_tokens estimate w limit) -ℤ pos 1))
        ⊎ ((limit * w ≤ estimate)
            × (outcome.0 ≡ db)
            × (outcome.1.allowed ≡ 0)
            × (outcome.1.remaining ≡ pos (remaining_tokens estimate w limit)))
    unfolding acquire_script below_limit
    admitted_cases = elim (Bool-cases (below_limit estimate w limit)) [
      | inl e ↦ inl (ltb→lt estimate (limit * w) e, rw e, rw e, rw e)
      | inr e ↦ inr (ground arith, rw e, rw e, rw e)
    ]

    -- acquire.lua lets a request through exactly when the estimate is below the limit; the window's
    -- counter grows by one for a request that is let through and by nothing for one that is not, and no
    -- other key changes.
    pub acquire_script_lem :
        ((outcome.1.allowed ≡ 1) ↔ (estimate < limit * w))
        × (read_count R key outcome.0 ≡ read_count R key db + outcome.1.allowed)
        × ((j : Text) → same key j ≡ false → view outcome.0 j ≡ view db j)
    acquire_script_lem = elim admitted_cases [
      | inl (below, counted, yes_allowed, _) ↦ (
        (λ _. below, λ _. yes_allowed),
        rw (counted, yes_allowed) (rw read_count-count_request (omega arith)),
        λ j h. rw counted (view-count_request_ne key w (now_ms time) (read_count R key db) db j h),
      )
      | inr (above, same_db, refused, _) ↦ (
        (λ e. absurd (omega (arith, e, refused)), λ h. absurd (omega arith)),
        rw (same_db, refused) (omega arith),
        λ j h. rw same_db,
      )
    ]

    below-lt : 0 < w → estimate < limit * w → read_count R key db < limit
    below-lt h below = lt_of_mul-lt-mul_right w (
        omega (
          arith,
          below,
          count-le-estimated_count (now_ms time) w (read_count R previous_key db)
              (read_count R key db),
        ))

    -- A counter that is within the limit stays within it.
    pub acquire_script_limit :
        0 < w → read_count R key db ≤ limit → read_count R key outcome.0 ≤ limit
    acquire_script_limit h fits = elim admitted_cases [
      | inl (below, counted, _, _) ↦
          rw (counted, read_count-count_request) (omega (arith, below-lt h below))
      | inr (_, same_db, _, _) ↦ rw same_db fits
    ]

    -- A request that finds less than one whole token left, but some, is let through and told that -1
    -- remain; the window is not empty.
    acquire_script_remaining :
        0 < w
        → estimate < limit * w
        → limit * w < estimate + w
        → (outcome.1.allowed ≡ 1) × (outcome.1.remaining ≡ negsuc 0)
    unfolding remaining_tokens ◌-ℤ◌
    acquire_script_remaining hw h k = elim admitted_cases [
      | inl (_, _, yes_allowed, told) ↦ (
        yes_allowed,
        rw told (rw (div-eq_of_lt {n = limit * w - estimate} {m = w} (omega arith))),
      )
      | inr (above, _, _, _) ↦ absurd (omega arith)
    ]
