-- ===== src/Window/Recovery.antt =====
-- The delay until a token is free, against the estimate. With `left` milliseconds left of a window
-- `w`, the estimate (times `w`) is current * w + previous * left, and falls with `left`.
use native.Mathlib.Nat.{mul-le-mul_right}
use redis_rate_limiter.Prelude.{
  ℕ, ◌+◌, ◌*◌, ◌-◌, ◌≤◌, ◌<◌, ◌≡◌, arith, ap, ◌∙◌, ltb, ltb→lt, Bool-cases, ◌⊎◌, inl, inr,
  if◌then◌else◌,
}
use redis_rate_limiter.Window.{calculate_token_recovery_delay}

-- The delay in one line: previous * left falls to what the limit leaves after `excess` of it.
delay_parts :
    (w limit previous current reset : ℕ)
    → 0 < previous
    → current < limit
    → reset ≤ w
    → let delay = calculate_token_recovery_delay w limit previous current reset in
      let excess = reset * previous - w * (limit - current) in
      (delay.num ≡ excess) × (delay.den ≡ (if ltb 0 excess then previous else 1))
unfolding calculate_token_recovery_delay
delay_parts w limit previous current reset hp hc hr =
    ground (arith, mul-le-mul_right {m = reset} {n = w} previous hr)

mul_split : (a b w : ℕ) → a ≤ b → b * w ≡ a * w + w * (b - a)
mul_split a b w h = let e : b ≡ a + (b - a) = omega arith in ap (λ (t : ℕ). t * w) e ∙ omega arith

module _ (w limit previous current : ℕ) (some_previous : 0 < previous)
    (some_left : current < limit) where
  den_cases :
      (elapsed left : ℕ)
      → elapsed + left ≤ w
      → let delay = calculate_token_recovery_delay w limit previous current (elapsed + left) in
        let excess = (elapsed + left) * previous - w * (limit - current) in
        (delay.num ≡ excess)
        × (((0 < excess) × (elapsed * delay.den ≡ elapsed * previous))
            ⊎ ((excess ≡ 0) × (elapsed * delay.den ≡ elapsed)))
  den_cases elapsed left within =
      let (n, d) =
        delay_parts w limit previous current (elapsed + left) some_previous some_left within in
      let excess : ℕ = (elapsed + left) * previous - w * (limit - current) in
      elim (Bool-cases (ltb 0 excess)) [
        | inl more ↦ (n, inl (ltb→lt 0 excess more, ap (λ (t : ℕ). elapsed * t) (rw more at d)))
        | inr none ↦
            (n, inr (ground arith, ap (λ (t : ℕ). elapsed * t) (rw none at d) ∙ omega arith))
      ]

  -- With a previous counter, and a current one below the limit: once strictly more than the delay has
  -- passed, within the window, the estimate is below the limit.
  delay_enough :
      (elapsed left : ℕ)
      → elapsed + left ≤ w
      → let delay = calculate_token_recovery_delay w limit previous current (elapsed + left) in
        delay.num < elapsed * delay.den → current * w + previous * left < limit * w
  delay_enough elapsed left within h =
      let limits = mul_split current limit w (omega arith) in
      let (n, cases) = den_cases elapsed left within in
      elim cases [
        | inl (more, e) ↦ omega (arith, limits, n, more, e)
        | inr (done, e) ↦ omega (
          arith,
          limits,
          n,
          done,
          e,
          mul-le-mul_right {m = 1} {n = elapsed} previous (omega (arith, e)),
        )
      ]

  -- With a previous counter, and a current one below the limit: up to the end of a delay that is not
  -- zero, that end included, the estimate is not below the limit.
  delay_needed :
      (elapsed left : ℕ)
      → elapsed + left ≤ w
      → let delay = calculate_token_recovery_delay w limit previous current (elapsed + left) in
        0 < delay.num → elapsed * delay.den ≤ delay.num → limit * w ≤ current * w + previous * left
  delay_needed elapsed left within positive h =
      omega (arith, den_cases elapsed left within, mul_split current limit w (omega arith))
