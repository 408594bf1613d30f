-- ===== src/Window/Decay.antt =====
-- How the estimate moves with time.
use native.Mathlib.Nat.{mul-le-mul_left, add-div_right, mul-div_cancel}
use redis_rate_limiter.Prelude.{ℕ, ap, ◌+◌, ◌*◌, ◌-◌, ◌/◌, ◌%◌, ◌≤◌, ◌<◌, ◌≡◌, arith}
use redis_rate_limiter.Window.{current_window_start, estimated_count, reset_in_ms}

-- The current window holds the present time.
pub window_bounds :
    (now w : ℕ)
    → 0 < w
    → (current_window_start now w ≤ now)
      × (now < current_window_start now w + w)
      × (current_window_start now w + (now % w) ≡ now)
unfolding current_window_start
window_bounds now w h = grind arith

-- The current window, if windows are not empty, ends after at least a millisecond and at most its
-- own size, at its start plus its size.
reset_in_ms_bounds :
    (now w : ℕ)
    → 0 < w
    → (0 < reset_in_ms now w)
      × (reset_in_ms now w ≤ w)
      × (now + reset_in_ms now w ≡ current_window_start now w + w)
unfolding reset_in_ms
reset_in_ms_bounds now w h = ground (arith, window_bounds now w h)

-- At a later time of the same window, the estimate of unchanged counters is not larger.
estimated_count_decays :
    (now later w previous current : ℕ)
    → now ≤ later
    → current_window_start now w ≡ current_window_start later w
    → estimated_count later w previous current ≤ estimated_count now w previous current
unfolding estimated_count
estimated_count_decays now later w previous current h e = omega (
  arith,
  mul-le-mul_left {m = w - (later - current_window_start later w)}
      {n = w - (now - current_window_start now w)} previous (omega arith),
)

-- The current counter alone is within the estimate.
pub count-le-estimated_count :
    (now w previous current : ℕ) → current * w ≤ estimated_count now w previous current
unfolding estimated_count
count-le-estimated_count now w previous current = omega arith

current_window_start_next :
    (now w : ℕ)
    → 0 < w
    → current_window_start (current_window_start now w + w) w ≡ current_window_start now w + w
unfolding current_window_start
current_window_start_next now w h =
    rw (add-div_right (now / w * w) h, mul-div_cancel (now / w) h) (omega arith)

-- When a window that is not empty rolls over, the current counter becomes the previous one and the estimate is that
-- counter alone: what was sent in the closing window still counts in full, and the estimate does
-- not rise.
estimated_count_rollover :
    (now w previous current : ℕ)
    → 0 < w
    → (estimated_count (current_window_start now w + w) w current 0 ≡ current * w)
      × (current * w ≤ estimated_count now w previous current)
unfolding estimated_count
estimated_count_rollover now w previous current h =
    let s = current_window_start now w in
    let full : w - (s + w - (s + w)) ≡ w = omega arith in
    (
      rw (current_window_start_next now w h) (omega (arith, ap (λ (t : ℕ). current * t) full)),
      omega arith,
    )
