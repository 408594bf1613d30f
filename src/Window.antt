-- ===== src/Window.antt =====
-- The sliding window counter: the estimate that src/redis_rate_limiter/lua/acquire.lua, consume.lua
-- and health.lua compute, and `_calculate_token_recovery_delay` of
-- src/redis_rate_limiter/core/limiters.py. Windows are whole milliseconds, and the estimate is
-- kept multiplied by the window, so that it is a whole number and no rounding is modelled.
pub mod Decay
pub mod Recovery
pub mod Limit
use redis_rate_limiter.Prelude.{ℕ, ◌+◌, ◌-◌, ◌*◌, ◌/◌, Bool, ◌||◌, ltb, leb, if◌then◌else◌}
use redis_rate_limiter.Prelude.Int.{ℤ, pos, pos_part, sub_ℕ, ◌-ℤ◌, leb_ℤ}

-- math.floor(now_ms / window_size_ms) * window_size_ms
unfoldable pub current_window_start : ℕ → ℕ → ℕ
current_window_start now_ms window_size_ms = now_ms / window_size_ms * window_size_ms

-- estimated_count * window_size_ms: the weight is (window_size_ms - time passed) / window_size_ms.
unfoldable pub estimated_count : ℕ → ℕ → ℕ → ℕ → ℕ
unfolding current_window_start
estimated_count now_ms window_size_ms previous_count current_count =
    let time_passed_in_current = now_ms - current_window_start now_ms window_size_ms in
    current_count * window_size_ms + previous_count * (window_size_ms - time_passed_in_current)

-- estimated_count < rate_limit
unfoldable pub below_limit : ℕ → ℕ → ℕ → Bool
below_limit estimated window_size_ms rate_limit = ltb estimated (rate_limit * window_size_ms)

-- math.max(0, math.floor(rate_limit - estimated_count))
unfoldable pub remaining_tokens : ℕ → ℕ → ℕ → ℕ
remaining_tokens estimated window_size_ms rate_limit =
    (rate_limit * window_size_ms - estimated) / window_size_ms

-- math.max(0, current_window_start + window_size_ms - now_ms)
unfoldable pub reset_in_ms : ℕ → ℕ → ℕ
unfolding current_window_start
reset_in_ms now_ms window_size_ms =
    current_window_start now_ms window_size_ms + window_size_ms - now_ms

-- A duration of num / den milliseconds.
pub record Delay : Type 0 where
  pub num : ℕ
  pub den : ℕ

-- Each line is that of the source, multiplied by `val_previous`.
unfoldable pub calculate_token_recovery_delay : ℕ → ℕ → ℕ → ℕ → ℕ → Delay
unfolding ◌-ℤ◌
calculate_token_recovery_delay window_ms limit val_previous val_current reset_in_ms =
    let time_passed = sub_ℕ (window_ms * val_previous) (reset_in_ms * val_previous) in
    let t_needed = sub_ℕ (window_ms * val_previous) (window_ms * (limit - val_current)) in
    let wait = t_needed -ℤ time_passed in
    if leb val_previous 0 || leb limit val_current
    then record { num = reset_in_ms; den = 1 }
    else if leb_ℤ wait (pos 0)
    then record { num = 0; den = 1 }
    else record { num = pos_part wait; den = val_previous }
