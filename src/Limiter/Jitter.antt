-- ===== src/Limiter/Jitter.antt =====
-- `_calculate_smart_jitter` of src/redis_rate_limiter/core/limiters.py, before its last rounding to
-- a millisecond. The load pressure is in tenths; the draw of random.random() is roll / sides.
use native.Mathlib.Nat.{mul-le-mul_right, mul-le-mul_left, mul-le-mul}
use redis_rate_limiter.Prelude.{
  ℕ, ◌+◌, ◌-◌, ◌*◌, ◌≤◌, ◌≡◌, ap, true, Bool-cases, inl, inr, max, ltb, leb, arith, if◌then◌else◌,
}
use redis_rate_limiter.Limiter.{Limiter}
use redis_rate_limiter.Window.{Delay}

unfoldable pub load_pressure : ℕ → ℕ
load_pressure remaining_tasks =
    if leb remaining_tasks 0
    then 0
    else if ltb remaining_tasks 10
    then 2
    else if ltb remaining_tasks 50
    then 5
    else if ltb remaining_tasks 100
    then 7
    else 10

-- jitter_scale * 1000 * max(1, max_concurrency)
unfoldable pub jitter_scale : Limiter → ℕ → ℕ → ℕ
unfolding load_pressure
jitter_scale l remaining_tasks active_concurrency =
    (300 + 49 * load_pressure remaining_tasks) * max 1 l.max_concurrency + 210 * active_concurrency

-- The jitter in thousandths of a millisecond, over 1000 * max(1, max_concurrency) * sides.
unfoldable pub calculate_smart_jitter : Limiter → ℕ → ℕ → ℕ → ℕ → Delay
unfolding jitter_scale
calculate_smart_jitter l remaining_tasks active_concurrency roll sides =
    let min_jitter = l.window_ms * l.jitter_min in
    let max_jitter = l.window_ms * l.jitter_max in
    let den = 1000 * max 1 l.max_concurrency * sides in
    if l.jitter_enabled
    then record {
      num =
          min_jitter * den
          + (max_jitter - min_jitter) * (jitter_scale l remaining_tasks active_concurrency * roll);
      den = den * 1000;
    }
    else record { num = 0; den = 1 }

-- The pressure does not fall as the queue grows.
pub load_pressure_mono : (m n : ℕ) → m ≤ n → load_pressure m ≤ load_pressure n
unfolding load_pressure
load_pressure_mono m n h = ground arith

load_pressure-le : (n : ℕ) → load_pressure n ≤ 10
unfolding load_pressure
load_pressure-le n = ground arith

jitter_scale-le :
    (l : Limiter) (tasks active : ℕ)
    → active ≤ max 1 l.max_concurrency
    → jitter_scale l tasks active ≤ 1000 * max 1 l.max_concurrency
unfolding jitter_scale
jitter_scale-le l tasks active h = omega (
  arith,
  mul-le-mul_right {m = 300 + 49 * load_pressure tasks} {n = 790} (max 1 l.max_concurrency)
      (omega (arith, load_pressure-le tasks)),
)

jitter_scale_mono :
    (l : Limiter) (few many active : ℕ)
    → few ≤ many
    → jitter_scale l few active ≤ jitter_scale l many active
unfolding jitter_scale
jitter_scale_mono l few many active h = omega (
  arith,
  mul-le-mul_right {m = 300 + 49 * load_pressure few} {n = 300 + 49 * load_pressure many}
      (max 1 l.max_concurrency) (omega (arith, load_pressure_mono few many h)),
)

-- A mixture of two bounds lies between them.
mix_bounds :
    (lo hi den x : ℕ)
    → lo ≤ hi
    → x ≤ den
    → (lo * (den * 1000) ≤ (lo * den + (hi - lo) * x) * 1000)
      × ((lo * den + (hi - lo) * x) * 1000 ≤ hi * (den * 1000))
mix_bounds lo hi den x h k =
    let whole : hi ≡ lo + (hi - lo) = omega arith in
    let spread = mul-le-mul_left {m = x} {n = den} (hi - lo) k in
    (omega (arith, spread), omega (arith, spread, ap (λ (t : ℕ). t * den) whole))

-- With the jitter enabled, no more tasks running than the limit allows, its two percentages in order
-- and a draw of at most 1, the jitter lies between its two percentages of the window.
calculate_smart_jitter_bounds :
    (l : Limiter) (tasks active roll sides : ℕ)
    → l.jitter_enabled ≡ true
    → active ≤ l.max_concurrency
    → l.jitter_min ≤ l.jitter_max
    → roll ≤ sides
    → let jitter = calculate_smart_jitter l tasks active roll sides in
      (l.window_ms * l.jitter_min * jitter.den ≤ jitter.num * 1000)
      × (jitter.num * 1000 ≤ l.window_ms * l.jitter_max * jitter.den)
unfolding calculate_smart_jitter
calculate_smart_jitter_bounds l tasks active roll sides on ha hp hr = rw on (
    mix_bounds (l.window_ms * l.jitter_min) (l.window_ms * l.jitter_max)
      (1000 * max 1 l.max_concurrency * sides) (jitter_scale l tasks active * roll)
      (mul-le-mul_left {m = l.jitter_min} {n = l.jitter_max} l.window_ms hp)
      (mul-le-mul (jitter_scale-le l tasks active (omega arith)) hr))

-- With a longer queue, and all else equal, the jitter is not smaller.
calculate_smart_jitter_mono :
    (l : Limiter) (few many active roll sides : ℕ)
    → few ≤ many
    → (calculate_smart_jitter l few active roll sides).num
      ≤ (calculate_smart_jitter l many active roll sides).num
unfolding calculate_smart_jitter
calculate_smart_jitter_mono l few many active roll sides h = elim (Bool-cases l.jitter_enabled) [
  | inl on ↦
      let scales =
        mul-le-mul_right {m = jitter_scale l few active} {n = jitter_scale l many active} roll
          (jitter_scale_mono l few many active h) in
      rw on (
        omega
          (arith, mul-le-mul_left (l.window_ms * l.jitter_max - l.window_ms * l.jitter_min) scales))
  | inr off ↦ rw off (omega arith)
]
