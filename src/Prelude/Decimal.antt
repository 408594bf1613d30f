-- ===== src/Prelude/Decimal.antt =====
-- The decimal numerals that Lua's `..` and Python's f-strings write: they read back, so that two
-- numbers are never written alike, and they begin with a digit.
use Prim.Native.Nat.{ℕ, zero, suc, ◌+◌, ◌-◌, ◌*◌, ◌/◌, ◌%◌, ◌<◌}
use mathlib.Core.List.{[], ◌∷◌}
use mathlib.Core.Logic.{inl, inr}
use mathlib.Core.Path.{◌≡◌, refl, ap}
use native.Mathlib.Omega.{arith}
use redis_rate_limiter.Prelude.Tests.{◌==◌, ltb, if◌then◌else◌, Bool-cases}
use redis_rate_limiter.Prelude.Text.{Text, same, same_iff}

-- One digit a round; the quotient falls, so `suc n` rounds are enough for `n`.
digits : ℕ → ℕ → Text → Text
digits zero n acc = acc
digits (suc f) n acc =
    let rest = digits f (n / 10) ((48 + n % 10) ∷ acc) in if ltb n 10 then (48 + n) ∷ acc else rest

unfoldable pub decimal : ℕ → Text
unfolding digits
decimal n = digits (suc n) n []

-- Lua's `tonumber` on such a numeral.
unfoldable pub number_from : ℕ → Text → ℕ
number_from a [] = a
number_from a (c ∷ s) = number_from (a * 10 + (c - 48)) s

number-digits : (f n : ℕ) (acc : Text) → n < f → number_from 0 (digits f n acc) ≡ number_from n acc
unfolding digits number_from
number-digits zero n acc h = elim h [ ]
number-digits (suc f) n acc h = elim (Bool-cases (ltb n 10)) [
  | inl small ↦ rw small (ap (λ (k : ℕ). number_from k acc) (omega arith))
  | inr more ↦ rw more (
      rw (number-digits f (n / 10) ((48 + n % 10) ∷ acc) (ground arith))
        (ap (λ (k : ℕ). number_from k acc) (omega arith)))
]

pub number-decimal : (n : ℕ) → number_from 0 (decimal n) ≡ n
unfolding decimal number_from
number-decimal n = number-digits (suc n) n [] (omega arith)

pub decimal-injective : (m n : ℕ) → decimal m ≡ decimal n → m ≡ n
decimal-injective m n e = cc (number-decimal m, number-decimal n)

pub same-decimal : (m n : ℕ) → same (decimal m) (decimal n) ≡ (m == n)
same-decimal m n =
    ground
      (arith, same_iff (decimal m) (decimal n), decimal-injective m n, λ (e : m ≡ n). ap decimal e)

digits_head :
    (f n : ℕ) (acc : Text)
    → n < f
    → (c : ℕ) × (rest : Text) × (digits f n acc ≡ c ∷ rest) × (c < 58)
unfolding digits
digits_head zero n acc h = elim h [ ]
digits_head (suc f) n acc h = elim (Bool-cases (ltb n 10)) [
  | inl small ↦ (48 + n, acc, rw small refl, ground arith)
  | inr more ↦ rw more (digits_head f (n / 10) ((48 + n % 10) ∷ acc) (ground arith))
]

-- A numeral begins with a digit, below `b':'`.
pub decimal_head : (n : ℕ) → (c : ℕ) × (rest : Text) × (decimal n ≡ c ∷ rest) × (c < 58)
unfolding decimal
decimal_head n = digits_head (suc n) n [] (omega arith)
