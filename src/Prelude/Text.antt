-- ===== src/Prelude/Text.antt =====
-- Python's `str` and the bytes of a Redis key, as lists of code points: their comparison, and the
-- decimal numerals that Lua's `..` and Python's f-strings write.
use Prim.Native.Char.{code}
use Prim.Native.Nat.{ℕ}
use Prim.Native.String.{String}
use mathlib.Core.Bool.{Bool, true, false, ◌&&◌}
use mathlib.Core.List.{List, [], ◌∷◌, ◌++◌}
use mathlib.Core.Logic.{◌↔◌}
use mathlib.Core.Path.{◌≡◌, refl}
use native.Mathlib.Omega.{arith}
use redis_rate_limiter.Prelude.Tests.{◌==◌}

abbrev pub Text : Type 0
Text = List ℕ

abbrev pub codes : String → Text
codes String.[] = []
codes (String.◌∷◌ c s) = code c ∷ codes s

abbrev pub same : Text → Text → Bool
same [] [] = true
same [] (y ∷ ys) = false
same (x ∷ xs) [] = false
same (x ∷ xs) (y ∷ ys) = x == y && same xs ys

pub same_refl : (s : Text) → same s s ≡ true
same_refl [] = refl
same_refl (x ∷ xs) = ground (arith, same_refl xs)

pub same→eq : (s t : Text) → same s t ≡ true → s ≡ t
same→eq [] [] h = refl
same→eq [] (y ∷ t) h = cc
same→eq (x ∷ s) [] h = cc
same→eq (x ∷ s) (y ∷ t) h = ground (arith, same→eq s t)

pub same_iff : (s t : Text) → (same s t ≡ true) ↔ (s ≡ t)
same_iff s t = (same→eq s t, λ e. rw e (same_refl t))

-- A common prefix does not matter.
pub same-append : (p s t : Text) → same (p ++ s) (p ++ t) ≡ same s t
same-append [] s t = refl
same-append (x ∷ p) s t = ground (arith, same-append p s t)
