-- ===== src/Redis/SortedSet/Members.antt =====
-- What holds of every member of a sorted set.
use redis_rate_limiter.Prelude.{◌≤◌, ◌<◌, ◌≡◌, some, [], ◌∷◌, arith, length, Bool-cases, inl, inr}
use redis_rate_limiter.Prelude.Int.{ℤ}
use redis_rate_limiter.Prelude.Text.{Text, same}
use redis_rate_limiter.Redis.SortedSet.{
  ZSet, before, place, insert, remove, score, length-place, length-remove,
}

abbrev pub Each : (Text → Type 0) → ZSet → Type 0
Each P [] = Unit {0}
Each P ((a, m) ∷ z) = P m × Each P z

pub Each-remove : (P : Text → Type 0) (m : Text) (z : ZSet) → Each P z → Each P (remove m z)
unfolding remove
Each-remove P m [] h = tt
Each-remove P m ((b, t) ∷ z) h = elim (Bool-cases (same m t)) [
  | inl e ↦ rw e (Each-remove P m z h.1)
  | inr e ↦ rw e (h.0, Each-remove P m z h.1)
]

Each-place :
    (P : Text → Type 0) (a : ℤ) (s : Text) (z : ZSet) → P s → Each P z → Each P (place a s z)
unfolding place
Each-place P a s [] p h = (p, tt)
Each-place P a s ((b, t) ∷ z) p h = elim (Bool-cases (before a s b t)) [
  | inl e ↦ rw e (p, h)
  | inr e ↦ rw e (h.0, Each-place P a s z p h.1)
]

pub Each-insert :
    (P : Text → Type 0) (a : ℤ) (s : Text) (z : ZSet) → P s → Each P z → Each P (insert a s z)
unfolding insert
Each-insert P a s z p h = Each-place P a s (remove s z) p (Each-remove P s z h)

pub remove_shorter :
    (m : Text) (z : ZSet) (a : ℤ) → score m z ≡ some a → length (remove m z) < length z
unfolding remove score
remove_shorter m [] a h = ground arith
remove_shorter m ((b, t) ∷ z) a h = ground (arith, length-remove m z, remove_shorter m z a)

-- ZADD of a member that is there adds none.
pub length-insert_there :
    (b : ℤ) (m : Text) (z : ZSet) (a : ℤ) → score m z ≡ some a → length (insert b m z) ≤ length z
unfolding insert
length-insert_there b m z a h = omega (arith, length-place b m (remove m z), remove_shorter m z a h)
