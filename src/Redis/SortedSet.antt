-- ===== src/Redis/SortedSet.antt =====
-- A sorted set as ZRANGE lists it: by score, members of one score by their bytes.
pub mod Members
use redis_rate_limiter.Prelude.{
  suc, ◌≤◌, ◌≡◌, refl, Bool, true, false, ◌&&◌, ◌||◌, Option, none, some, List, [], ◌∷◌, arith, ltb,
  ◌==◌, if◌then◌else◌, length,
}
use redis_rate_limiter.Prelude.Int.{ℤ, ltb_ℤ, leb_ℤ}
use redis_rate_limiter.Prelude.Text.{Text, same, same_iff}

abbrev pub ZSet : Type 0
ZSet = List (ℤ × Text)

abbrev text_before : Text → Text → Bool
text_before [] [] = false
text_before [] (y ∷ t) = true
text_before (x ∷ s) [] = false
text_before (x ∷ s) (y ∷ t) = ltb x y || (x == y && text_before s t)

abbrev before : ℤ → Text → ℤ → Text → Bool
before a s b t = ltb_ℤ a b || (leb_ℤ a b && text_before s t)

-- ZREM
unfoldable pub remove : Text → ZSet → ZSet
remove m [] = []
remove m ((b, t) ∷ z) = if same m t then remove m z else (b, t) ∷ remove m z

place : ℤ → Text → ZSet → ZSet
place a s [] = (a, s) ∷ []
place a s ((b, t) ∷ z) = if before a s b t then (a, s) ∷ (b, t) ∷ z else (b, t) ∷ place a s z

-- ZADD: a member that is there gets the new score.
unfoldable pub insert : ℤ → Text → ZSet → ZSet
unfolding place
insert a s z = place a s (remove s z)

-- ZREMRANGEBYSCORE key -inf top
unfoldable pub drop_through : ℤ → ZSet → ZSet
drop_through top [] = []
drop_through top ((b, t) ∷ z) =
    if leb_ℤ b top then drop_through top z else (b, t) ∷ drop_through top z

-- ZSCORE
unfoldable pub score : Text → ZSet → Option ℤ
score m [] = none
score m ((b, t) ∷ z) = if same m t then some b else score m z

pub length-remove : (m : Text) (z : ZSet) → length (remove m z) ≤ length z
unfolding remove
length-remove m [] = omega arith
length-remove m ((b, t) ∷ z) = ground (arith, length-remove m z)

length-place : (a : ℤ) (s : Text) (z : ZSet) → length (place a s z) ≡ suc (length z)
unfolding place
length-place a s [] = refl
length-place a s ((b, t) ∷ z) = ground (arith, length-place a s z)

-- ZADD adds at most one member.
pub length-insert : (a : ℤ) (s : Text) (z : ZSet) → length (insert a s z) ≤ suc (length z)
unfolding insert
length-insert a s z = omega (arith, length-place a s (remove s z), length-remove s z)

pub length-drop_through : (top : ℤ) (z : ZSet) → length (drop_through top z) ≤ length z
unfolding drop_through
length-drop_through top [] = omega arith
length-drop_through top ((b, t) ∷ z) = ground (arith, length-drop_through top z)

pub score-remove : (m : Text) (z : ZSet) → score m (remove m z) ≡ none
unfolding remove score
score-remove m [] = refl
score-remove m ((b, t) ∷ z) = ground (arith, score-remove m z)

pub score-remove_ne : (m n : Text) (z : ZSet) → same n m ≡ false → score n (remove m z) ≡ score n z
unfolding remove score
score-remove_ne m n [] h = refl
score-remove_ne m n ((b, t) ∷ z) h =
    ground (arith, score-remove_ne m n z h, same_iff m t, same_iff n t, same_iff n m)

score-place : (a : ℤ) (s : Text) (z : ZSet) → score s z ≡ none → score s (place a s z) ≡ some a
unfolding place score
score-place a s [] h = ground (arith, same_iff s s)
score-place a s ((b, t) ∷ z) h = ground (arith, same_iff s s, score-place a s z)

score-place_ne :
    (a : ℤ) (s n : Text) (z : ZSet) → same n s ≡ false → score n (place a s z) ≡ score n z
unfolding place score
score-place_ne a s n [] h = ground arith
score-place_ne a s n ((b, t) ∷ z) h = ground (arith, score-place_ne a s n z h)

-- ZSCORE after ZADD.
pub score-insert :
    (a : ℤ) (s n : Text) (z : ZSet)
    → score n (insert a s z) ≡ (if same n s then some a else score n z)
unfolding insert
score-insert a s n z = ground (
  arith,
  same_iff n s,
  score-place a s (remove s z),
  score-remove s z,
  score-place_ne a s n (remove s z),
  score-remove_ne s n z,
)
