-- ===== src/Reports/Superfluity/Kills.antt =====
-- The kill maps hold only tests that have killed a mutant.
use redis_rate_limiter.Prelude.{
  ℕ, suc, ◌≡◌, refl, false, Option, none, some, List, [], ◌∷◌, ◌++◌, arith, Bool-cases, inl, inr,
}
use redis_rate_limiter.Prelude.Text.{Text, same}
use redis_rate_limiter.Reports.Superfluity.{
  contains, add, class_of, Test, add_kill, ClassMap, add_to_class, add_killers, class_kill_maps,
  is_empty, analyze_from, analyze_class,
}

-- Each test has killed something.
abbrev AllKill : List Test → Type 0
AllKill [] = Unit {0}
AllKill (t ∷ ts) = (is_empty t.kills ≡ false) × AllKill ts

abbrev AllClassesKill : List ClassMap → Type 0
AllClassesKill [] = Unit {0}
AllClassesKill (c ∷ cs) = AllKill c.tests × AllClassesKill cs

append-is_empty : (us : List Text) (t : Text) → is_empty (us ++ t ∷ []) ≡ false
append-is_empty [] t = refl
append-is_empty (u ∷ us) t = refl

add-is_empty : (t : Text) (us : List Text) → is_empty (add t us) ≡ false
unfolding add contains
add-is_empty t [] = refl
add-is_empty t (u ∷ us) = ground (arith, append-is_empty (u ∷ us) t)

add_kill-AllKill :
    (nodeid mutant : Text) (ts : List Test) → AllKill ts → AllKill (add_kill nodeid mutant ts)
unfolding add_kill
add_kill-AllKill nodeid mutant [] h = (refl, tt)
add_kill-AllKill nodeid mutant (t ∷ ts) (k, h) = elim (Bool-cases (same nodeid t.nodeid)) [
  | inl e ↦ rw e (add-is_empty mutant t.kills, h)
  | inr n ↦ rw n (k, add_kill-AllKill nodeid mutant ts h)
]

add_to_class-AllClassesKill :
    (class_name nodeid mutant : Text) (cs : List ClassMap)
    → AllClassesKill cs
    → AllClassesKill (add_to_class class_name nodeid mutant cs)
unfolding add_to_class
add_to_class-AllClassesKill class_name nodeid mutant [] h =
    (add_kill-AllKill nodeid mutant [] tt, tt)
add_to_class-AllClassesKill class_name nodeid mutant (c ∷ cs) (k, h) =
    elim (Bool-cases (same class_name c.class_name)) [
      | inl e ↦ rw e (add_kill-AllKill nodeid mutant c.tests k, h)
      | inr n ↦ rw n (k, add_to_class-AllClassesKill class_name nodeid mutant cs h)
    ]

add_killers-AllClassesKill :
    (mutant : Text) (killers : List Text) (cs : List ClassMap)
    → AllClassesKill cs
    → AllClassesKill (add_killers mutant killers cs)
unfolding add_killers
add_killers-AllClassesKill mutant [] cs h = h
add_killers-AllClassesKill mutant (nodeid ∷ killers) cs h =
    add_killers-AllClassesKill mutant killers (add_to_class (class_of nodeid) nodeid mutant cs)
      (add_to_class-AllClassesKill (class_of nodeid) nodeid mutant cs h)

class_kill_maps-AllClassesKill :
    (entries : List (Text × Option (List Text))) (cs : List ClassMap)
    → AllClassesKill cs
    → AllClassesKill (class_kill_maps entries cs)
unfolding class_kill_maps
class_kill_maps-AllClassesKill [] cs h = h
class_kill_maps-AllClassesKill ((mutant, none) ∷ entries) cs h =
    class_kill_maps-AllClassesKill entries cs h
class_kill_maps-AllClassesKill ((mutant, some killers) ∷ entries) cs h =
    class_kill_maps-AllClassesKill entries (add_killers mutant killers cs)
      (add_killers-AllClassesKill mutant killers cs h)

analyze_from-AllKill :
    (tests : List Test) (i : ℕ) (rest : List Test)
    → AllKill rest
    → (analyze_from tests i rest).1 ≡ []
unfolding analyze_from
analyze_from-AllKill tests i [] h = refl
analyze_from-AllKill tests i (a ∷ rest) (k, h) = rw k (analyze_from-AllKill tests (suc i) rest h)

-- No class reports a test without a kill.
abbrev pub NoneZero : List ClassMap → Type 0
NoneZero [] = Unit {0}
NoneZero (c ∷ cs) = ((analyze_class c.tests).1 ≡ []) × NoneZero cs

AllClassesKill-NoneZero : (cs : List ClassMap) → AllClassesKill cs → NoneZero cs
unfolding analyze_class
AllClassesKill-NoneZero [] h = tt
AllClassesKill-NoneZero (c ∷ cs) (k, h) =
    (analyze_from-AllKill c.tests 0 c.tests k, AllClassesKill-NoneZero cs h)

-- Whatever the killed-by data holds: a test is in the kill maps only for a mutant that it killed, so that
-- the list of tests without a kill is empty for each class.
class_kill_maps-NoneZero :
    (entries : List (Text × Option (List Text))) → NoneZero (class_kill_maps entries [])
class_kill_maps-NoneZero entries =
    AllClassesKill-NoneZero (class_kill_maps entries [])
      (class_kill_maps-AllClassesKill entries [] tt)
