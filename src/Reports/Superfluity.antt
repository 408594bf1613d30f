-- ===== src/Reports/Superfluity.antt =====
-- _extract_test_class and _analyze_superfluity of src/scripts/analyze_superfluity.py: which tests of a class
-- kill no mutant that another one does not. Dictionaries are lists in the order of insertion, and sets are
-- lists without repetition.
pub mod Kept
pub mod Kills
use redis_rate_limiter.Prelude.{
  ℕ, zero, suc, ◌+◌, Bool, true, false, not, ◌&&◌, ◌||◌, Option, none, some, List, [], ◌∷◌, ◌++◌,
  ◌==◌, if◌then◌else◌, length,
}
use redis_rate_limiter.Prelude.Text.{Text, codes, same}

-- name in names
unfoldable pub contains : Text → List Text → Bool
contains t [] = false
contains t (u ∷ us) = same t u || contains t us

-- all names of the first are in the second
unfoldable pub is_subset : List Text → List Text → Bool
unfolding contains
is_subset [] vs = true
is_subset (u ∷ us) vs = contains u vs && is_subset us vs

-- kills_a < kills_b
unfoldable pub is_proper_subset : List Text → List Text → Bool
unfolding is_subset
is_proper_subset us vs = is_subset us vs && not (is_subset vs us)

-- names.add(name)
unfoldable pub add : Text → List Text → List Text
unfolding contains
add t us = if contains t us then us else us ++ t ∷ []

-- The part of the text before the first "::", and the rest behind it, if there is one.
unfoldable pub cut : Text → Text × Option Text
cut [] = ([], none)
cut (c ∷ []) = (c ∷ [], none)
cut (c ∷ d ∷ rest) =
    let (part, more) = cut (d ∷ rest) in
    if c == b':' && d == b':' then ([], some rest) else (c ∷ part, more)

-- nodeid.split("::")[1], if there are three parts or more
unfoldable pub extract_test_class : Text → Option Text
unfolding cut
extract_test_class nodeid = elim (cut nodeid).1 [
  | none ↦ none
  | some rest ↦
      let (class_name, more) = cut rest in elim more [ none ↦ none | some method ↦ some class_name ]
]

-- test_class, with the name of tests without a class
unfoldable pub class_of : Text → Text
unfolding extract_test_class
class_of nodeid = elim (extract_test_class nodeid) [
  | none ↦ codes "<module-level>"
  | some class_name ↦ class_name
]

-- An entry of a class's kill map.
pub record Test : Type 0 where
  pub nodeid : Text
  pub kills : List Text

-- kill_map[test_nodeid].add(mutant_name)
unfoldable pub add_kill : Text → Text → List Test → List Test
unfolding add
add_kill nodeid mutant [] = record { nodeid = nodeid; kills = mutant ∷ [] } ∷ []
add_kill nodeid mutant (t ∷ ts) =
    if same nodeid t.nodeid
    then record t { kills = add mutant t.kills } ∷ ts
    else t ∷ add_kill nodeid mutant ts

pub record ClassMap : Type 0 where
  pub class_name : Text
  pub tests : List Test

-- class_kill_maps[test_class][test_nodeid].add(mutant_name)
unfoldable pub add_to_class : Text → Text → Text → List ClassMap → List ClassMap
unfolding add_kill
add_to_class class_name nodeid mutant [] =
    record { class_name = class_name; tests = add_kill nodeid mutant [] } ∷ []
add_to_class class_name nodeid mutant (c ∷ cs) =
    if same class_name c.class_name
    then record c { tests = add_kill nodeid mutant c.tests } ∷ cs
    else c ∷ add_to_class class_name nodeid mutant cs

-- The killers of one mutant.
unfoldable pub add_killers : Text → List Text → List ClassMap → List ClassMap
unfolding add_to_class class_of
add_killers mutant [] maps = maps
add_killers mutant (nodeid ∷ killers) maps =
    add_killers mutant killers (add_to_class (class_of nodeid) nodeid mutant maps)

-- The killed_by data: each mutant with its killers; `none` stands for a value that is no list.
unfoldable pub class_kill_maps : List (Text × Option (List Text)) → List ClassMap → List ClassMap
unfolding add_killers
class_kill_maps [] maps = maps
class_kill_maps ((mutant, none) ∷ entries) maps = class_kill_maps entries maps
class_kill_maps ((mutant, some killers) ∷ entries) maps =
    class_kill_maps entries (add_killers mutant killers maps)

abbrev pub is_empty : List Text → Bool
is_empty [] = true
is_empty (u ∷ us) = false

-- The inner loop: the first test that subsumes test number `i`, from number `j` on.
unfoldable pub first_subsuming : ℕ → List Text → ℕ → List Test → Option Test
unfolding is_proper_subset
first_subsuming i kills j [] = none
first_subsuming i kills j (b ∷ rest) =
    let later = first_subsuming i kills (suc j) rest in
    if i == j || is_empty b.kills
    then later
    else if is_proper_subset kills b.kills
    then some b
    else later

pub record Superfluous : Type 0 where
  pub test : Text
  pub kills : ℕ
  pub subsumed_by : Text
  pub subsumed_by_kills : ℕ

-- What test number `i` adds to the report.
unfoldable pub report_of : List Test → ℕ → Test → Option Superfluous
unfolding first_subsuming
report_of tests i a = if is_empty a.kills then none else elim (first_subsuming i a.kills 0 tests) [
  | none ↦ none
  | some b ↦ some (record {
    test = a.nodeid;
    kills = length a.kills;
    subsumed_by = b.nodeid;
    subsumed_by_kills = length b.kills;
  })
]

abbrev pub add_report : Option Superfluous → List Superfluous → List Superfluous
add_report none reports = reports
add_report (some report) reports = report ∷ reports

-- The outer loop, from test number `i` on: the superfluous tests and those without a kill.
unfoldable pub analyze_from : List Test → ℕ → List Test → List Superfluous × List Text
unfolding report_of
analyze_from tests i [] = ([], [])
analyze_from tests i (a ∷ rest) =
    let (superfluous, zero_kill) = analyze_from tests (suc i) rest in
    (
      add_report (report_of tests i a) superfluous,
      if is_empty a.kills then a.nodeid ∷ zero_kill else zero_kill,
    )

-- The analysis of one class.
unfoldable pub analyze_class : List Test → List Superfluous × List Text
unfolding analyze_from
analyze_class tests = analyze_from tests 0 tests

-- total_superfluous_tests
unfoldable pub total_superfluous : List ClassMap → ℕ
unfolding analyze_class
total_superfluous [] = 0
total_superfluous (c ∷ cs) = length (analyze_class c.tests).0 + total_superfluous cs
