-- ===== src/Reports/Superfluity/Kept.antt =====
-- Without the superfluous tests, no mutant of a class goes unkilled.
use redis_rate_limiter.Prelude.{
  ℕ, zero, suc, ◌+◌, ◌≤◌, ◌<◌, ◌≡◌, inl, inr, refl, sym, true, false, ◌||◌, Option, none, some,
  List, [], ◌∷◌, ◌==◌, if◌then◌else◌, arith, Bool-cases, Option-cases, subst, ap,
}
use redis_rate_limiter.Prelude.Text.{Text, same, same→eq}
use redis_rate_limiter.Reports.Superfluity.{
  contains, is_subset, is_proper_subset, Test, is_empty, first_subsuming, report_of,
}

abbrev pub get_elem? : List Test → ℕ → Option Test
get_elem? [] i = none
get_elem? (t ∷ ts) zero = some t
get_elem? (t ∷ ts) (suc i) = get_elem? ts i

contains-subset :
    (m : Text) (us vs : List Text)
    → is_subset us vs ≡ true
    → contains m us ≡ true
    → contains m vs ≡ true
unfolding is_subset contains
contains-subset m [] vs s h = cc
contains-subset m (u ∷ us) vs s h = elim (Bool-cases (same m u)) [
  | inl e ↦ subst (λ t. contains t vs ≡ true) (sym (same→eq m u e)) (ground arith)
  | inr n ↦ contains-subset m us vs (ground arith) (ground arith)
]

subset_trans :
    (us vs ws : List Text)
    → is_subset us vs ≡ true
    → is_subset vs ws ≡ true
    → is_subset us ws ≡ true
unfolding is_subset
subset_trans [] vs ws s t = refl
subset_trans (u ∷ us) vs ws s t =
    let member : contains u vs ≡ true = ground arith in
    let tail : is_subset us vs ≡ true = ground arith in
    rw (contains-subset u vs ws t member, subset_trans us vs ws tail t) refl

proper-subset : (us vs : List Text) → is_proper_subset us vs ≡ true → is_subset us vs ≡ true
unfolding is_proper_subset
proper-subset us vs h = ground arith

proper_trans :
    (us vs ws : List Text)
    → is_proper_subset us vs ≡ true
    → is_proper_subset vs ws ≡ true
    → is_proper_subset us ws ≡ true
unfolding is_proper_subset
proper_trans us vs ws s t = ground (arith, subset_trans us vs ws, subset_trans ws us vs)

proper_irrefl : (us : List Text) → is_proper_subset us us ≡ false
unfolding is_proper_subset
proper_irrefl us = ground arith

-- How many tests of the list kill more than these.
abbrev above : List Text → List Test → ℕ
above us [] = 0
above us (t ∷ ts) = (if is_proper_subset us t.kills then 1 else 0) + above us ts

above-le :
    (us vs : List Text) (ts : List Test) → is_proper_subset us vs ≡ true → above vs ts ≤ above us ts
above-le us vs [] p = omega arith
above-le us vs (t ∷ ts) p = ground (arith, above-le us vs ts p, proper_trans us vs t.kills p)

-- A test above has fewer above it.
above-lt :
    (us : List Text) (b : Test) (n : ℕ) (ts : List Test)
    → get_elem? ts n ≡ some b
    → is_proper_subset us b.kills ≡ true
    → above b.kills ts < above us ts
above-lt us b n [] at p = cc
above-lt us b zero (t ∷ ts) at p = ground (arith, above-le us b.kills ts p, proper_irrefl b.kills)
above-lt us b (suc n) (t ∷ ts) at p =
    ground (arith, above-lt us b n ts at p, proper_trans us b.kills t.kills p)

-- The test is that of the list's head, or of its rest.
found_later :
    (us : List Text) (t : Test) (ts : List Test) (b : Test)
    → (is_proper_subset us b.kills ≡ true) × ((n : ℕ) × (get_elem? ts n ≡ some b))
    → (is_proper_subset us b.kills ≡ true) × ((n : ℕ) × (get_elem? (t ∷ ts) n ≡ some b))
found_later us t ts b (proper, (n, at)) = (proper, (suc n, at))

-- What the inner loop finds is a test of the list that kills more.
first_subsuming_lem :
    (i j : ℕ) (us : List Text) (ts : List Test) (b : Test)
    → first_subsuming i us j ts ≡ some b
    → (is_proper_subset us b.kills ≡ true) × ((n : ℕ) × (get_elem? ts n ≡ some b))
unfolding first_subsuming
first_subsuming_lem i j us [] b h = cc
first_subsuming_lem i j us (t ∷ ts) b h = elim (Bool-cases (i == j || is_empty t.kills)) [
  | inl skipped ↦ found_later us t ts b (first_subsuming_lem i (suc j) us ts b (ground arith))
  | inr tried ↦ elim (Bool-cases (is_proper_subset us t.kills)) [
    | inl proper ↦
        let e : t ≡ b = ground arith in
        (subst (λ (u : Test). is_proper_subset us u.kills ≡ true) e proper, (zero, ap some e))
    | inr other ↦ found_later us t ts b (first_subsuming_lem i (suc j) us ts b (ground arith))
  ]
]

-- A test whose report is empty, and that kills the mutant.
abbrev pub KeptKiller : Text → List Test → Type 0
KeptKiller m tests =
    (i : ℕ) × (a : Test) × (get_elem? tests i ≡ some a)
    × (report_of tests i a ≡ none)
    × (contains m a.kills ≡ true)

report_of-none :
    (tests : List Test) (i : ℕ) (a : Test)
    → first_subsuming i a.kills 0 tests ≡ none
    → report_of tests i a ≡ none
unfolding report_of
report_of-none tests i a e = ground arith

kept_killer :
    (fuel : ℕ) (m : Text) (tests : List Test) (i : ℕ) (a : Test)
    → above a.kills tests < fuel
    → get_elem? tests i ≡ some a
    → contains m a.kills ≡ true
    → KeptKiller m tests
kept_killer zero m tests i a h at killed = elim h [ ]
kept_killer (suc fuel) m tests i a h at killed =
    elim (Option-cases (first_subsuming i a.kills 0 tests)) [
      | inl e ↦ (i, a, at, report_of-none tests i a e, killed)
      | inr (b, e) ↦
          let (proper, (n, there)) = first_subsuming_lem i 0 a.kills tests b e in
          kept_killer fuel m tests n b (omega (arith, above-lt a.kills b n tests there proper))
            there (contains-subset m a.kills b.kills (proper-subset a.kills b.kills proper) killed)
    ]

-- Without the superfluous tests, no mutant of a class goes unkilled: a mutant that a test kills is
-- killed by a test of the class that is not reported as superfluous.
pub report_of-kept :
    (m : Text) (tests : List Test) (i : ℕ) (a : Test)
    → get_elem? tests i ≡ some a
    → contains m a.kills ≡ true
    → KeptKiller m tests
report_of-kept m tests i a at killed =
    kept_killer (suc (above a.kills tests)) m tests i a (omega arith) at killed
