-- ===== src/Reports/Timeline/Overlaps.antt =====
-- The overlaps are all the overlaps: the loop that stops early misses none.
use redis_rate_limiter.Prelude.{
  ℕ, ◌≤◌, ◌≡◌, refl, not, ◌&&◌, List, [], ◌∷◌, ◌++◌, ltb, leb, ◌==◌, if◌then◌else◌, arith,
  Bool-cases, inl, inr,
}
use redis_rate_limiter.Reports.Timeline.{
  Interval, insert_interval, sort_intervals, Overlap, overlap_of, overlaps_with, overlaps_of,
  detect_cross_pid_overlaps,
}

-- Every interval of the list that is of another process and starts before the end of `a`.
unfoldable pub every_overlap : Interval → List Interval → List Overlap
unfolding overlap_of
every_overlap a [] = []
every_overlap a (b ∷ rest) =
    if ltb b.start_mono a.end_mono && not (a.pid == b.pid)
    then overlap_of a b ∷ every_overlap a rest
    else every_overlap a rest

-- All pairs of the list.
unfoldable pub every_pair : List Interval → List Overlap
unfolding every_overlap
every_pair [] = []
every_pair (a ∷ rest) = every_overlap a rest ++ every_pair rest

-- Each starts no earlier than the time.
abbrev pub AllFrom : ℕ → List Interval → Type 0
AllFrom n [] = Unit {0}
AllFrom n (r ∷ rs) = (n ≤ r.start_mono) × AllFrom n rs

abbrev pub IsSorted : List Interval → Type 0
IsSorted [] = Unit {0}
IsSorted (r ∷ rs) = AllFrom r.start_mono rs × IsSorted rs

AllFrom-mono : (m n : ℕ) (rs : List Interval) → m ≤ n → AllFrom n rs → AllFrom m rs
AllFrom-mono m n [] h a = tt
AllFrom-mono m n (r ∷ rs) h (k, a) = (omega arith, AllFrom-mono m n rs h a)

AllFrom-insert :
    (n : ℕ) (r : Interval) (rs : List Interval)
    → n ≤ r.start_mono
    → AllFrom n rs
    → AllFrom n (insert_interval r rs)
unfolding insert_interval
AllFrom-insert n r [] h a = (h, tt)
AllFrom-insert n r (q ∷ qs) h (k, a) = elim (Bool-cases (leb r.start_mono q.start_mono)) [
  | inl e ↦ rw e (h, (k, a))
  | inr e ↦ rw e (k, AllFrom-insert n r qs h a)
]

insert-IsSorted :
    (r : Interval) (rs : List Interval) → IsSorted rs → IsSorted (insert_interval r rs)
unfolding insert_interval
insert-IsSorted r [] s = (tt, tt)
insert-IsSorted r (q ∷ qs) (a, s) = elim (Bool-cases (leb r.start_mono q.start_mono)) [
  | inl e ↦
      let h : r.start_mono ≤ q.start_mono = ground arith in
      rw e ((h, AllFrom-mono r.start_mono q.start_mono qs h a), (a, s))
  | inr e ↦ rw e (AllFrom-insert q.start_mono r qs (ground arith) a, insert-IsSorted r qs s)
]

pub sort-IsSorted : (rs : List Interval) → IsSorted (sort_intervals rs)
unfolding sort_intervals
sort-IsSorted [] = tt
sort-IsSorted (r ∷ rs) = insert-IsSorted r (sort_intervals rs) (sort-IsSorted rs)

-- Behind an interval that starts too late, none overlaps.
none_later :
    (a : Interval) (n : ℕ) (rs : List Interval)
    → a.end_mono ≤ n
    → AllFrom n rs
    → every_overlap a rs ≡ []
unfolding every_overlap
none_later a n [] h f = refl
none_later a n (r ∷ rs) h (k, f) = ground (arith, none_later a n rs h f)

overlaps_with-eq :
    (a : Interval) (rs : List Interval) → IsSorted rs → overlaps_with a rs ≡ every_overlap a rs
unfolding overlaps_with every_overlap
overlaps_with-eq a [] s = refl
overlaps_with-eq a (b ∷ rest) (f, s) = ground (
  arith,
  overlaps_with-eq a rest s,
  λ (h : a.end_mono ≤ b.start_mono). none_later a b.start_mono rest h f,
)

overlaps_of-eq : (rs : List Interval) → IsSorted rs → overlaps_of rs ≡ every_pair rs
unfolding overlaps_of every_pair
overlaps_of-eq [] s = refl
overlaps_of-eq (a ∷ rest) (f, s) = rw (overlaps_with-eq a rest s, overlaps_of-eq rest s) refl

-- The loop that breaks at the first interval that starts too late finds, for any records, what a
-- comparison of all pairs of the sorted records finds, in the same order; and the records that it
-- compares are sorted by their start.
pub detect_cross_pid_overlaps-eq :
    (records : List Interval)
    → (detect_cross_pid_overlaps records ≡ every_pair (sort_intervals records))
      × IsSorted (sort_intervals records)
unfolding detect_cross_pid_overlaps
detect_cross_pid_overlaps-eq records =
    (overlaps_of-eq (sort_intervals records) (sort-IsSorted records), sort-IsSorted records)
