-- ===== src/Reports/Timeline/Intervals.antt =====
-- Each interval of one process begins at a start event and ends no earlier.
use redis_rate_limiter.Prelude.{
  ℕ, zero, suc, ◌≤◌, ◌≡◌, ◌⊎◌, inl, inr, refl, Bool, true, false, not, ◌&&◌, Option, none, some,
  List, [], ◌∷◌, leb, if◌then◌else◌, length, arith, Bool-cases, ap,
}
use redis_rate_limiter.Prelude.Text.{Text}
use redis_rate_limiter.Reports.Timeline.{
  Event, Interval, same_id, is_start, is_finish, is_heartbeat, insert_event, sort_events, last_kill,
  parent_killed, Scan, scan, end_of, interval_of, walk, pid_intervals,
}

-- Each happened no earlier than the time.
abbrev pub AllSince : ℕ → List Event → Type 0
AllSince n [] = Unit {0}
AllSince n (e ∷ es) = (n ≤ e.mono) × AllSince n es

abbrev pub IsOrdered : List Event → Type 0
IsOrdered [] = Unit {0}
IsOrdered (e ∷ es) = AllSince e.mono es × IsOrdered es

abbrev SinceOption : ℕ → Option Event → Type 0
SinceOption n none = Unit {0}
SinceOption n (some e) = n ≤ e.mono

-- What the inner loop finds happened after the start, and where it stops is a part of the list.
record IsScan (n len : ℕ) (s : Scan) : Type 0 where
  pub ends : SinceOption n s.end_event
  pub beats : SinceOption n s.last_heartbeat
  pub since : AllSince n s.rest
  pub ordered : IsOrdered s.rest
  pub shorter : length s.rest ≤ len

beat-since :
    (n : ℕ) (own : Bool) (e : Event) (beat : Option Event)
    → n ≤ e.mono
    → SinceOption n beat
    → SinceOption n (if own then some e else beat)
beat-since n true e beat h b = h
beat-since n false e beat h b = b

scan-IsScan :
    (n : ℕ) (nodeid : Option Text) (beat : Option Event) (es : List Event)
    → AllSince n es
    → IsOrdered es
    → SinceOption n beat
    → IsScan n (length es) (scan nodeid beat es)
unfolding scan
scan-IsScan n nodeid beat [] a o b = record {
  ends = tt;
  beats = b;
  since = tt;
  ordered = tt;
  shorter = omega arith;
}
scan-IsScan n nodeid beat (e ∷ es) (h, a) (p, o) b =
    let own : Bool = same_id e.nodeid nodeid in
    let here : (found : Option Event)
        → SinceOption n found
        → IsScan n (suc (length es))
            (record { end_event = found; last_heartbeat = beat; rest = e ∷ es }) =
      λ found f. record {
        ends = f;
        beats = b;
        since = (h, a);
        ordered = (p, o);
        shorter = omega arith;
      } in
    elim (Bool-cases (own && is_finish e.kind)) [
      | inl ends ↦ rw ends (here (some e) h)
      | inr on ↦ elim (Bool-cases (is_start e.kind && not own)) [
        | inl next ↦ rw (on, next) (here none tt)
        | inr more ↦
            let later =
              scan-IsScan n nodeid (if own && is_heartbeat e.kind then some e else beat) es a o
                (beat-since n (own && is_heartbeat e.kind) e beat h b) in
            rw (on, more)
              (record {
                ends = later.ends;
                beats = later.beats;
                since = later.since;
                ordered = later.ordered;
                shorter = omega (arith, later.shorter);
              })
      ]
    ]

-- It ends no earlier than it starts, unless the process was killed.
abbrev pub IsForward : Interval → Type 0
IsForward r = (r.start_mono ≤ r.end_mono) ⊎ (r.end_kind ≡ parent_killed)

abbrev pub AllForward : List Interval → Type 0
AllForward [] = Unit {0}
AllForward (r ∷ rs) = IsForward r × AllForward rs

end_of_forward :
    (ev : Event) (found kill beat : Option Event)
    → SinceOption ev.mono found
    → SinceOption ev.mono beat
    → (ev.mono ≤ (end_of ev found kill beat).0.mono)
      ⊎ ((end_of ev found kill beat).1 ≡ parent_killed)
end_of_forward ev (some e) kill beat f b = inl f
end_of_forward ev none (some k) beat f b = inr refl
end_of_forward ev none none (some e) f b = inl b
end_of_forward ev none none none f b = inl (omega arith)

walk-AllForward :
    (fuel : ℕ) (kill : Option Event) (es : List Event)
    → IsOrdered es
    → AllForward (walk fuel kill es)
unfolding walk interval_of
walk-AllForward zero kill es o = tt
walk-AllForward (suc fuel) kill [] o = tt
walk-AllForward (suc fuel) kill (ev ∷ es) (a, o) =
    let s = scan-IsScan ev.mono ev.nodeid none es a o tt in
    elim (Bool-cases (is_start ev.kind)) [
      | inl starts ↦ rw starts (
        end_of_forward ev (scan ev.nodeid none es).end_event kill
            (scan ev.nodeid none es).last_heartbeat s.ends s.beats,
        walk-AllForward fuel kill (scan ev.nodeid none es).rest s.ordered,
      )
      | inr other ↦ rw other (walk-AllForward fuel kill es o)
    ]

AllSince-mono : (m n : ℕ) (es : List Event) → m ≤ n → AllSince n es → AllSince m es
AllSince-mono m n [] h a = tt
AllSince-mono m n (e ∷ es) h (k, a) = (omega arith, AllSince-mono m n es h a)

AllSince-insert :
    (n : ℕ) (e : Event) (es : List Event)
    → n ≤ e.mono
    → AllSince n es
    → AllSince n (insert_event e es)
unfolding insert_event
AllSince-insert n e [] h a = (h, tt)
AllSince-insert n e (f ∷ fs) h (k, a) = elim (Bool-cases (leb e.mono f.mono)) [
  | inl c ↦ rw c (h, (k, a))
  | inr c ↦ rw c (k, AllSince-insert n e fs h a)
]

insert-IsOrdered : (e : Event) (es : List Event) → IsOrdered es → IsOrdered (insert_event e es)
unfolding insert_event
insert-IsOrdered e [] o = (tt, tt)
insert-IsOrdered e (f ∷ fs) (a, o) = elim (Bool-cases (leb e.mono f.mono)) [
  | inl c ↦
      let h : e.mono ≤ f.mono = ground arith in
      rw c ((h, AllSince-mono e.mono f.mono fs h a), (a, o))
  | inr c ↦ rw c (AllSince-insert f.mono e fs (ground arith) a, insert-IsOrdered e fs o)
]

sort-IsOrdered : (es : List Event) → IsOrdered (sort_events es)
unfolding sort_events
sort-IsOrdered [] = tt
sort-IsOrdered (e ∷ es) = insert-IsOrdered e (sort_events es) (sort-IsOrdered es)

-- As many rounds as there are events are enough: more give the same.
walk_fuel :
    (fuel : ℕ) (kill : Option Event) (es : List Event)
    → length es ≤ fuel
    → IsOrdered es
    → walk (suc fuel) kill es ≡ walk fuel kill es
unfolding walk
walk_fuel zero kill [] h o = refl
walk_fuel zero kill (ev ∷ es) h o = absurd (omega arith)
walk_fuel (suc fuel) kill [] h o = refl
walk_fuel (suc fuel) kill (ev ∷ es) h (a, o) =
    let s = scan-IsScan ev.mono ev.nodeid none es a o tt in
    elim (Bool-cases (is_start ev.kind)) [
      | inl starts ↦ rw starts (
          ap (λ (rs : List Interval). interval_of ev kill (scan ev.nodeid none es) ∷ rs)
            (walk_fuel fuel kill (scan ev.nodeid none es).rest (omega (arith, s.shorter))
              s.ordered))
      | inr other ↦ rw other (walk_fuel fuel kill es (omega arith) o)
    ]

-- Whatever the events of a process are, in whatever order: each of its intervals ends no earlier than
-- it starts, unless the process was killed; and one more round of the loop would find no more.
pid_intervals-AllForward :
    (es : List Event)
    → AllForward (pid_intervals es)
      × (walk (suc (length (sort_events es))) (last_kill (sort_events es)) (sort_events es)
          ≡ pid_intervals es)
unfolding pid_intervals
pid_intervals-AllForward es =
    let o = sort-IsOrdered es in
    (
      walk-AllForward (length (sort_events es)) (last_kill (sort_events es)) (sort_events es) o,
      walk_fuel (length (sort_events es)) (last_kill (sort_events es)) (sort_events es)
          (omega arith) o,
    )
