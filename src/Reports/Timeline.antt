-- ===== src/Reports/Timeline.antt =====
-- _build_test_intervals and _detect_cross_pid_overlaps of src/scripts/generate_mutmut_report.py: when each
-- test ran in each process, from the events of a run, and which tests of different processes ran at the
-- same time. Times are whole units of the clocks.
pub mod Overlaps
pub mod Intervals
use redis_rate_limiter.Prelude.{
  ℕ, zero, suc, ◌+◌, Bool, true, false, not, ◌&&◌, ◌||◌, Option, none, some, List, [], ◌∷◌, ◌++◌,
  ltb, leb, ◌==◌, max, min, if◌then◌else◌, length,
}
use redis_rate_limiter.Prelude.Int.{ℤ, pos, ◌-ℤ◌}
use redis_rate_limiter.Prelude.Text.{Text, same}

-- ev["event"]
pub data Kind : Type 0 where
  start finish heartbeat process_killed other : Kind

pub record Event : Type 0 where
  pub kind : Kind
  pub pid : ℕ
  pub mono : ℕ
  pub ts : ℕ
  pub nodeid : Option Text
  pub mutant_id : Text

pub data EndKind : Type 0 where
  completed parent_killed at_last_heartbeat no_end : EndKind

pub record Interval : Type 0 where
  pub pid : ℕ
  pub mutant_id : Text
  pub nodeid : Option Text
  pub start_mono : ℕ
  pub start_ts : ℕ
  pub end_mono : ℕ
  pub end_ts : ℕ
  pub end_kind : EndKind
  pub last_heartbeat_mono : Option ℕ

abbrev pub same_id : Option Text → Option Text → Bool
same_id none none = true
same_id none (some t) = false
same_id (some t) none = false
same_id (some t) (some u) = same t u

abbrev pub is_start : Kind → Bool
is_start start = true
is_start _ = false

abbrev pub is_finish : Kind → Bool
is_finish finish = true
is_finish _ = false

abbrev pub is_heartbeat : Kind → Bool
is_heartbeat heartbeat = true
is_heartbeat _ = false

abbrev pub is_kill : Kind → Bool
is_kill process_killed = true
is_kill _ = false

-- pid_events.sort(key=lambda e: e["mono"]), which is stable
unfoldable pub insert_event : Event → List Event → List Event
insert_event e [] = e ∷ []
insert_event e (f ∷ fs) = if leb e.mono f.mono then e ∷ f ∷ fs else f ∷ insert_event e fs

unfoldable pub sort_events : List Event → List Event
unfolding insert_event
sort_events [] = []
sort_events (e ∷ es) = insert_event e (sort_events es)

-- The last process_killed.
unfoldable pub last_kill : List Event → Option Event
last_kill [] = none
last_kill (e ∷ es) = elim (last_kill es) [
  | some k ↦ some k
  | none ↦ if is_kill e.kind then some e else none
]

-- What the inner loop has found: the end, the last heartbeat, and where it stopped.
pub record Scan : Type 0 where
  pub end_event : Option Event
  pub last_heartbeat : Option Event
  pub rest : List Event

-- The inner loop, from the event after the start on.
unfoldable pub scan : Option Text → Option Event → List Event → Scan
scan nodeid beat [] = record { end_event = none; last_heartbeat = beat; rest = [] }
scan nodeid beat (later ∷ es) =
    let own = same_id later.nodeid nodeid in
    let onward = scan nodeid (if own && is_heartbeat later.kind then some later else beat) es in
    if own && is_finish later.kind
    then record { end_event = some later; last_heartbeat = beat; rest = later ∷ es }
    else if is_start later.kind && not own
    then record { end_event = none; last_heartbeat = beat; rest = later ∷ es }
    else onward

abbrev pub mono_of : Option Event → Option ℕ
mono_of none = none
mono_of (some e) = some e.mono

-- The effective end, and its kind.
abbrev pub end_of : Event → Option Event → Option Event → Option Event → Event × EndKind
end_of ev (some e) kill beat = (e, completed)
end_of ev none (some k) beat = (k, parent_killed)
end_of ev none none (some b) = (b, at_last_heartbeat)
end_of ev none none none = (ev, no_end)

unfoldable pub interval_of : Event → Option Event → Scan → Interval
interval_of ev kill s =
    let (last, kind) = end_of ev s.end_event kill s.last_heartbeat in
    record {
      pid = ev.pid;
      mutant_id = ev.mutant_id;
      nodeid = ev.nodeid;
      start_mono = ev.mono;
      start_ts = ev.ts;
      end_mono = last.mono;
      end_ts = last.ts;
      end_kind = kind;
      last_heartbeat_mono = mono_of s.last_heartbeat;
    }

-- The outer loop over the events of one process. The inner loop stops at an event behind the start, so
-- that as many rounds are enough as there are events.
unfoldable pub walk : ℕ → Option Event → List Event → List Interval
unfolding scan interval_of
walk zero kill es = []
walk (suc fuel) kill [] = []
walk (suc fuel) kill (ev ∷ es) =
    let s = scan ev.nodeid none es in
    let skipped = walk fuel kill es in
    let found = interval_of ev kill s ∷ walk fuel kill s.rest in
    if is_start ev.kind then found else skipped

-- The records of one process.
unfoldable pub pid_intervals : List Event → List Interval
unfolding walk sort_events last_kill
pid_intervals es = let sorted = sort_events es in walk (length sorted) (last_kill sorted) sorted

-- by_pid.setdefault(ev["pid"], []).append(ev)
unfoldable pub add_event : Event → List (ℕ × List Event) → List (ℕ × List Event)
add_event e [] = (e.pid, e ∷ []) ∷ []
add_event e ((pid, es) ∷ rest) =
    if e.pid == pid then (pid, es ++ e ∷ []) ∷ rest else (pid, es) ∷ add_event e rest

unfoldable pub group_events : List Event → List (ℕ × List Event) → List (ℕ × List Event)
unfolding add_event
group_events [] groups = groups
group_events (e ∷ es) groups = group_events es (add_event e groups)

unfoldable pub all_intervals : List (ℕ × List Event) → List Interval
unfolding pid_intervals
all_intervals [] = []
all_intervals ((pid, es) ∷ rest) = pid_intervals es ++ all_intervals rest

-- records.sort(key=lambda r: r["start_mono"])
unfoldable pub insert_interval : Interval → List Interval → List Interval
insert_interval r [] = r ∷ []
insert_interval r (q ∷ qs) =
    if leb r.start_mono q.start_mono then r ∷ q ∷ qs else q ∷ insert_interval r qs

unfoldable pub sort_intervals : List Interval → List Interval
unfolding insert_interval
sort_intervals [] = []
sort_intervals (r ∷ rs) = insert_interval r (sort_intervals rs)

-- _build_test_intervals
unfoldable pub build_test_intervals : List Event → List Interval
unfolding group_events all_intervals sort_intervals
build_test_intervals events = sort_intervals (all_intervals (group_events events []))

pub record Overlap : Type 0 where
  pub a_pid : ℕ
  pub a_mutant : Text
  pub a_nodeid : Option Text
  pub b_pid : ℕ
  pub b_mutant : Text
  pub b_nodeid : Option Text
  pub overlap : ℤ

unfoldable pub overlap_of : Interval → Interval → Overlap
overlap_of a b = record {
  a_pid = a.pid;
  a_mutant = a.mutant_id;
  a_nodeid = a.nodeid;
  b_pid = b.pid;
  b_mutant = b.mutant_id;
  b_nodeid = b.nodeid;
  overlap = pos (min a.end_mono b.end_mono) -ℤ pos (max a.start_mono b.start_mono);
}

-- The inner loop, which breaks at the first interval that starts too late.
unfoldable pub overlaps_with : Interval → List Interval → List Overlap
unfolding overlap_of
overlaps_with a [] = []
overlaps_with a (b ∷ rest) =
    let later = overlaps_with a rest in
    if leb a.end_mono b.start_mono
    then []
    else if a.pid == b.pid
    then later
    else overlap_of a b ∷ later

unfoldable pub overlaps_of : List Interval → List Overlap
unfolding overlaps_with
overlaps_of [] = []
overlaps_of (a ∷ rest) = overlaps_with a rest ++ overlaps_of rest

-- _detect_cross_pid_overlaps
unfoldable pub detect_cross_pid_overlaps : List Interval → List Overlap
unfolding sort_intervals overlaps_of
detect_cross_pid_overlaps records = overlaps_of (sort_intervals records)
