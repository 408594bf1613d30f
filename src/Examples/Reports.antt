-- ===== src/Examples/Reports.antt =====
-- The repository's reports on small records of runs.
use redis_rate_limiter.Prelude.{ℕ, ◌≡◌, refl, none, some, List, [], ◌∷◌}
use redis_rate_limiter.Prelude.Text.{codes}
use redis_rate_limiter.Reports.Superfluity.{Test, contains}
use redis_rate_limiter.Reports.Superfluity.Kept.{KeptKiller, report_of-kept}
use redis_rate_limiter.Reports.Timeline.{
  Event, start, finish, Interval, completed, sort_intervals, detect_cross_pid_overlaps,
}
use redis_rate_limiter.Reports.Timeline.Overlaps.{
  every_pair, IsSorted, detect_cross_pid_overlaps-eq,
}

-- The first test kills less than the second.
abbrev two_tests : List Test
two_tests =
    record { nodeid = codes "t::C::a"; kills = codes "m" ∷ [] }
    ∷ record { nodeid = codes "t::C::b"; kills = codes "n" ∷ codes "m" ∷ [] }
    ∷ []

report_of-kept_example : KeptKiller (codes "m") two_tests
unfolding contains
report_of-kept_example =
    report_of-kept (codes "m") two_tests 0
      (record { nodeid = codes "t::C::a"; kills = codes "m" ∷ [] }) refl refl

-- A test of one process, from 3 to 8.
abbrev test_events : List Event
test_events =
    record {
      kind = finish;
      pid = 1;
      mono = 8;
      ts = 8;
      nodeid = some (codes "a");
      mutant_id = codes "m";
    }
    ∷ record {
      kind = start;
      pid = 1;
      mono = 3;
      ts = 3;
      nodeid = some (codes "a");
      mutant_id = codes "m";
    }
    ∷ []

abbrev run_of : ℕ → ℕ → ℕ → Interval
run_of pid from to = record {
  pid = pid;
  mutant_id = codes "m";
  nodeid = none;
  start_mono = from;
  start_ts = from;
  end_mono = to;
  end_ts = to;
  end_kind = completed;
  last_heartbeat_mono = none;
}

abbrev runs : List Interval
runs = run_of 1 5 9 ∷ run_of 2 3 6 ∷ run_of 3 20 30 ∷ []

detect_cross_pid_overlaps-eq_example :
    (detect_cross_pid_overlaps runs ≡ every_pair (sort_intervals runs))
    × IsSorted (sort_intervals runs)
detect_cross_pid_overlaps-eq_example = detect_cross_pid_overlaps-eq runs
