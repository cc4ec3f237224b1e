-- ===== src/Poll/Examples.antt =====
-- The theorem on polling at a concrete input.
use gopcda.Prelude.{ℕ, ◌+◌, ◌*◌, ◌≤◌, ◌≡◌, refl, none, some, List, [], ◌∷◌, arith}
use gopcda.Prelude.Int.{ℤ}
use gopcda.Errors.{cancelled}
use gopcda.Result.{ok}
use gopcda.Quality.{quality_is_good}
use gopcda.Poll.{
  Cycle, PollConfig, Report, count_sample, count_samples, run_cycle, run_cycles, first_error,
  sort_durations, insert_duration, report_of, poll,
}
use gopcda.Poll.Counts.{SortedDurations, IsPercentile, IsMaximum, poll-IsReport}

abbrev config : PollConfig
config = record { ids = 2; interval = 10; cycles = 2 }

-- A failed sample, and a bad one.
abbrev cycles : ℕ → Cycle
cycles i = record {
  waiting = none;
  values = ok (
      record { error = some cancelled; quality = ℤ.pos 0 }
      ∷ record { error = none; quality = ℤ.pos 0 }
      ∷ []);
  elapsed = 11;
}

abbrev report : Report
report = record {
  items = 2;
  cycles = 2;
  p95 = some 11;
  max = some 11;
  missed = 2;
  good = 0;
  bad = 2;
  failed = 2;
}

poll-IsReport_example :
    (report.good + report.bad + report.failed ≡ config.cycles * config.ids)
    × (report.missed ≤ config.cycles)
    × ((sorted : List ℕ) × SortedDurations config.cycles cycles sorted
        × IsPercentile config.cycles sorted report.p95
        × IsMaximum config.cycles sorted report.max)
unfolding poll first_error run_cycles run_cycle count_samples count_sample quality_is_good report_of
    sort_durations insert_duration
poll-IsReport_example =
    poll-IsReport config (ok (none ∷ none ∷ [])) cycles report (omega arith) refl
