-- ===== src/Poll.antt =====
-- cmd/opcda/poll.go: runPoll, which reads a group in cycles and counts its samples. A duration is a
-- number of nanoseconds; its conversion into milliseconds as a float64, the mean, and the texts
-- printed are not modelled.
pub mod Sorted
pub mod Counts
pub mod Examples
use gopcda.Prelude.{
  ℕ, zero, suc, ◌+◌, ◌-◌, ◌*◌, ◌/◌, Bool, true, false, not, Option, none, some, List, [], ◌∷◌, ◌++◌,
  length, get_elem?, ltb, ◌==◌, if◌then◌else◌,
}
use gopcda.Prelude.Int.{ℤ}
use gopcda.Errors.{Error, message, wrapped, join}
use gopcda.Result.{Result, ok, err, refuse, ◌>>=◌, ◌>>◌}
use gopcda.Quality.{quality_is_good}

-- What a cycle reads of a ReadResult.
pub record Sample : Type 0 where
  pub error : Option Error
  pub quality : ℤ

-- A cycle: the context's error while it waits for the ticker, what Read gives, and how long it took.
pub record Cycle : Type 0 where
  pub waiting : Option Error
  pub values : Result (List Sample)
  pub elapsed : ℕ

-- The variables of the loop.
pub record Tally : Type 0 where
  pub durations : List ℕ
  pub missed : ℕ
  pub good : ℕ
  pub bad : ℕ
  pub failed : ℕ

abbrev pub new_tally : Tally
new_tally = record { durations = []; missed = 0; good = 0; bad = 0; failed = 0 }

-- The body of the loop over the values.
unfoldable pub count_sample : Sample → Tally → Tally
unfolding quality_is_good
count_sample v t = elim v.error [
  | some e ↦ record t { failed = suc t.failed }
  | none ↦
      if quality_is_good v.quality
      then record t { good = suc t.good }
      else record t { bad = suc t.bad }
]

unfoldable pub count_samples : List Sample → Tally → Tally
unfolding count_sample
count_samples [] t = t
count_samples (v ∷ vs) t = count_samples vs (count_sample v t)

-- One cycle after its wait, with `expected` items and the interval.
unfoldable pub run_cycle : ℕ → ℕ → Cycle → Tally → Result Tally
unfolding count_samples
run_cycle expected interval c t = do
  values ← c.values
  refuse (not (length values == expected)) (message "read count %d, expected %d")
  ok (
      count_samples values (record t {
        durations = t.durations ++ (c.elapsed ∷ []);
        missed = if ltb interval c.elapsed then suc t.missed else t.missed;
      }))

abbrev pub wait_for : Bool → Option Error → Result (Unit {0})
wait_for first none = ok tt
wait_for true (some e) = ok tt
wait_for false (some e) = err e

-- The loop of the remaining cycles; the first of all does not wait.
unfoldable pub run_cycles : ℕ → ℕ → Bool → ℕ → (ℕ → Cycle) → Tally → Result Tally
unfolding run_cycle
run_cycles expected interval first zero cycles t = ok t
run_cycles expected interval first (suc n) cycles t =
    wait_for first (cycles 0).waiting
    >> (run_cycle expected interval (cycles 0) t >>= λ u.
        run_cycles expected interval false n (λ i. cycles (suc i)) u)

unfoldable pub insert_duration : ℕ → List ℕ → List ℕ
insert_duration d [] = d ∷ []
insert_duration d (e ∷ es) =
    let rest = insert_duration d es in if ltb e d then e ∷ rest else d ∷ e ∷ es

-- slices.Sort of the durations.
unfoldable pub sort_durations : List ℕ → List ℕ
unfolding insert_duration
sort_durations [] = []
sort_durations (d ∷ ds) = insert_duration d (sort_durations ds)

-- The index of the 95th percentile.
abbrev pub p95_index : ℕ → ℕ
p95_index n = (n * 95 + 99) / 100 - 1

-- The numbers that are printed; none for P95MS or MaxMS is an index out of range.
pub record Report : Type 0 where
  pub items : ℕ
  pub cycles : ℕ
  pub p95 : Option ℕ
  pub max : Option ℕ
  pub missed : ℕ
  pub good : ℕ
  pub bad : ℕ
  pub failed : ℕ

unfoldable pub report_of : ℕ → ℕ → Tally → Report
unfolding sort_durations
report_of items cycles t =
    let sorted = sort_durations t.durations in
    record {
      items = items;
      cycles = cycles;
      p95 = get_elem? sorted (p95_index (length sorted));
      max = get_elem? sorted (length sorted - 1);
      missed = t.missed;
      good = t.good;
      bad = t.bad;
      failed = t.failed;
    }

-- The errors of the added items.
unfoldable pub first_error : List (Option Error) → Option Error
first_error [] = none
first_error (some e ∷ items) = some (wrapped "AddItems %s" e)
first_error (none ∷ items) = first_error items

-- pollConfig, of which the number of its ItemIDs.
pub record PollConfig : Type 0 where
  pub ids : ℕ
  pub interval : ℕ
  pub cycles : ℕ

abbrev pub proceed : Option Error → Result (Unit {0})
proceed none = ok tt
proceed (some e) = err e

-- runPoll before its deferred removal.
unfoldable pub poll : PollConfig → Result (List (Option Error)) → (ℕ → Cycle) → Result Report
unfolding first_error run_cycles report_of
poll cfg added cycles = do
  items ← added
  proceed (first_error items)
  t ← run_cycles cfg.ids cfg.interval true cfg.cycles cycles new_tally
  ok (report_of (length items) cfg.cycles t)

abbrev error_of : Result Report → Option Error
error_of (err e) = some e
error_of (ok r) = none

abbrev report_in : Result Report → Option Report
report_in (err e) = none
report_in (ok r) = some r

-- runPoll: the report that was encoded, if one was, and the error after group.Remove.
unfoldable pub run_poll :
    PollConfig
    → Result (List (Option Error))
    → (ℕ → Cycle)
    → Option Error
    → Option Report × Option Error
unfolding poll
run_poll cfg added cycles removed =
    let result = poll cfg added cycles in (report_in result, join (error_of result) removed)
