-- ===== src/Poll/Counts.antt =====
-- The counts of a report of runPoll (cmd/opcda/poll.go).
use mathlib.Core.List.{append-nil, append_assoc}
use gopcda.Prelude.{
  ℕ, zero, suc, ◌+◌, ◌-◌, ◌*◌, ◌≤◌, ◌≡◌, ◌<◌, refl, sym, ap, subst, ◌∙◌, Bool, true, false, not,
  Option, some, List, [], ◌∷◌, ◌++◌, length, length-append, get_elem?, get_elem?-in, ltb, ◌==◌,
  arith, if◌then◌else◌, Bool-cases, Option-cases, inl, inr,
}
use gopcda.Errors.{Error, message}
use gopcda.Quality.{quality_is_good}
use gopcda.Result.{Result, ok, refuse, >>=-ok, refuse-ok}
use gopcda.Poll.{
  Sample, Cycle, Tally, new_tally, count_sample, count_samples, run_cycle, wait_for, run_cycles,
  sort_durations, p95_index, Report, report_of, first_error, PollConfig, proceed, poll,
}
use gopcda.Poll.Sorted.{
  count, IsSorted, length-sort_durations, sort_durations-IsSorted, count-sort_durations,
}

abbrev samples : Tally → ℕ
samples t = t.good + t.bad + t.failed

-- From t to u there are `cycles` more durations and `more` more samples.
abbrev IsAhead : ℕ → ℕ → Tally → Tally → Type 0
IsAhead cycles more t u =
    (samples u ≡ samples t + more)
    × (length u.durations ≡ length t.durations + cycles)
    × (u.missed ≤ t.missed + cycles)

count_sample-IsAhead : (v : Sample) (t : Tally) → IsAhead 0 1 t (count_sample v t)
unfolding count_sample
count_sample-IsAhead v t = elim (Option-cases v.error) [
  | inr (e, h) ↦ rw (h, count_sample) (omega arith, omega arith, omega arith)
  | inl h ↦ elim (Bool-cases (quality_is_good v.quality)) [
    | inl q ↦ rw (h, q, count_sample) (omega arith, omega arith, omega arith)
    | inr q ↦ rw (h, q, count_sample) (omega arith, omega arith, omega arith)
  ]
]

count_samples-IsAhead :
    (vs : List Sample) (t : Tally) → IsAhead 0 (length vs) t (count_samples vs t)
unfolding count_samples
count_samples-IsAhead [] t = (omega arith, omega arith, omega arith)
count_samples-IsAhead (v ∷ vs) t =
    let one = count_sample-IsAhead v t in
    let rest = count_samples-IsAhead vs (count_sample v t) in
    (omega (arith, one.0, rest.0), omega (arith, one.1, rest.1), omega (arith, one.2, rest.2))

equal_length : (n expected : ℕ) → not (n == expected) ≡ false → n ≡ expected
equal_length n expected h = ground (arith, h)

missed_once : (late : Bool) (n : ℕ) → (if late then suc n else n) ≤ n + 1
missed_once true n = omega arith
missed_once false n = omega arith

ok_injective : (t u : Tally) → ok t ≡ ok u → t ≡ u
ok_injective t u h = cc

run_cycle-IsAhead :
    (expected interval : ℕ) (c : Cycle) (t u : Tally)
    → run_cycle expected interval c t ≡ ok u
    → IsAhead 1 expected t u
unfolding run_cycle
run_cycle-IsAhead expected interval c t u h =
    let values = >>=-ok c.values _ h in
    let passed =
      >>=-ok (refuse (not (length values.0 == expected)) (message "read count %d, expected %d")) _
        (values.2) in
    let counted = equal_length (length values.0) expected (refuse-ok _ _ (passed.1)) in
    let before : Tally = record t {
      durations = t.durations ++ (c.elapsed ∷ []);
      missed = if ltb interval c.elapsed then suc t.missed else t.missed;
    } in
    let after = count_samples-IsAhead values.0 before in
    rw⁻¹ (ok_injective (count_samples values.0 before) u (passed.2)) (
      omega (arith, after.0, counted),
      omega (arith, after.1, length-append t.durations (c.elapsed ∷ [])),
      omega (arith, after.2, missed_once (ltb interval c.elapsed) t.missed),
    )

run_cycles-IsAhead :
    (expected interval : ℕ) (first : Bool) (n : ℕ) (cycles : ℕ → Cycle) (t u : Tally)
    → run_cycles expected interval first n cycles t ≡ ok u
    → IsAhead n (n * expected) t u
unfolding run_cycles
run_cycles-IsAhead expected interval first zero cycles t u h =
    rw⁻¹ (ok_injective t u h) (omega arith, omega arith, omega arith)
run_cycles-IsAhead expected interval first (suc n) cycles t u h =
    let waited = >>=-ok (wait_for first (cycles 0).waiting) _ h in
    let ran = >>=-ok (run_cycle expected interval (cycles 0) t) _ (waited.2) in
    let one = run_cycle-IsAhead expected interval (cycles 0) t (ran.0) (ran.1) in
    let rest =
      run_cycles-IsAhead expected interval false n (λ i. cycles (suc i)) (ran.0) u (ran.2) in
    (omega (arith, one.0, rest.0), omega (arith, one.1, rest.1), omega (arith, one.2, rest.2))

-- The durations of the first n cycles.
unfoldable pub elapsed_of : ℕ → (ℕ → Cycle) → List ℕ
elapsed_of zero cycles = []
elapsed_of (suc n) cycles = (cycles 0).elapsed ∷ elapsed_of n (λ i. cycles (suc i))

count_samples-durations :
    (vs : List Sample) (t : Tally) → (count_samples vs t).durations ≡ t.durations
unfolding count_samples count_sample
count_samples-durations [] t = refl
count_samples-durations (v ∷ vs) t = elim (Option-cases v.error) [
  | inr (e, h) ↦ count_samples-durations vs (count_sample v t) ∙ rw (h, count_sample) refl
  | inl h ↦ elim (Bool-cases (quality_is_good v.quality)) [
    | inl q ↦ count_samples-durations vs (count_sample v t) ∙ rw (h, q, count_sample) refl
    | inr q ↦ count_samples-durations vs (count_sample v t) ∙ rw (h, q, count_sample) refl
  ]
]

run_cycle-durations :
    (expected interval : ℕ) (c : Cycle) (t u : Tally)
    → run_cycle expected interval c t ≡ ok u
    → u.durations ≡ t.durations ++ (c.elapsed ∷ [])
unfolding run_cycle
run_cycle-durations expected interval c t u h =
    let values = >>=-ok c.values _ h in
    let passed =
      >>=-ok (refuse (not (length values.0 == expected)) (message "read count %d, expected %d")) _
        (values.2) in
    let before : Tally = record t {
      durations = t.durations ++ (c.elapsed ∷ []);
      missed = if ltb interval c.elapsed then suc t.missed else t.missed;
    } in
    ap (λ s. s.durations) (sym (ok_injective (count_samples values.0 before) u (passed.2)))
    ∙ count_samples-durations values.0 before

run_cycles-durations :
    (expected interval : ℕ) (first : Bool) (n : ℕ) (cycles : ℕ → Cycle) (t u : Tally)
    → run_cycles expected interval first n cycles t ≡ ok u
    → u.durations ≡ t.durations ++ elapsed_of n cycles
unfolding run_cycles elapsed_of
run_cycles-durations expected interval first zero cycles t u h =
    ap (λ s. s.durations) (sym (ok_injective t u h)) ∙ sym (append-nil t.durations)
run_cycles-durations expected interval first (suc n) cycles t u h =
    let waited = >>=-ok (wait_for first (cycles 0).waiting) _ h in
    let ran = >>=-ok (run_cycle expected interval (cycles 0) t) _ (waited.2) in
    let rest =
      run_cycles-durations expected interval false n (λ i. cycles (suc i)) (ran.0) u (ran.2) in
    rest
    ∙ (ap (λ ds. ds ++ elapsed_of n (λ i. cycles (suc i)))
          (run_cycle-durations expected interval (cycles 0) t (ran.0) (ran.1))
        ∙ append_assoc t.durations ((cycles 0).elapsed ∷ []) _)

report_injective : (a b : Report) → ok a ≡ ok b → a ≡ b
report_injective a b h = cc

-- The list holds the durations of the n cycles, sorted.
abbrev pub SortedDurations : ℕ → (ℕ → Cycle) → List ℕ → Type 0
SortedDurations n cycles sorted =
    IsSorted sorted
    × (length sorted ≡ n)
    × ((d : ℕ) → count d sorted ≡ count d (elapsed_of n cycles))

-- The duration d stands at the place k, by the nearest rank for 95 of 100: the first place at which
-- 95% of the n durations are not behind it.
abbrev pub IsPercentile : ℕ → List ℕ → Option ℕ → Type 0
IsPercentile n sorted p95 =
    (k : ℕ) × (d : ℕ) × (k * 100 < n * 95)
    × (n * 95 ≤ (k + 1) * 100)
    × (get_elem? sorted k ≡ some d)
    × (p95 ≡ some d)

-- The report's maximum is the last of the sorted durations.
abbrev pub IsMaximum : ℕ → List ℕ → Option ℕ → Type 0
IsMaximum n sorted max = (d : ℕ) × (get_elem? sorted (n - 1) ≡ some d) × (max ≡ some d)

-- What the report says of a tally of `cycles` cycles.
abbrev pub IsReport : PollConfig → (ℕ → Cycle) → Report → Type 0
IsReport cfg cycles r =
    (r.good + r.bad + r.failed ≡ cfg.cycles * cfg.ids)
    × (r.missed ≤ cfg.cycles)
    × ((sorted : List ℕ) × SortedDurations cfg.cycles cycles sorted
        × IsPercentile cfg.cycles sorted r.p95
        × IsMaximum cfg.cycles sorted r.max)

report_of-IsReport :
    (cfg : PollConfig) (items : ℕ) (cycles : ℕ → Cycle) (t : Tally)
    → IsAhead cfg.cycles (cfg.cycles * cfg.ids) new_tally t
    → t.durations ≡ elapsed_of cfg.cycles cycles
    → 1 ≤ cfg.cycles
    → IsReport cfg cycles (report_of items cfg.cycles t)
unfolding report_of
report_of-IsReport cfg items cycles t h e k =
    let sorted = sort_durations t.durations in
    let size : length sorted ≡ cfg.cycles = omega (arith, length-sort_durations t.durations, h.1) in
    let p = get_elem?-in sorted (p95_index (length sorted)) (omega (arith, size, k)) in
    let m = get_elem?-in sorted (length sorted - 1) (omega (arith, size, k)) in
    (
      omega (arith, h.0),
      omega (arith, h.2),
      (
        sorted,
        (
          sort_durations-IsSorted t.durations,
          size,
          λ d. count-sort_durations d t.durations ∙ ap (count d) e,
        ),
        (p95_index (length sorted), p.0, omega (arith, size, k), omega (arith, size, k), p.1, p.1),
        (m.0, ap (λ (n : ℕ). get_elem? sorted (n - 1)) (sym size) ∙ m.1, m.1),
      ),
    )

-- A report of a polling of at least one cycle counts every sample once: its good, bad and failed
-- samples are the cycles times the items of the configuration; at most every cycle missed its
-- deadline; and there is a list with the durations of the cycles in ascending order, each as often
-- as it was measured, at whose place of the 95th percentile (nearest rank) the reported percentile
-- stands and at whose end the reported maximum stands.
pub poll-IsReport :
    (cfg : PollConfig) (added : Result (List (Option Error))) (cycles : ℕ → Cycle) (r : Report)
    → 1 ≤ cfg.cycles
    → poll cfg added cycles ≡ ok r
    → (r.good + r.bad + r.failed ≡ cfg.cycles * cfg.ids)
      × (r.missed ≤ cfg.cycles)
      × ((sorted : List ℕ) × SortedDurations cfg.cycles cycles sorted
          × IsPercentile cfg.cycles sorted r.p95
          × IsMaximum cfg.cycles sorted r.max)
unfolding poll
poll-IsReport cfg added cycles r k h =
    let items = >>=-ok added _ h in
    let checked = >>=-ok (proceed (first_error items.0)) _ (items.2) in
    let ran =
      >>=-ok (run_cycles cfg.ids cfg.interval true cfg.cycles cycles new_tally) _ (checked.2) in
    let ahead =
      run_cycles-IsAhead cfg.ids cfg.interval true cfg.cycles cycles new_tally (ran.0) (ran.1) in
    let durations =
      run_cycles-durations cfg.ids cfg.interval true cfg.cycles cycles new_tally (ran.0) (ran.1) in
    subst (IsReport cfg cycles) (report_injective _ r (ran.2))
      (report_of-IsReport cfg (length items.0) cycles (ran.0) ahead durations k)
