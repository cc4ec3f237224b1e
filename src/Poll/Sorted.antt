-- ===== src/Poll/Sorted.antt =====
-- The sorted durations of runPoll (cmd/opcda/poll.go): sorting keeps every duration.
use gopcda.Prelude.{
  ℕ, suc, ◌+◌, ◌≤◌, ◌≡◌, refl, ap, ◌∙◌, List, [], ◌∷◌, length, All, ltb, ◌==◌, arith, if◌then◌else◌,
  Bool-cases, inl, inr,
}
use gopcda.Poll.{insert_duration, sort_durations}

length-insert_duration : (d : ℕ) (ds : List ℕ) → length (insert_duration d ds) ≡ suc (length ds)
unfolding insert_duration
length-insert_duration d [] = refl
length-insert_duration d (e ∷ es) = elim (Bool-cases (ltb e d)) [
  | inl h ↦ rw h (ap suc (length-insert_duration d es))
  | inr h ↦ rw h refl
]

pub length-sort_durations : (ds : List ℕ) → length (sort_durations ds) ≡ length ds
unfolding sort_durations
length-sort_durations [] = refl
length-sort_durations (d ∷ ds) =
    length-insert_duration d (sort_durations ds) ∙ ap suc (length-sort_durations ds)

-- How often the number stands in the list.
unfoldable pub count : ℕ → List ℕ → ℕ
count d [] = 0
count d (e ∷ es) = (if e == d then 1 else 0) + count d es

-- Each number is at most all that follow it.
abbrev pub IsSorted : List ℕ → Type 0
IsSorted [] = Unit
IsSorted (d ∷ ds) = All (λ e. d ≤ e) ds × IsSorted ds

All-le : (c d : ℕ) (ds : List ℕ) → c ≤ d → All (λ e. d ≤ e) ds → All (λ e. c ≤ e) ds
All-le c d [] h k = tt
All-le c d (e ∷ es) h k = (omega (arith, h, k.0), All-le c d es h (k.1))

All-insert_duration :
    (c d : ℕ) (ds : List ℕ) → c ≤ d → All (λ e. c ≤ e) ds → All (λ e. c ≤ e) (insert_duration d ds)
unfolding insert_duration
All-insert_duration c d [] h k = (h, tt)
All-insert_duration c d (e ∷ es) h k = elim (Bool-cases (ltb e d)) [
  | inl l ↦ rw l (k.0, All-insert_duration c d es h (k.1))
  | inr l ↦ rw l (h, k)
]

insert_duration-IsSorted : (d : ℕ) (ds : List ℕ) → IsSorted ds → IsSorted (insert_duration d ds)
unfolding insert_duration
insert_duration-IsSorted d [] h = (tt, tt)
insert_duration-IsSorted d (e ∷ es) h = elim (Bool-cases (ltb e d)) [
  | inl l ↦
      rw l
        (All-insert_duration e d es (ground (arith, l)) (h.0), insert_duration-IsSorted d es (h.1))
  | inr l ↦ let le : d ≤ e = ground (arith, l) in rw l ((le, All-le d e es le (h.0)), h)
]

pub sort_durations-IsSorted : (ds : List ℕ) → IsSorted (sort_durations ds)
unfolding sort_durations
sort_durations-IsSorted [] = tt
sort_durations-IsSorted (d ∷ ds) =
    insert_duration-IsSorted d (sort_durations ds) (sort_durations-IsSorted ds)

count-insert_duration : (c d : ℕ) (ds : List ℕ) → count c (insert_duration d ds) ≡ count c (d ∷ ds)
unfolding count insert_duration
count-insert_duration c d [] = refl
count-insert_duration c d (e ∷ es) = ground (arith, count-insert_duration c d es)

pub count-sort_durations : (c : ℕ) (ds : List ℕ) → count c (sort_durations ds) ≡ count c ds
unfolding count sort_durations
count-sort_durations c [] = refl
count-sort_durations c (d ∷ ds) =
    count-insert_duration c d (sort_durations ds)
    ∙ ap (◌+◌ (if d == c then 1 else 0)) (count-sort_durations c ds)
