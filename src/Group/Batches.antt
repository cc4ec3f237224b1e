-- ===== src/Group/Batches.antt =====
-- The loop that all batched operations share:
--   for start := 0; start < len(pending); start += maxBatchItems { ... return on an error ... }
-- with the k-th reply of the server as the argument k of the body.
use gopcda.Prelude.{
  ℕ, zero, suc, ◌≤◌, ◌<◌, ◌≡◌, refl, ap, ◌∙◌, Option, none, some, List, [], ◌∷◌, ◌++◌, arith,
  length, take, drop, All, take-append-drop, length-take_le, length-drop,
}
use gopcda.Errors.{Error}

abbrev pub max_batch_items : ℕ
max_batch_items = 1000

module _ {ℓ} {A : Type ℓ} where
  -- pending[start:min(start+size, len(pending))] for each start; the fuel bounds their number.
  batches_within : ℕ → ℕ → List A → List (List A)
  batches_within zero size xs = []
  batches_within (suc fuel) size [] = []
  batches_within (suc fuel) size (x ∷ xs) =
      take size (x ∷ xs) ∷ batches_within fuel size (drop size (x ∷ xs))

  unfoldable pub batches_of : ℕ → List A → List (List A)
  unfolding batches_within
  batches_of size xs = batches_within (length xs) size xs

  unfoldable pub batches : List A → List (List A)
  unfolding batches_of
  batches xs = batches_of max_batch_items xs

  abbrev pub concat : List (List A) → List A
  concat [] = []
  concat (b ∷ bs) = b ++ concat bs

  concat-batches_within :
      (fuel n : ℕ) (xs : List A) → length xs ≤ fuel → concat (batches_within fuel (suc n) xs) ≡ xs
  unfolding batches_within
  concat-batches_within zero n [] h = refl
  concat-batches_within zero n (x ∷ xs) h = absurd (omega arith)
  concat-batches_within (suc fuel) n [] h = refl
  concat-batches_within (suc fuel) n (x ∷ xs) h =
      ap (◌++◌ (take (suc n) (x ∷ xs)))
        (concat-batches_within fuel n (drop n xs) (omega (arith, length-drop n xs)))
      ∙ take-append-drop (suc n) (x ∷ xs)

  abbrev pub IsBatch : ℕ → List A → Type 0
  IsBatch n b = (0 < length b) × (length b ≤ n)

  batches_within-IsBatch :
      (fuel n : ℕ) (xs : List A) → All (IsBatch (suc n)) (batches_within fuel (suc n) xs)
  unfolding batches_within
  batches_within-IsBatch zero n xs = tt
  batches_within-IsBatch (suc fuel) n [] = tt
  batches_within-IsBatch (suc fuel) n (x ∷ xs) =
      (omega (arith, length-take_le n xs), batches_within-IsBatch fuel n (drop n xs))

  -- The batches cover the list, in order, each with 1 to 1000 entries: the fuel is enough.
  pub batches-cover : (xs : List A) → (concat (batches xs) ≡ xs) × All (IsBatch 1000) (batches xs)
  unfolding batches
  batches-cover xs = (
    concat-batches_within (length xs) 999 xs (omega arith),
    batches_within-IsBatch (length xs) 999 xs,
  )

module _ {ℓ} {S : Type ℓ} where
  -- `if err != nil { return ..., err }` after a batch.
  abbrev pub unless_failed : S × Option Error → (S → S × Option Error) → S × Option Error
  unless_failed (s, none) next = next s
  unless_failed (s, some e) next = (s, some e)

  -- What holds of the state after a step: `P` if it went through, `Q` with its error otherwise.
  abbrev pub Outcome {κ} : (S → Type κ) → (Error → S → Type κ) → S × Option Error → Type κ
  Outcome P Q (s, none) = P s
  Outcome P Q (s, some e) = Q e s

module _ {ℓ κ} {A : Type ℓ} {S : Type κ} (body : ℕ → List A → S → S × Option Error) where
  -- The loop over the batches: it stops at the first operation error.
  unfoldable pub run_batches : ℕ → List (List A) → S → S × Option Error
  run_batches k [] s = (s, none)
  run_batches k (b ∷ bs) s = unless_failed (body k b s) (λ s'. run_batches (suc k) bs s')

module _ {ℓ κ μ} {A : Type ℓ} {S : Type κ} (body : ℕ → List A → S → S × Option Error)
    (P : ℕ → List (List A) → S → Type μ) (Q : Error → S → Type μ)
    (keep : (k : ℕ) (b : List A) (bs : List (List A)) (s : S)
      → P k (b ∷ bs) s
      → Outcome (P (suc k) bs) Q (body k b s)) where
  -- An invariant that may speak of the next call's number and of the batches that are left. A
  -- batch that fails establishes `Q`.
  pub run_batches_numbered :
      (k : ℕ) (bs : List (List A)) (s : S)
      → P k bs s
      → Outcome (λ s'. (n : ℕ) × P n [] s') Q (run_batches body k bs s)
  unfolding run_batches
  run_batches_numbered k [] s h = (k, h)
  run_batches_numbered k (b ∷ bs) s h =
      after (body k b s) (λ s' h'. run_batches_numbered (suc k) bs s' h') (keep k b bs s h)
    where
      after :
          (r : S × Option Error)
          → ((s' : S)
              → P (suc k) bs s'
              → Outcome (λ t. (n : ℕ) × P n [] t) Q (run_batches body (suc k) bs s'))
          → Outcome (P (suc k) bs) Q r
          → Outcome
              (λ t. (n : ℕ) × P n [] t)
              Q
              (unless_failed r (λ s'. run_batches body (suc k) bs s'))
      after (s', none) ih h' = ih s' h'
      after (s', some e) ih h' = h'

module _ {ℓ κ μ} {A : Type ℓ} {S : Type κ} (body : ℕ → List A → S → S × Option Error)
    (P : List (List A) → S → Type μ) (Q : Error → S → Type μ)
    (keep : (k : ℕ) (b : List A) (bs : List (List A)) (s : S)
      → P (b ∷ bs) s
      → Outcome (P bs) Q (body k b s)) where
  -- The same for an invariant that does not speak of the number.
  pub run_batches_inv :
      (k : ℕ) (bs : List (List A)) (s : S) → P bs s → Outcome (P []) Q (run_batches body k bs s)
  run_batches_inv k bs s h = forget _ (run_batches_numbered body (λ n. P) Q keep k bs s h)
    where
      forget : (r : S × Option Error) → Outcome (λ t. ℕ × P [] t) Q r → Outcome (P []) Q r
      forget (s', none) h' = h'.1
      forget (s', some e) h' = h'

module _ {ℓ κ μ} {A : Type ℓ} {S : Type κ} (body : ℕ → List A → S → S × Option Error)
    (P : S → Type μ) (keep : (k : ℕ) (b : List A) (s : S) → P s → P (body k b s).0) where
  -- An invariant that every batch keeps, failing or not.
  pub run_batches_keeps : (k : ℕ) (bs : List (List A)) (s : S) → P s → P (run_batches body k bs s).0
  unfolding run_batches
  run_batches_keeps k [] s h = h
  run_batches_keeps k (b ∷ bs) s h =
      after (body k b s) (λ s' h'. run_batches_keeps (suc k) bs s' h') (keep k b s h)
    where
      after :
          (r : S × Option Error)
          → ((s' : S) → P s' → P (run_batches body (suc k) bs s').0)
          → P r.0
          → P (unless_failed r (λ s'. run_batches body (suc k) bs s')).0
      after (s', none) ih h' = ih s' h'
      after (s', some e) ih h' = h'
