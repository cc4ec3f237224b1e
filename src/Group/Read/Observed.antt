-- ===== src/Group/Read/Observed.antt =====
-- What the results of a group read come from, and which of the request they answer.
use gopcda.Prelude.{
  drop, drop-suc, get_elem?-of_drop, ℕ, zero, suc, ◌+◌, ◌≡◌, ◌≢◌, refl, sym, ap, subst, ◌∙◌, ◌⊎◌,
  inl, inr, Bool, true, false, not, ◌||◌, Option, none, some, List, [], ◌∷◌, ◌++◌, map, length,
  length-map, get_elem?, arith, All, Option-cases, Bool-cases, ◌==◌,
}
use gopcda.Prelude.Int.{ℤ, is_negative}
use gopcda.Prelude.Bytes.{Bytes}
use gopcda.Prelude.Assoc.{Assoc, lookup}
use gopcda.Errors.{Error, sentinel, item_not_registered}
use gopcda.Values.Runtime.{Runtime}
use gopcda.Group.Batches.{
  batches, batches-cover, concat, run_batches, run_batches_numbered, Outcome,
}
use gopcda.Group.State.{RegisteredItem, PersistentGroup, Reply, failed, answered}
use gopcda.Group.Read.{
  ReadResult, ItemState, ReadResponse, Slot, Known, read_result, item_result, with_value,
  failed_read, read_results, batch_results, plan_slots, plan_known, fill, fill_all, known_ids,
  read_batch, partial_results, results_of, take_reply, read_locked, unregistered_slot,
}

-- The result is what the entry at the item's place in the arrays gives for its ItemID.
abbrev pub Carries : Runtime → ReadResult → List Known → List ItemState → List ℤ → Type 0
Carries rt r (k ∷ ks) (s ∷ states) (code ∷ codes) =
    (r ≡ read_result rt k.id s code) ⊎ Carries rt r ks states codes
Carries rt r _ _ _ = ⊥

-- The result comes from an answered batch: the reply to its number.
abbrev pub FromReply : Runtime → (ℕ → Reply ReadResponse) → List (List Known) → ReadResult → Type 0
FromReply rt replies all r =
    (k : ℕ) × (batch : List Known) × (a : ReadResponse) × (get_elem? all k ≡ some batch)
    × (replies k ≡ answered a)
    × Carries rt r batch a.states a.errors

-- Either the item is not registered and the result says so, or the server has answered for it.
abbrev pub IsObserved :
    Runtime → (ℕ → Reply ReadResponse) → Assoc RegisteredItem → List Bytes → ReadResult → Type 0
IsObserved rt replies items ids r =
    ((lookup r.item_id items ≡ none) × (r ≡ failed_read r.item_id (sentinel item_not_registered)))
    ⊎ FromReply rt replies (batches (plan_known items 0 ids)) r

pub data IsSubsequence : List Bytes → List Bytes → Type 0 where
  stop : IsSubsequence [] []
  skip : {xs ys : List Bytes} (y : Bytes) → IsSubsequence xs ys → IsSubsequence xs (y ∷ ys)
  take : {xs ys : List Bytes} (y : Bytes) → IsSubsequence xs ys → IsSubsequence (y ∷ xs) (y ∷ ys)

abbrev pub ids_of : List ReadResult → List Bytes
ids_of = map λ r. r.item_id

abbrev slot_ids : List Slot → List Bytes
slot_ids = map λ s. s.result.item_id

read_result-id :
    (rt : Runtime) (id : Bytes) (s : ItemState) (code : ℤ) → (read_result rt id s code).item_id ≡ id
unfolding read_result item_result with_value
read_result-id rt id s code = ground arith

observed_at : Option Slot → Bool
observed_at none = true
observed_at (some s) = s.observed

partial_results-IsSubsequence :
    (slots : List Slot) → IsSubsequence (ids_of (partial_results slots)) (slot_ids slots)
unfolding partial_results
partial_results-IsSubsequence [] = stop
partial_results-IsSubsequence (s ∷ rest) = elim (Bool-cases s.observed) [
  | inl e ↦ rw (e, partial_results) (take s.result.item_id (partial_results-IsSubsequence rest))
  | inr e ↦ rw (e, partial_results) (skip s.result.item_id (partial_results-IsSubsequence rest))
]

module _ (rt : Runtime) (replies : ℕ → Reply ReadResponse) (items : Assoc RegisteredItem)
    (ids : List Bytes) where
  -- A registered item stands at its position of the request.
  abbrev IsPlaced : List Known → Type 0
  IsPlaced = All λ k. get_elem? ids k.position ≡ some k.id

  -- One of the items is to fill the position.
  abbrev Awaits : ℕ → List Known → Type 0
  Awaits j [] = ⊥
  Awaits j (k ∷ ks) = (k.position ≡ j) ⊎ Awaits j ks

  -- The slots of the request, of which `left` are still to be filled.
  record IsFilling (left : List Known) (slots : List Slot) : Type 0 where
    same_ids : slot_ids slots ≡ ids
    truthful : All (λ s. s.observed ≡ true → IsObserved rt replies items ids s.result) slots
    awaited : (j : ℕ) (s : Slot) → get_elem? slots j ≡ some s → s.observed ≡ false → Awaits j left
    placed : IsPlaced left

  slot_ids-fill :
      (j : ℕ) (v : ReadResult) (slots : List Slot)
      → get_elem? (slot_ids slots) j ≡ some v.item_id
      → slot_ids (fill j v slots) ≡ slot_ids slots
  unfolding fill
  slot_ids-fill j v [] h = refl
  slot_ids-fill zero v (x ∷ xs) h =
      let e : v.item_id ≡ x.result.item_id = cc in ap (λ k. k ∷ slot_ids xs) e
  slot_ids-fill (suc j) v (x ∷ xs) h = ap (◌∷◌ x.result.item_id) (slot_ids-fill j v xs h)

  truthful-fill :
      (j : ℕ) (v : ReadResult) (slots : List Slot)
      → IsObserved rt replies items ids v
      → All (λ s. s.observed ≡ true → IsObserved rt replies items ids s.result) slots
      → All (λ s. s.observed ≡ true → IsObserved rt replies items ids s.result) (fill j v slots)
  unfolding fill
  truthful-fill j v [] o h = tt
  truthful-fill zero v (x ∷ xs) o h = ((λ e. o), h.1)
  truthful-fill (suc j) v (x ∷ xs) o h = (h.0, truthful-fill j v xs o h.1)

  -- A filled slot is observed; the others are as they were.
  unfilled :
      (p j : ℕ) (v : ReadResult) (slots : List Slot) (s : Slot)
      → get_elem? (fill p v slots) j ≡ some s
      → s.observed ≡ false
      → (p ≢ j) × (get_elem? slots j ≡ some s)
  unfolding fill observed_at
  unfilled p j v [] s h o = cc
  unfilled zero zero v (x ∷ xs) s h o = cc (ap observed_at h)
  unfilled zero (suc j) v (x ∷ xs) s h o = ((λ e. absurd (omega arith)), h)
  unfilled (suc p) zero v (x ∷ xs) s h o = ((λ e. absurd (omega arith)), h)
  unfilled (suc p) (suc j) v (x ∷ xs) s h o =
      let (ne, e) = unfilled p j v xs s h o in ((λ q. ne (omega arith)), e)

  fill-IsFilling :
      (k : Known) (left : List Known) (v : ReadResult) (slots : List Slot)
      → v.item_id ≡ k.id
      → IsObserved rt replies items ids v
      → IsFilling (k ∷ left) slots
      → IsFilling left (fill k.position v slots)
  fill-IsFilling k left v slots e o h = record {
    same_ids = slot_ids-fill k.position v slots (rw (h.same_ids, e) h.placed.0) ∙ h.same_ids;
    truthful = truthful-fill k.position v slots o h.truthful;
    awaited = λ j s g f.
        let (ne, old) = unfilled k.position j v slots s g f in
        elim (h.awaited j s old f) [ inl same ↦ absurd (ne same) | inr more ↦ more ];
    placed = h.placed.1;
  }

  fill_all-IsFilling :
      (chunk left : List Known) (states : List ItemState) (codes : List ℤ) (slots : List Slot)
      → ((r : ReadResult)
          → Carries rt r chunk states codes
          → FromReply rt replies (batches (plan_known items 0 ids)) r)
      → length states ≡ length chunk
      → length codes ≡ length chunk
      → IsFilling (chunk ++ left) slots
      → IsFilling left (fill_all chunk (read_results rt (known_ids chunk) states codes) slots)
  unfolding fill_all read_results
  fill_all-IsFilling [] left states codes slots within l m h = h
  fill_all-IsFilling (k ∷ ks) left [] codes slots within l m h = absurd (omega arith)
  fill_all-IsFilling (k ∷ ks) left (s ∷ states) [] slots within l m h = absurd (omega arith)
  fill_all-IsFilling (k ∷ ks) left (s ∷ states) (c ∷ codes) slots within l m h =
      fill_all-IsFilling ks left states codes _ (λ r i. within r (inr i)) (omega arith)
        (omega arith) (fill-IsFilling k (ks ++ left) v slots same (inr (within v (inl refl))) h)
    where
      v : ReadResult
      v = read_result rt k.id s c

      same : v.item_id ≡ k.id
      same = read_result-id rt k.id s c

  abbrev IsTaken : List Known → List Known → List Slot × Option Error → Type 0
  IsTaken chunk left = Outcome (IsFilling left) (λ e. IsFilling (chunk ++ left))

  take_reply-IsTaken :
      (n : ℕ) (r : Reply ReadResponse) (chunk left : List Known) (slots : List Slot)
      → get_elem? (batches (plan_known items 0 ids)) n ≡ some chunk
      → replies n ≡ r
      → IsFilling (chunk ++ left) slots
      → IsTaken chunk left (take_reply rt chunk slots r)
  unfolding take_reply batch_results
  take_reply-IsTaken n (failed e) chunk left slots at q h = h
  take_reply-IsTaken n (answered a) chunk left slots at q h =
      elim (Bool-cases (is_negative a.hresult)) [
        | inl e ↦ rw (e, take_reply) h
        | inr e ↦
            elim (Bool-cases (
              not (length a.errors == length (known_ids chunk))
              || not (length a.states == length (known_ids chunk)))) [
                | inl e' ↦ rw (e, e', take_reply) h
                | inr e' ↦
                    rw (e, e', take_reply)
                      (fill_all-IsFilling chunk left a.states a.errors slots
                        (λ r c. (n, chunk, a, at, q, c)) (lengths e').1 (lengths e').0 h)
              ]
      ]
    where
      lengths :
          (not (length a.errors == length (known_ids chunk))
              || not (length a.states == length (known_ids chunk)))
            ≡ false
          → (length a.errors ≡ length chunk) × (length a.states ≡ length chunk)
      lengths e = ground (arith, length-map (λ (k : Known). k.id) chunk)

  plan_slots-ids : (rest : List Bytes) → slot_ids (plan_slots items rest) ≡ rest
  unfolding plan_slots
  plan_slots-ids [] = refl
  plan_slots-ids (id ∷ rest) = elim (Option-cases (lookup id items)) [
    | inl e ↦ rw (e, plan_slots-ids rest)
    | inr (v, e) ↦ rw (e, plan_slots-ids rest)
  ]

  plan_slots-truthful :
      (rest : List Bytes)
      → All
          (λ s. s.observed ≡ true → IsObserved rt replies items ids s.result)
          (plan_slots items rest)
  unfolding plan_slots
  plan_slots-truthful [] = tt
  plan_slots-truthful (id ∷ rest) = elim (Option-cases (lookup id items)) [
    | inl e ↦ rw e ((λ _. inl (e, refl)), plan_slots-truthful rest)
    | inr (v, e) ↦ rw e ((λ o. absurd (cc o)), plan_slots-truthful rest)
  ]

  plan_slots-awaited :
      (i : ℕ) (rest : List Bytes) (p j : ℕ) (s : Slot)
      → p ≡ i + j
      → get_elem? (plan_slots items rest) j ≡ some s
      → s.observed ≡ false
      → Awaits p (plan_known items i rest)
  unfolding plan_slots plan_known observed_at
  plan_slots-awaited i [] p j s q g f = cc
  plan_slots-awaited i (id ∷ rest) p zero s q g f = elim (Option-cases (lookup id items)) [
    | inl e ↦ absurd (not_waiting e)
    | inr (v, e) ↦ rw (e, plan_known) (inl (omega arith))
  ]
    where
      not_waiting : lookup id items ≡ none → ⊥
      not_waiting e =
          let o : some (unregistered_slot id) ≡ some s = rw e at g in cc (ap observed_at o)
  plan_slots-awaited i (id ∷ rest) p (suc j) s q g f = elim (Option-cases (lookup id items)) [
    | inl e ↦ rw (e, plan_known) (plan_slots-awaited (suc i) rest p j s (omega arith) g f)
    | inr (v, e) ↦
        rw (e, plan_known) (inr (plan_slots-awaited (suc i) rest p j s (omega arith) g f))
  ]

  plan_known-IsPlaced :
      (i : ℕ) (rest : List Bytes)
      → ((p j : ℕ) (x : Bytes) → p ≡ i + j → get_elem? rest j ≡ some x → get_elem? ids p ≡ some x)
      → IsPlaced (plan_known items i rest)
  unfolding plan_known
  plan_known-IsPlaced i [] within = tt
  plan_known-IsPlaced i (id ∷ rest) within = elim (Option-cases (lookup id items)) [
    | inl e ↦ rw (e, plan_known) (plan_known-IsPlaced (suc i) rest (later within))
    | inr (v, e) ↦
        rw (e, plan_known)
          (within i 0 id (omega arith) refl, plan_known-IsPlaced (suc i) rest (later within))
  ]
    where
      later :
          ((p j : ℕ) (x : Bytes)
            → p ≡ i + j
            → get_elem? (id ∷ rest) j ≡ some x
            → get_elem? ids p ≡ some x)
          → (p j : ℕ) (x : Bytes) → p ≡ suc i + j
          → get_elem? rest j ≡ some x
          → get_elem? ids p ≡ some x
      later h p j x q = h p (suc j) x (omega arith)

  plan-IsFilling : IsFilling (concat (batches (plan_known items 0 ids))) (plan_slots items ids)
  plan-IsFilling = rw ((batches-cover (plan_known items 0 ids)).0) record {
    same_ids = plan_slots-ids ids;
    truthful = plan_slots-truthful ids;
    awaited = λ j s g f. plan_slots-awaited 0 ids j j s (omega arith) g f;
    placed =
        plan_known-IsPlaced 0 ids
          (λ p j x q e. subst (λ k. get_elem? ids k ≡ some x) (omega arith) e);
  }

  observed_results :
      (slots : List Slot)
      → ((j : ℕ) (s : Slot) → get_elem? slots j ≡ some s → s.observed ≡ false → ⊥)
      → All (λ s. s.observed ≡ true → IsObserved rt replies items ids s.result) slots
      → All (IsObserved rt replies items ids) (map (λ s. s.result) slots)
  observed_results [] full h = tt
  observed_results (s ∷ rest) full h = elim (Bool-cases s.observed) [
    | inl e ↦ (h.0 e, observed_results rest (λ j. full (suc j)) h.1)
    | inr e ↦ absurd (full 0 s refl e)
  ]

  partial_results-IsObserved :
      (slots : List Slot)
      → All (λ s. s.observed ≡ true → IsObserved rt replies items ids s.result) slots
      → All (IsObserved rt replies items ids) (partial_results slots)
  unfolding partial_results
  partial_results-IsObserved [] h = tt
  partial_results-IsObserved (s ∷ rest) h = elim (Bool-cases s.observed) [
    | inl e ↦ rw (e, partial_results) (h.0 e, partial_results-IsObserved rest h.1)
    | inr e ↦ rw (e, partial_results) (partial_results-IsObserved rest h.1)
  ]

  -- What a caller gets: the results, and the operation error if there is one.
  abbrev pub IsAnswer : List ReadResult × Option Error → Type 0
  IsAnswer (results, none) = (ids_of results ≡ ids) × All (IsObserved rt replies items ids) results
  IsAnswer (results, some e) =
      IsSubsequence (ids_of results) ids × All (IsObserved rt replies items ids) results

  abbrev IsRun : List Slot × Option Error → Type 0
  IsRun = Outcome (IsFilling []) (λ e slots. (left : List Known) × IsFilling left slots)

  map-ids : (slots : List Slot) → ids_of (map (λ s. s.result) slots) ≡ slot_ids slots
  map-ids [] = refl
  map-ids (s ∷ rest) = ap (◌∷◌ s.result.item_id) (map-ids rest)

  results_of-IsAnswer : (r : List Slot × Option Error) → IsRun r → IsAnswer (results_of r)
  results_of-IsAnswer (slots, none) h =
      (map-ids slots ∙ h.same_ids, observed_results slots h.awaited h.truthful)
  results_of-IsAnswer (slots, some e) h = (
    rw (sym h.1.same_ids) (partial_results-IsSubsequence slots),
    partial_results-IsObserved slots h.1.truthful,
  )

  run_batches-IsRun : IsRun (
      run_batches
        (read_batch rt replies)
        0
        (batches (plan_known items 0 ids))
        (plan_slots items ids))
  unfolding read_batch
  run_batches-IsRun = end (run_batches (read_batch rt replies) 0 all (plan_slots items ids)) (
      run_batches_numbered (read_batch rt replies)
        (λ k bs slots. (drop k all ≡ bs) × IsFilling (concat bs) slots) Stopped
        (λ k b bs s h.
          weaken k b bs (take_reply rt b s (replies k)) h.0 (
            take_reply-IsTaken k (replies k) b (concat bs) s (get_elem?-of_drop k all h.0) refl
              h.1))
        0 all (plan_slots items ids) (refl, plan-IsFilling))
    where
      all : List (List Known)
      all = batches (plan_known items 0 ids)

      Stopped : Error → List Slot → Type 0
      Stopped e slots = (left : List Known) × IsFilling left slots

      weaken :
          (k : ℕ) (b : List Known) (bs : List (List Known)) (r : List Slot × Option Error)
          → drop k all ≡ b ∷ bs
          → IsTaken b (concat bs) r
          → Outcome (λ slots. (drop (suc k) all ≡ bs) × IsFilling (concat bs) slots) Stopped r
      weaken k b bs (slots, none) e h = (drop-suc k all e, h)
      weaken k b bs (slots, some x) e h = (b ++ concat bs, h)

      end :
          (r : List Slot × Option Error)
          → Outcome (λ slots. (k : ℕ) × ((drop k all ≡ []) × IsFilling [] slots)) Stopped r
          → IsRun r
      end (slots, none) h = h.1.1
      end (slots, some x) h = h

-- Every result of a group read is observed: its item is not registered and it says so, or it is
-- what the reply to the item's batch holds at the item's place. A read without an operation error has one result for
-- each requested ItemID, in the order of the request; a read that an operation error ends has a
-- subsequence of them.
pub read_locked-IsAnswer :
    (rt : Runtime) (replies : ℕ → Reply ReadResponse) (g : PersistentGroup) (ids : List Bytes)
    → IsAnswer rt replies g.items ids (read_locked rt replies g ids)
unfolding read_locked
read_locked-IsAnswer rt replies g ids =
    results_of-IsAnswer rt replies g.items ids _ (run_batches-IsRun rt replies g.items ids)
