-- ===== src/Group/Add/Handles.antt =====
-- What addItems (batch.go) reports against what the group holds.
use gopcda.Prelude.{
  ℕ, zero, suc, ◌-◌, ◌^◌, ◌≡◌, refl, sym, ap, inl, inr, false, not, ◌||◌, ◌∙◌, Option, none, some,
  List, [], ◌∷◌, ◌++◌, arith, length, All, Option-cases, Bool-cases, ◌==◌,
}
use gopcda.Prelude.Int.{ℤ, is_negative}
use gopcda.Prelude.Bytes.{Bytes, bytes_eq, bytes_eq_iff, bytes_eq_refl}
use gopcda.Prelude.Assoc.{Assoc, lookup, insert, lookup-insert}
use gopcda.Errors.{Error, hresult_error}
use gopcda.Group.Batches.{batches, batches-cover, concat, run_batches, run_batches_inv, Outcome}
use gopcda.Group.State.{RegisteredItem, PersistentGroup, Reply, failed, answered}
use gopcda.Group.Add.{
  Item, AddedItem, AddResponse, Adding, Scan, public_item, positions_of, scan_ids, allocate,
  add_result, add_results, take_answer, add_batch, add_locked, empty_scan,
}
use gopcda.Group.Add.Honest.{
  IsHonest, Extends, Unregistered, DistinctIds, refused-IsHonest, IsHonest-modify_all,
}
use gopcda.Group.Add.Planned.{IsPlanned, scan_ids-IsPlanned}

-- A key that is looked up after the insertion of another.
lookup-insert_other :
    (k j : Bytes) (v : RegisteredItem) (items : Assoc RegisteredItem)
    → bytes_eq k j ≡ false
    → lookup j (insert k v items) ≡ lookup j items
lookup-insert_other k j v items e = lookup-insert k j v items ∙ rw e

lookup-insert_self :
    (k : Bytes) (v : RegisteredItem) (items : Assoc RegisteredItem)
    → lookup k (insert k v items) ≡ some v
lookup-insert_self k v items = lookup-insert k k v items ∙ rw (bytes_eq_refl k)

differs :
    (k j : Bytes) (v : RegisteredItem) (items : Assoc RegisteredItem)
    → lookup k items ≡ none
    → lookup j items ≡ some v
    → bytes_eq k j ≡ false
differs k j v items new old = elim (Bool-cases (bytes_eq k j)) [
  | inr e ↦ e
  | inl e ↦
      let same : k ≡ j = (bytes_eq_iff k j).0 e in cc (ap (λ (l : Bytes). lookup l items) same)
]

module _ (id : Bytes) (v : RegisteredItem) (items : Assoc RegisteredItem)
    (new : lookup id items ≡ none) where
  insert-Extends : Extends items (insert id v items)
  insert-Extends k w e = lookup-insert_other id k v items (differs id k w items new e) ∙ e

  insert-IsHonest :
      (out : List Item) → All (IsHonest items) out → All (IsHonest (insert id v items)) out
  insert-IsHonest [] h = tt
  insert-IsHonest (x ∷ xs) h = (
    (λ good. let (w, e, p) = h.0 good in (w, insert-Extends x.item_id w e, p)),
    insert-IsHonest xs h.1,
  )

  insert-Unregistered :
      (ks : List Bytes)
      → All (λ k. bytes_eq id k ≡ false) ks
      → Unregistered items ks
      → Unregistered (insert id v items) ks
  insert-Unregistered [] d h = tt
  insert-Unregistered (k ∷ ks) d h =
      (lookup-insert_other id k v items d.0 ∙ h.0, insert-Unregistered ks d.1 h.1)

-- What holds between batches, `left` being the ItemIDs that are still to be sent.
record IsTruthful (old : Assoc RegisteredItem) (s : Adding) : Type 0 where
  honest : All (IsHonest s.group.items) s.out
  kept : Extends old s.group.items

record IsGoing (old : Assoc RegisteredItem) (left : List Bytes) (s : Adding) : Type 0 where
  truthful : IsTruthful old s
  open truthful use *
  unregistered : Unregistered s.group.items left
  distinct : DistinctIds left

add_result-IsGoing :
    (old : Assoc RegisteredItem) (positions : Assoc (List ℕ)) (id : Bytes) (left : List Bytes)
    (client : ℕ) (added : AddedItem) (code : ℤ) (s : Adding)
    → IsGoing old (id ∷ left) s
    → IsGoing old left (add_result positions id client added code s)
unfolding add_result public_item
add_result-IsGoing old positions id left client added code s h =
    elim (Bool-cases (is_negative code)) [
      | inl bad ↦
          rw (bad, add_result)
            (record {
              truthful = record {
                honest =
                    IsHonest-modify_all _ (positions_of id positions) _ s.out
                      (refused-IsHonest s.group.items (hresult_error "AddItems" id code)) h.honest;
                kept = h.kept;
              };
              unregistered = h.unregistered.1;
              distinct = h.distinct.1;
            })
      | inr good ↦
          rw (good, add_result)
            (record {
              truthful = record {
                honest =
                    IsHonest-modify_all _ (positions_of id positions) _ s.out
                      (λ x e. (v, lookup-insert_self id v s.group.items, refl))
                      (insert-IsHonest id v s.group.items h.unregistered.0 s.out h.honest);
                kept =
                    λ k w e. insert-Extends id v s.group.items h.unregistered.0 k w (h.kept k w e);
              };
              unregistered =
                  insert-Unregistered id v s.group.items h.unregistered.0 left h.distinct.0
                    h.unregistered.1;
              distinct = h.distinct.1;
            })
    ]
  where
    v : RegisteredItem
    v = record {
      handle = added.handle;
      client = client;
      rights = added.rights;
      canonical = added.canonical;
    }

add_results-IsGoing :
    (old : Assoc RegisteredItem) (positions : Assoc (List ℕ)) (ids left : List Bytes)
    (clients : List ℕ) (more : List AddedItem) (codes : List ℤ) (s : Adding)
    → length ids ≡ length clients
    → length more ≡ length ids
    → length codes ≡ length ids
    → IsGoing old (ids ++ left) s
    → IsGoing old left (add_results positions ids clients more codes s)
unfolding add_results
add_results-IsGoing old positions [] left clients more codes s a b c h = h
add_results-IsGoing old positions (id ∷ ids) left [] more codes s a b c h = absurd (omega arith)
add_results-IsGoing old positions (id ∷ ids) left (k ∷ ks) [] codes s a b c h = absurd (omega arith)
add_results-IsGoing old positions (id ∷ ids) left (k ∷ ks) (m ∷ more) [] s a b c h =
    absurd (omega arith)
add_results-IsGoing old positions (id ∷ ids) left (k ∷ ks) (m ∷ more) (code ∷ codes) s a b c h =
    add_results-IsGoing old positions ids left ks more codes _ (omega arith) (omega arith)
      (omega arith) (add_result-IsGoing old positions id (ids ++ left) k m code s h)

allocate-length : (n next : ℕ) (cs : List ℕ) → (allocate n next).1 ≡ some cs → length cs ≡ n
unfolding allocate
allocate-length zero next [] h = refl
allocate-length zero next (c ∷ cs) h = cc
allocate-length (suc n) next cs h = elim (Bool-cases (next == 2 ^ 32 - 1)) [
  | inl e ↦ absurd (none_some (rw (e, allocate) at h))
  | inr e ↦
      given cs (allocate n (suc next)).1 (allocate-length n (suc next)) (rw (e, allocate) at h)
]
  where
    none_some : ◌≡◌ {A = Option (List ℕ)} none (some cs) → ⊥
    none_some p = cc

    given :
        (cs : List ℕ) (r : Option (List ℕ))
        → ((ds : List ℕ) → r ≡ some ds → length ds ≡ n)
        → (elim r [ none ↦ none | some clients ↦ some (suc next ∷ clients) ]) ≡ some cs
        → length cs ≡ suc n
    given cs none ih p = cc
    given [] (some ds) ih p = cc
    given (c ∷ cs) (some ds) ih p = let e : ds ≡ cs = cc in omega (arith, ih ds refl, ap length e)

take_answer-IsGoing :
    (old : Assoc RegisteredItem) (positions : Assoc (List ℕ)) (chunk left : List Bytes)
    (clients : List ℕ) (r : Reply AddResponse) (s : Adding)
    → length chunk ≡ length clients
    → IsGoing old (chunk ++ left) s
    → Outcome (IsGoing old left) (λ e. IsTruthful old) (take_answer positions chunk clients r s)
unfolding take_answer
take_answer-IsGoing old positions chunk left clients (failed e) s l h = h.truthful
take_answer-IsGoing old positions chunk left clients (answered r) s l h =
    elim (Bool-cases (is_negative r.hresult)) [
      | inl e ↦ rw (e, take_answer) h.truthful
      | inr e ↦
          elim (Bool-cases
            (not (length r.items == length chunk) || not (length r.errors == length chunk))) [
              | inl e' ↦ rw (e, e', take_answer) h.truthful
              | inr e' ↦
                  rw (e, e', take_answer)
                    (add_results-IsGoing old positions chunk left clients r.items r.errors s l
                      (ground arith) (ground arith) h)
            ]
    ]

add_batch-IsGoing :
    (old : Assoc RegisteredItem) (replies : ℕ → Reply AddResponse) (positions : Assoc (List ℕ))
    (k : ℕ) (chunk : List Bytes) (rest : List (List Bytes)) (s : Adding)
    → IsGoing old (concat (chunk ∷ rest)) s
    → Outcome
        (IsGoing old (concat rest))
        (λ e. IsTruthful old)
        (add_batch replies positions k chunk s)
unfolding add_batch
add_batch-IsGoing old replies positions k chunk rest s h =
    elim (Option-cases (allocate (length chunk) s.group.next_client_handle).1) [
      | inl e ↦ rw (e, add_batch) (record { honest = h.honest; kept = h.kept })
      | inr (cs, e) ↦
          rw (e, add_batch)
            (take_answer-IsGoing old positions chunk (concat rest) cs (replies k)
              (moved (allocate (length chunk) s.group.next_client_handle).0)
              (sym (allocate-length (length chunk) s.group.next_client_handle cs e))
              (record {
                truthful = record { honest = h.honest; kept = h.kept };
                unregistered = h.unregistered;
                distinct = h.distinct;
              }))
    ]
  where
    moved : ℕ → Adding
    moved last = record s { group = record s.group { next_client_handle = last } }

Outcome-both {ℓ κ} :
    {S : Type ℓ} (P : S → Type κ) (R : S → Type κ) (r : S × Option Error)
    → ((s : S) → P s → R s)
    → Outcome P (λ e. R) r
    → R r.0
Outcome-both P R (s, none) f h = f s h
Outcome-both P R (s, some e) f h = h

-- Whatever the server replies and however the call ends, an item that addItems reports without an
-- error is registered in the group, with the client and server handles of the report; and every
-- registration that the group had before the call stands after it as it was.
pub add_locked-IsHonest :
    (replies : ℕ → Reply AddResponse) (g : PersistentGroup) (ids : List Bytes)
    → All (IsHonest (add_locked replies g ids).0.group.items) (add_locked replies g ids).0.out
      × Extends g.items (add_locked replies g ids).0.group.items
unfolding add_locked
add_locked-IsHonest replies g ids = (end.honest, end.kept)
  where
    s : Scan
    s = scan_ids g 0 ids empty_scan

    start : Adding
    start = record { group = g; out = s.out }

    planned : IsPlanned g.items s
    planned =
        scan_ids-IsPlanned g 0 ids empty_scan
          (record { honest = tt; unregistered = tt; distinct = tt; placed = tt })

    going : IsGoing g.items (concat (batches s.pending)) start
    going = rw (batches-cover s.pending).0 (record {
      truthful = record { honest = planned.honest; kept = λ k v e. e };
      unregistered = planned.unregistered;
      distinct = planned.distinct;
    })

    end :
        IsTruthful g.items
          (run_batches (add_batch replies s.positions) 0 (batches s.pending) start).0
    end =
        Outcome-both (IsGoing g.items []) (IsTruthful g.items) _ (λ st h. h.truthful)
          (run_batches_inv (add_batch replies s.positions) (λ bs. IsGoing g.items (concat bs))
            (λ e. IsTruthful g.items)
            (λ k b bs st. add_batch-IsGoing g.items replies s.positions k b bs st) 0
            (batches s.pending) start going)
