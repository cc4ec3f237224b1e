-- ===== src/Group/Add/Registry.antt =====
-- The client handles in the registry of a group, and its counter, through addItems (batch.go).
use gopcda.Prelude.{
  ℕ, zero, suc, ◌-◌, ◌^◌, ◌≤◌, ◌<◌, ◌≡◌, ◌≢◌, refl, inl, inr, Option, none, some, not, ◌||◌, ◌∙◌,
  List, [], ◌∷◌, arith, length, All, Bool-cases, ◌==◌,
}
use gopcda.Prelude.Int.{ℤ, is_negative}
use gopcda.Prelude.Bytes.{Bytes, bytes_eq}
use gopcda.Prelude.Assoc.{Assoc, insert}
use gopcda.Errors.{Error, message}
use gopcda.Group.Batches.{batches, run_batches_keeps}
use gopcda.Group.State.{RegisteredItem, PersistentGroup, Reply, failed, answered}
use gopcda.Group.Add.{
  AddedItem, AddResponse, Adding, Scan, scan_ids, allocate, add_result, add_results, take_answer,
  add_batch, add_locked, empty_scan,
}

-- Every client handle of the registry is at most `n`.
abbrev pub ClientsUpTo : ℕ → Assoc RegisteredItem → Type 0
ClientsUpTo n = All λ e. e.1.client ≤ n

-- No two entries have one client handle.
abbrev pub DistinctClients : Assoc RegisteredItem → Type 0
DistinctClients [] = Unit {0}
DistinctClients (e ∷ m) = All (λ f. f.1.client ≢ e.1.client) m × DistinctClients m

-- The registry of a group: the counter is a uint32, and covers handles that are all different.
pub record IsRegistry (g : PersistentGroup) : Type 0 where
  pub fits : g.next_client_handle < 2 ^ 32
  pub bounded : ClientsUpTo g.next_client_handle g.items
  pub distinct : DistinctClients g.items

ClientsUpTo-mono :
    (m n : ℕ) (items : Assoc RegisteredItem) → m ≤ n → ClientsUpTo m items → ClientsUpTo n items
ClientsUpTo-mono m n [] h b = tt
ClientsUpTo-mono m n (e ∷ es) h b = (omega arith, ClientsUpTo-mono m n es h b.1)

insert-ClientsUpTo :
    (n : ℕ) (id : Bytes) (v : RegisteredItem) (items : Assoc RegisteredItem)
    → v.client ≤ n
    → ClientsUpTo n items
    → ClientsUpTo n (insert id v items)
unfolding insert
insert-ClientsUpTo n id v [] h b = (h, tt)
insert-ClientsUpTo n id v ((j, w) ∷ m) h b = elim (Bool-cases (bytes_eq j id)) [
  | inl e ↦ rw (e, insert) (h, b.1)
  | inr e ↦ rw (e, insert) (b.0, insert-ClientsUpTo n id v m h b.1)
]

fresh :
    (n c : ℕ) (items : Assoc RegisteredItem)
    → n < c
    → ClientsUpTo n items
    → All (λ f. f.1.client ≢ c) items
fresh n c [] h b = tt
fresh n c (e ∷ es) h b = (omega arith, fresh n c es h b.1)

insert-differs :
    (c : ℕ) (id : Bytes) (v : RegisteredItem) (items : Assoc RegisteredItem)
    → v.client ≢ c
    → All (λ f. f.1.client ≢ c) items
    → All (λ f. f.1.client ≢ c) (insert id v items)
unfolding insert
insert-differs c id v [] h b = (h, tt)
insert-differs c id v ((j, w) ∷ m) h b = elim (Bool-cases (bytes_eq j id)) [
  | inl e ↦ rw (e, insert) (h, b.1)
  | inr e ↦ rw (e, insert) (b.0, insert-differs c id v m h b.1)
]

insert-DistinctClients :
    (n : ℕ) (id : Bytes) (v : RegisteredItem) (items : Assoc RegisteredItem)
    → n < v.client
    → ClientsUpTo n items
    → DistinctClients items
    → DistinctClients (insert id v items)
unfolding insert
insert-DistinctClients n id v [] h b d = (tt, tt)
insert-DistinctClients n id v ((j, w) ∷ m) h b d = elim (Bool-cases (bytes_eq j id)) [
  | inl e ↦ rw (e, insert) (fresh n v.client m h b.1, d.1)
  | inr e ↦
      rw (e, insert)
        (
          insert-differs w.client id v m (omega arith) d.0,
          insert-DistinctClients n id v m h b.1 d.1,
        )
]

-- The handles of a batch count up from the one that was given last.
abbrev Counts : ℕ → List ℕ → ℕ → Type 0
Counts next [] last = next ≤ last
Counts next (c ∷ cs) last = (c ≡ suc next) × Counts (suc next) cs last

-- The counter after a batch, with the handles unless the range has ended.
abbrev Allocated : ℕ → ℕ × Option (List ℕ) → Type 0
Allocated next (last, none) = next ≤ last
Allocated next (last, some cs) = (next ≤ last) × Counts next cs last

allocate-Allocated : (n next : ℕ) → Allocated next (allocate n next)
unfolding allocate
allocate-Allocated zero next = (omega arith, omega arith)
allocate-Allocated (suc n) next = elim (Bool-cases (next == 2 ^ 32 - 1)) [
  | inl e ↦ rw (e, allocate) (omega arith)
  | inr e ↦ rw (e, allocate) (given (allocate n (suc next)) (allocate-Allocated n (suc next)))
]
  where
    given :
        (r : ℕ × Option (List ℕ))
        → Allocated (suc next) r
        → Allocated next (r.0, elim r.1 [ none ↦ none | some clients ↦ some (suc next ∷ clients) ])
    given (last, none) h = omega arith
    given (last, some cs) h = (omega arith, (refl, h.1))

record Holds (n : ℕ) (items : Assoc RegisteredItem) : Type 0 where
  bounded : ClientsUpTo n items
  distinct : DistinctClients items

add_result-Holds :
    (positions : Assoc (List ℕ)) (id : Bytes) (n : ℕ) (added : AddedItem) (code : ℤ) (s : Adding)
    → Holds n s.group.items
    → Holds (suc n) (add_result positions id (suc n) added code s).group.items
unfolding add_result
add_result-Holds positions id n added code s h = elim (Bool-cases (is_negative code)) [
  | inl bad ↦
      rw (bad, add_result)
        (record {
          bounded = ClientsUpTo-mono n (suc n) s.group.items (omega arith) h.bounded;
          distinct = h.distinct;
        })
  | inr good ↦
      rw (good, add_result)
        (record {
          bounded =
              insert-ClientsUpTo (suc n) id _ s.group.items (omega arith)
                (ClientsUpTo-mono n (suc n) s.group.items (omega arith) h.bounded);
          distinct = insert-DistinctClients n id _ s.group.items (omega arith) h.bounded h.distinct;
        })
]

Holds-mono : (m n : ℕ) (items : Assoc RegisteredItem) → m ≤ n → Holds m items → Holds n items
Holds-mono m n items h k = record {
  bounded = ClientsUpTo-mono m n items h k.bounded;
  distinct = k.distinct;
}

Counts-le : (n : ℕ) (cs : List ℕ) (last : ℕ) → Counts n cs last → n ≤ last
Counts-le n [] last h = h
Counts-le n (c ∷ cs) last h = omega (arith, Counts-le (suc n) cs last h.1)

add_results-Holds :
    (positions : Assoc (List ℕ)) (ids : List Bytes) (n : ℕ) (clients : List ℕ) (last : ℕ)
    (more : List AddedItem) (codes : List ℤ) (s : Adding)
    → Counts n clients last
    → Holds n s.group.items
    → Holds last (add_results positions ids clients more codes s).group.items
unfolding add_results
add_results-Holds positions [] n clients last more codes s c h =
    Holds-mono n last _ (Counts-le n clients last c) h
add_results-Holds positions (id ∷ ids) n [] last more codes s c h = Holds-mono n last _ c h
add_results-Holds positions (id ∷ ids) n (c ∷ cs) last [] codes s e h =
    Holds-mono n last _ (Counts-le n (c ∷ cs) last e) h
add_results-Holds positions (id ∷ ids) n (c ∷ cs) last (a ∷ more) [] s e h =
    Holds-mono n last _ (Counts-le n (c ∷ cs) last e) h
add_results-Holds positions (id ∷ ids) n (c ∷ cs) last (a ∷ more) (code ∷ codes) s e h =
    add_results-Holds positions ids (suc n) cs last more codes _ e.1
      (rw e.0 (add_result-Holds positions id n a code s h))

allocate-fits : (n next : ℕ) → next < 2 ^ 32 → (allocate n next).0 < 2 ^ 32
unfolding allocate
allocate-fits zero next h = h
allocate-fits (suc n) next h = elim (Bool-cases (next == 2 ^ 32 - 1)) [
  | inl e ↦ rw (e, allocate) h
  | inr e ↦ rw (e, allocate) (allocate-fits n (suc next) (ground arith))
]

-- The items change, and nothing else of the group.
next-add_results :
    (positions : Assoc (List ℕ)) (ids : List Bytes) (clients : List ℕ) (more : List AddedItem)
    (codes : List ℤ) (s : Adding)
    → (add_results positions ids clients more codes s).group.next_client_handle
      ≡ s.group.next_client_handle
unfolding add_results add_result
next-add_results positions [] clients more codes s = refl
next-add_results positions (id ∷ ids) [] more codes s = refl
next-add_results positions (id ∷ ids) (c ∷ cs) [] codes s = refl
next-add_results positions (id ∷ ids) (c ∷ cs) (a ∷ more) [] s = refl
next-add_results positions (id ∷ ids) (c ∷ cs) (a ∷ more) (code ∷ codes) s =
    next-add_results positions ids cs more codes _ ∙ ground arith

take_answer-IsRegistry :
    (positions : Assoc (List ℕ)) (chunk : List Bytes) (clients : List ℕ) (r : Reply AddResponse)
    (n : ℕ) (s : Adding)
    → s.group.next_client_handle < 2 ^ 32
    → Holds n s.group.items
    → Counts n clients s.group.next_client_handle
    → IsRegistry (take_answer positions chunk clients r s).0.group
unfolding take_answer
take_answer-IsRegistry positions chunk clients (failed e) n s f h c =
    kept (Holds-mono n _ s.group.items (Counts-le n clients _ c) h)
  where
    kept : Holds s.group.next_client_handle s.group.items → IsRegistry s.group
    kept k = record { fits = f; bounded = k.bounded; distinct = k.distinct }
take_answer-IsRegistry positions chunk clients (answered r) n s f h c =
    elim (Bool-cases (is_negative r.hresult)) [
      | inl e ↦ rw (e, take_answer) kept
      | inr e ↦
          elim (Bool-cases
            (not (length r.items == length chunk) || not (length r.errors == length chunk))) [
              | inl e' ↦ rw (e, e', take_answer) kept
              | inr e' ↦
                  rw (e, e', take_answer)
                    (record {
                      fits = rw same f;
                      bounded = rw same after.bounded;
                      distinct = after.distinct;
                    })
            ]
    ]
  where
    kept : IsRegistry s.group
    kept =
        let k = Holds-mono n _ s.group.items (Counts-le n clients _ c) h in
        record { fits = f; bounded = k.bounded; distinct = k.distinct }

    after :
        Holds s.group.next_client_handle
          (add_results positions chunk clients r.items r.errors s).group.items
    after = add_results-Holds positions chunk n clients _ r.items r.errors s c h

    same :
        (add_results positions chunk clients r.items r.errors s).group.next_client_handle
        ≡ s.group.next_client_handle
    same = next-add_results positions chunk clients r.items r.errors s

add_batch-IsRegistry :
    (replies : ℕ → Reply AddResponse) (positions : Assoc (List ℕ)) (k : ℕ) (chunk : List Bytes)
    (s : Adding)
    → IsRegistry s.group
    → IsRegistry (add_batch replies positions k chunk s).0.group
unfolding add_batch
add_batch-IsRegistry replies positions k chunk s h =
    given (allocate (length chunk) s.group.next_client_handle)
      (allocate-Allocated (length chunk) s.group.next_client_handle)
      (allocate-fits (length chunk) s.group.next_client_handle h.fits)
  where
    moved : ℕ → Adding
    moved last = record s { group = record s.group { next_client_handle = last } }

    given :
        (r : ℕ × Option (List ℕ))
        → Allocated s.group.next_client_handle r
        → r.0 < 2 ^ 32
        → IsRegistry
            (elim r.1 as (λ _. Adding × Option Error) [
              | none ↦ (moved r.0, some (message "client handle range exhausted"))
              | some cs ↦ take_answer positions chunk cs (replies k) (moved r.0)
            ]).0.group
    given (last, none) a f = record {
      fits = f;
      bounded = ClientsUpTo-mono _ last s.group.items a h.bounded;
      distinct = h.distinct;
    }
    given (last, some cs) a f =
        take_answer-IsRegistry positions chunk cs (replies k) s.group.next_client_handle
          (moved last) f (record { bounded = h.bounded; distinct = h.distinct }) a.1

-- Registering items never gives a client handle to two entries of a group, and the counter stays a
-- uint32 that no handle passes, whatever the server replies and however the call ends.
pub add_locked-IsRegistry :
    (replies : ℕ → Reply AddResponse) (g : PersistentGroup) (ids : List Bytes)
    → IsRegistry g
    → IsRegistry (add_locked replies g ids).0.group
unfolding add_locked
add_locked-IsRegistry replies g ids h =
    run_batches_keeps (add_batch replies s.positions) (λ st. IsRegistry st.group)
      (add_batch-IsRegistry replies s.positions) 0 (batches s.pending) _ h
  where
    s : Scan
    s = scan_ids g 0 ids empty_scan
