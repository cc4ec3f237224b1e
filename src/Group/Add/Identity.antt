-- ===== src/Group/Add/Identity.antt =====
-- The ItemIDs of the results of addItems (batch.go), by their places in the request.
use gopcda.Prelude.{
  ℕ, zero, suc, ◌≡◌, refl, sym, subst, ap, ◌∙◌, inl, inr, Option, some, List, [], ◌∷◌, ◌++◌, map,
  arith, length, length-append, get_elem?, All, Option-cases, Bool-cases,
}
use mathlib.Core.List.{append-nil, append_assoc}
use gopcda.Prelude.Int.{ℤ, is_negative}
use gopcda.Prelude.Bytes.{Bytes, bytes_eq, bytes_eq_iff}
use gopcda.Prelude.Assoc.{Assoc, lookup, insert}
use gopcda.Errors.{Error}
use gopcda.Result.{ok}
use gopcda.Text.{validate_item_id}
use gopcda.Group.Batches.{batches, run_batches_keeps}
use gopcda.Group.State.{PersistentGroup, Reply, failed, answered, admitted}
use gopcda.Group.Add.{
  Item, AddedItem, AddResponse, Adding, Scan, public_item, unadded, positions_of, scan_id, scan_ids,
  modify_at, modify_all, add_result, add_results, take_answer, add_batch, add_locked, add_items,
  empty_scan, allocate,
}

abbrev pub ids_of : List Item → List Bytes
ids_of = map λ it. it.item_id

-- Each position that is recorded for an ItemID is one of its places in the request.
abbrev AtPlaces : List Bytes → Bytes → List ℕ → Type 0
AtPlaces all id js = All (λ j. get_elem? all j ≡ some id) js

abbrev Placed : List Bytes → Assoc (List ℕ) → Type 0
Placed all positions = All (λ e. AtPlaces all e.0 e.1) positions

ids_of-append : (xs ys : List Item) → ids_of (xs ++ ys) ≡ ids_of xs ++ ids_of ys
ids_of-append [] ys = refl
ids_of-append (x ∷ xs) ys = ap (◌∷◌ x.item_id) (ids_of-append xs ys)

get_elem?-middle :
    (pre : List Bytes) (id : Bytes) (rest : List Bytes)
    → get_elem? (pre ++ id ∷ rest) (length pre) ≡ some id
get_elem?-middle [] id rest = refl
get_elem?-middle (x ∷ pre) id rest = get_elem?-middle pre id rest

positions_of-AtPlaces :
    (all : List Bytes) (id : Bytes) (positions : Assoc (List ℕ))
    → Placed all positions
    → AtPlaces all id (positions_of id positions)
unfolding positions_of lookup
positions_of-AtPlaces all id [] h = tt
positions_of-AtPlaces all id ((j, js) ∷ m) h = elim (Bool-cases (bytes_eq j id)) [
  | inl e ↦
      rw (e, positions_of, lookup) (subst (λ k. AtPlaces all k js) ((bytes_eq_iff j id).0 e) h.0)
  | inr e ↦ rw (e, positions_of, lookup) (positions_of-AtPlaces all id m h.1)
]

insert-Placed :
    (all : List Bytes) (id : Bytes) (js : List ℕ) (m : Assoc (List ℕ))
    → AtPlaces all id js
    → Placed all m
    → Placed all (insert id js m)
unfolding insert
insert-Placed all id js [] h p = (h, tt)
insert-Placed all id js ((k, ks) ∷ m) h p = elim (Bool-cases (bytes_eq k id)) [
  | inl e ↦ rw (e, insert) (h, p.1)
  | inr e ↦ rw (e, insert) (p.0, insert-Placed all id js m h p.1)
]

AtPlaces-append :
    (all : List Bytes) (id : Bytes) (js : List ℕ) (i : ℕ)
    → AtPlaces all id js
    → get_elem? all i ≡ some id
    → AtPlaces all id (js ++ i ∷ [])
AtPlaces-append all id [] i h p = (p, tt)
AtPlaces-append all id (j ∷ js) i h p = (h.0, AtPlaces-append all id js i h.1 p)

-- What a round of the first loop keeps.
record IsScanned (all pre : List Bytes) (s : Scan) : Type 0 where
  ids : ids_of s.out ≡ pre
  placed : Placed all s.positions

scan_id-IsScanned :
    (g : PersistentGroup) (pre : List Bytes) (id : Bytes) (rest : List Bytes) (s : Scan)
    → IsScanned (pre ++ id ∷ rest) pre s
    → IsScanned (pre ++ id ∷ rest) (pre ++ id ∷ []) (scan_id g (length pre) id s)
unfolding scan_id public_item unadded
scan_id-IsScanned g pre id rest s h = elim (Option-cases (validate_item_id id)) [
  | inr (e, bad) ↦ rw (bad, scan_id) (record { ids = grown (unadded id e) refl; placed = h.placed })
  | inl good ↦ elim (Option-cases (lookup id g.items)) [
    | inr (v, old) ↦
        rw (good, old, scan_id) (record { ids = grown (public_item id v) refl; placed = h.placed })
    | inl new ↦
        rw (good, new, scan_id)
          (record {
            ids = grown _ refl;
            placed =
                insert-Placed _ id _ s.positions
                  (AtPlaces-append _ id _ (length pre)
                    (positions_of-AtPlaces _ id s.positions h.placed)
                    (get_elem?-middle pre id rest))
                  h.placed;
          })
  ]
]
  where
    grown : (it : Item) → it.item_id ≡ id → ids_of (s.out ++ it ∷ []) ≡ pre ++ id ∷ []
    grown it e = ids_of-append s.out (it ∷ []) ∙ rw (h.ids, e)

scan_ids-IsScanned :
    (g : PersistentGroup) (all pre ids : List Bytes) (s : Scan)
    → pre ++ ids ≡ all
    → IsScanned all pre s
    → IsScanned all all (scan_ids g (length pre) ids s)
unfolding scan_ids
scan_ids-IsScanned g all pre [] s e h = record {
  ids = h.ids ∙ sym (append-nil pre) ∙ e;
  placed = h.placed;
}
scan_ids-IsScanned g all pre (id ∷ ids) s e h =
    let step = scan_id-IsScanned g pre id ids s (subst (λ l. IsScanned l pre s) (sym e) h) in
    let step' = subst (λ l. IsScanned l (pre ++ id ∷ []) (scan_id g (length pre) id s)) e step in
    let len : length (pre ++ id ∷ []) ≡ suc (length pre) =
      omega (arith, length-append pre (id ∷ [])) in
    subst (λ n. IsScanned all all (scan_ids g n ids (scan_id g (length pre) id s))) len
      (scan_ids-IsScanned g all (pre ++ id ∷ []) ids _ (append_assoc pre (id ∷ []) ids ∙ e) step')

ids_of-modify_at :
    (j : ℕ) (f : Item → Item) (id : Bytes) (out : List Item)
    → ((x : Item) → x.item_id ≡ id → (f x).item_id ≡ id)
    → get_elem? (ids_of out) j ≡ some id
    → ids_of (modify_at j f out) ≡ ids_of out
unfolding modify_at
ids_of-modify_at j f id [] keep h = refl
ids_of-modify_at zero f id (x ∷ xs) keep h =
    let e : x.item_id ≡ id = cc in ap (λ k. k ∷ ids_of xs) (keep x e ∙ sym e)
ids_of-modify_at (suc j) f id (x ∷ xs) keep h =
    ap (◌∷◌ x.item_id) (ids_of-modify_at j f id xs keep h)

ids_of-modify_all :
    (js : List ℕ) (f : Item → Item) (id : Bytes) (out : List Item)
    → ((x : Item) → x.item_id ≡ id → (f x).item_id ≡ id)
    → AtPlaces (ids_of out) id js
    → ids_of (modify_all js f out) ≡ ids_of out
unfolding modify_all
ids_of-modify_all [] f id out keep h = refl
ids_of-modify_all (j ∷ js) f id out keep h =
    let e = ids_of-modify_at j f id out keep h.0 in
    ids_of-modify_all js f id (modify_at j f out) keep (rw e h.1) ∙ e

module _ (all : List Bytes) (positions : Assoc (List ℕ)) (placed : Placed all positions) where
  add_result-ids :
      (id : Bytes) (client : ℕ) (added : AddedItem) (code : ℤ) (s : Adding)
      → ids_of s.out ≡ all
      → ids_of (add_result positions id client added code s).out ≡ all
  unfolding add_result public_item
  add_result-ids id client added code s h = elim (Bool-cases (is_negative code)) [
    | inl bad ↦ rw (bad, add_result) (ids_of-modify_all _ _ id s.out (λ x e. e) at_places ∙ h)
    | inr good ↦ rw (good, add_result) (ids_of-modify_all _ _ id s.out (λ x e. refl) at_places ∙ h)
  ]
    where
      at_places : AtPlaces (ids_of s.out) id (positions_of id positions)
      at_places = rw h (positions_of-AtPlaces all id positions placed)

  add_results-ids :
      (ids : List Bytes) (clients : List ℕ) (more : List AddedItem) (codes : List ℤ) (s : Adding)
      → ids_of s.out ≡ all
      → ids_of (add_results positions ids clients more codes s).out ≡ all
  unfolding add_results
  add_results-ids [] clients more codes s h = h
  add_results-ids (id ∷ ids) [] more codes s h = h
  add_results-ids (id ∷ ids) (c ∷ cs) [] codes s h = h
  add_results-ids (id ∷ ids) (c ∷ cs) (a ∷ more) [] s h = h
  add_results-ids (id ∷ ids) (c ∷ cs) (a ∷ more) (code ∷ codes) s h =
      add_results-ids ids cs more codes _ (add_result-ids id c a code s h)

  take_answer-ids :
      (chunk : List Bytes) (clients : List ℕ) (r : Reply AddResponse) (s : Adding)
      → ids_of s.out ≡ all
      → ids_of (take_answer positions chunk clients r s).0.out ≡ all
  unfolding take_answer
  take_answer-ids chunk clients (failed e) s h = h
  take_answer-ids chunk clients (answered r) s h =
      ground (arith, h, add_results-ids chunk clients r.items r.errors s h)

  add_batch-ids :
      (replies : ℕ → Reply AddResponse) (k : ℕ) (chunk : List Bytes) (s : Adding)
      → ids_of s.out ≡ all
      → ids_of (add_batch replies positions k chunk s).0.out ≡ all
  unfolding add_batch
  add_batch-ids replies k chunk s h =
      elim (Option-cases (allocate (length chunk) s.group.next_client_handle).1) [
        | inl e ↦ rw (e, add_batch) h
        | inr (cs, e) ↦ rw (e, add_batch) (take_answer-ids chunk cs (replies k) _ h)
      ]

add_locked-ids :
    (replies : ℕ → Reply AddResponse) (g : PersistentGroup) (ids : List Bytes)
    → ids_of (add_locked replies g ids).0.out ≡ ids
unfolding add_locked
add_locked-ids replies g ids =
    run_batches_keeps (add_batch replies s.positions) (λ st. ids_of st.out ≡ ids)
      (add_batch-ids ids s.positions scanned.placed replies) 0 (batches s.pending) _ scanned.ids
  where
    s : Scan
    s = scan_ids g 0 ids empty_scan

    scanned : IsScanned ids ids s
    scanned = scan_ids-IsScanned g ids [] ids empty_scan refl (record { ids = refl; placed = tt })

-- When addItems gets hold of the group it returns one item for each requested ItemID, in the order
-- of the request, repetitions included, whatever the server replies and however the call ends.
pub add_items-ids :
    (groups : List (ℕ × PersistentGroup)) (id : ℕ) (context_error keepalive_error : Option Error)
    (replies : ℕ → Reply AddResponse) (ids : List Bytes) (g : PersistentGroup)
    → admitted groups id context_error keepalive_error ≡ ok g
    → ids_of (add_items groups id context_error keepalive_error replies ids).1 ≡ ids
unfolding add_items
add_items-ids groups id context_error keepalive_error replies ids g e =
    rw (e, add_items) (add_locked-ids replies g ids)
