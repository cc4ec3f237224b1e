-- ===== src/Group/Add/Planned.antt =====
-- The first loop of addItems (batch.go): what it reports, and what it leaves to the batches.
use gopcda.Prelude.{
  ℕ, suc, ◌≡◌, ◌≢◌, refl, sym, ap, ◌⊎◌, inl, inr, false, ◌∙◌, none, some, List, [], ◌∷◌, ◌++◌, All,
  Option-cases, Bool-cases,
}
use gopcda.Prelude.Bytes.{Bytes, bytes_eq, bytes_eq_iff, bytes_eq_refl}
use gopcda.Prelude.Assoc.{Assoc, lookup, insert, lookup-insert}
use gopcda.Errors.{message}
use gopcda.Text.{validate_item_id}
use gopcda.Group.State.{RegisteredItem, PersistentGroup}
use gopcda.Group.Add.{Item, Scan, public_item, unadded, positions_of, scan_id, scan_ids}
use gopcda.Group.Add.Honest.{IsHonest, Unregistered, DistinctIds}

-- What a round of the first loop keeps.
pub record IsPlanned (items : Assoc RegisteredItem) (s : Scan) : Type 0 where
  pub honest : All (IsHonest items) s.out
  pub unregistered : Unregistered items s.pending
  pub distinct : DistinctIds s.pending
  pub placed : All (λ k. lookup k s.positions ≢ none) s.pending

All-append {ℓ κ} :
    {A : Type ℓ} (P : A → Type κ) (xs ys : List A) → All P xs → All P ys → All P (xs ++ ys)
All-append P [] ys h k = k
All-append P (x ∷ xs) ys h k = (h.0, All-append P xs ys h.1 k)

module _ (id : Bytes) (positions : Assoc (List ℕ)) where
  DistinctIds-append :
      (pending : List Bytes)
      → lookup id positions ≡ none
      → All (λ k. lookup k positions ≢ none) pending
      → DistinctIds pending
      → DistinctIds (pending ++ id ∷ [])
  DistinctIds-append [] new h d = (tt, tt)
  DistinctIds-append (k ∷ ks) new h d = (
    All-append (λ j. bytes_eq k j ≡ false) ks (id ∷ []) d.0 (apart, tt),
    DistinctIds-append ks new h.1 d.1,
  )
    where
      apart : bytes_eq k id ≡ false
      apart = elim (Bool-cases (bytes_eq k id)) [
        | inr e ↦ e
        | inl e ↦
            absurd (h.0 (ap (λ (l : Bytes). lookup l positions) ((bytes_eq_iff k id).0 e) ∙ new))
      ]

  insert-placed :
      (js : List ℕ) (ks : List Bytes)
      → All (λ k. lookup k positions ≢ none) ks
      → All (λ k. lookup k (insert id js positions) ≢ none) ks
  insert-placed js [] h = tt
  insert-placed js (k ∷ ks) h = (
    (λ e. elim (Bool-cases (bytes_eq id k)) [
      | inl same ↦ cc (sym (lookup-insert id k js positions) ∙ e, same)
      | inr other ↦ h.0 (sym (rw other at (lookup-insert id k js positions)) ∙ e)
    ]),
    insert-placed js ks h.1,
  )

scan_id-IsPlanned :
    (g : PersistentGroup) (i : ℕ) (id : Bytes) (s : Scan)
    → IsPlanned g.items s
    → IsPlanned g.items (scan_id g i id s)
unfolding scan_id public_item unadded
scan_id-IsPlanned g i id s h = elim (Option-cases (validate_item_id id)) [
  | inr (e, bad) ↦
      rw (bad, scan_id)
        (record {
          honest = All-append (IsHonest g.items) s.out (unadded id e ∷ []) h.honest ((λ x. cc), tt);
          unregistered = h.unregistered;
          distinct = h.distinct;
          placed = h.placed;
        })
  | inl good ↦ elim (Option-cases (lookup id g.items)) [
    | inr (v, old) ↦
        rw (good, old, scan_id)
          (record {
            honest =
                All-append (IsHonest g.items) s.out (public_item id v ∷ []) h.honest
                  ((λ x. (v, old, refl)), tt);
            unregistered = h.unregistered;
            distinct = h.distinct;
            placed = h.placed;
          })
    | inl new ↦ rw (good, new, scan_id) (pending_kept new (Option-cases (lookup id s.positions)))
  ]
]
  where
    js : List ℕ
    js = positions_of id s.positions ++ i ∷ []

    there : lookup id (insert id js s.positions) ≢ none
    there e = cc (sym (lookup-insert id id js s.positions) ∙ e, bytes_eq_refl id)

    out : List Item
    out = s.out ++ unadded id (message "item not added") ∷ []

    honest : All (IsHonest g.items) out
    honest =
        All-append (IsHonest g.items) s.out (unadded id (message "item not added") ∷ []) h.honest
          ((λ x. cc), tt)

    pending_kept :
        lookup id g.items ≡ none
        → (lookup id s.positions ≡ none) ⊎ ((ks : List ℕ) × (lookup id s.positions ≡ some ks))
        → IsPlanned g.items (record {
          out = out;
          pending = elim (lookup id s.positions) [
            | none ↦ s.pending ++ id ∷ []
            | some ks ↦ s.pending
          ];
          positions = insert id js s.positions;
        })
    pending_kept new (inl e) = rw e (record {
      honest = honest;
      unregistered =
          All-append (λ k. lookup k g.items ≡ none) s.pending (id ∷ []) h.unregistered (new, tt);
      distinct = DistinctIds-append id s.positions s.pending e h.placed h.distinct;
      placed =
          All-append (λ k. lookup k (insert id js s.positions) ≢ none) s.pending (id ∷ [])
            (insert-placed id s.positions js s.pending h.placed) (there, tt);
    })
    pending_kept new (inr (ks, e)) = rw e (record {
      honest = honest;
      unregistered = h.unregistered;
      distinct = h.distinct;
      placed = insert-placed id s.positions js s.pending h.placed;
    })

pub scan_ids-IsPlanned :
    (g : PersistentGroup) (i : ℕ) (ids : List Bytes) (s : Scan)
    → IsPlanned g.items s
    → IsPlanned g.items (scan_ids g i ids s)
unfolding scan_ids
scan_ids-IsPlanned g i [] s h = h
scan_ids-IsPlanned g i (id ∷ ids) s h =
    scan_ids-IsPlanned g (suc i) ids _ (scan_id-IsPlanned g i id s h)
