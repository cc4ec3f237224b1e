-- ===== src/Group/Remove/Confirmed.antt =====
-- What removeItems reports against what the group still holds.
use gopcda.Prelude.{
  ℕ, ◌≡◌, ◌≢◌, refl, sym, ap, ◌∙◌, ◌⊎◌, inl, inr, false, Option, none, some, List, [], ◌∷◌, ◌++◌,
  length, arith, Option-cases, Bool-cases,
}
use gopcda.Prelude.Int.{ℤ, is_negative}
use gopcda.Prelude.Bytes.{Bytes, bytes_eq, bytes_eq_refl}
use gopcda.Prelude.Assoc.{Assoc, lookup, insert, delete, lookup-delete}
use gopcda.Errors.{Error, hresult_error}
use gopcda.Group.Batches.{batches, batches-cover, concat, run_batches_inv, Outcome}
use gopcda.Group.State.{RegisteredItem, PersistentGroup, Reply, failed, answered}
use gopcda.Group.Remove.{
  RemoveResponse, Removals, RemovePlan, Removing, plan_removals, removal_error, unconfirmed,
  confirm, codes_of, after, remove_batch, remove_locked, empty_removal,
}
use gopcda.Group.Remove.Ids.{In, DistinctIds, In-apart, removal_at}
use gopcda.Group.Remove.Planned.{IsListed, plan_removals-IsListed}

-- What holds when the operation ends, `old` being the registry before it: a nil result means that
-- the item is not registered, and the registry is as it was at every other ItemID.
pub record IsConfirmed (old : Assoc RegisteredItem) (items : Assoc RegisteredItem) (out : Removals)
    : Type 0 where
  pub absent : (id : Bytes) → lookup id out ≡ some none → lookup id items ≡ none
  pub kept : (id : Bytes) → lookup id out ≢ some none → lookup id items ≡ lookup id old

-- What holds between items, `left` being the items that no batch has settled.
record IsRemoving (old : Assoc RegisteredItem) (left : List Bytes) (items : Assoc RegisteredItem)
    (out : Removals) : Type 0 where
  absent : (id : Bytes) → lookup id out ≡ some none → (lookup id items ≡ none) ⊎ In id left
  kept : (id : Bytes) → lookup id out ≢ some none → lookup id items ≡ lookup id old
  waiting : (id : Bytes) → In id left → lookup id items ≡ lookup id old
  distinct : DistinctIds left

refuse_item :
    (old : Assoc RegisteredItem) (id : Bytes) (left : List Bytes) (items : Assoc RegisteredItem)
    (out : Removals) (e : Error)
    → IsRemoving old (id ∷ left) items out
    → IsRemoving old left items (insert id (some e) out)
refuse_item old id left items out e h = record {
  absent = λ j n. elim (removal_at id j (some e) out) [
    | inl (same, here) ↦ cc
    | inr (other, there) ↦ elim (h.absent j (sym there ∙ n)) [
      | inl gone ↦ inl gone
      | inr (inl same) ↦ cc (ap (bytes_eq id) same, bytes_eq_refl id)
      | inr (inr more) ↦ inr more
    ]
  ];
  kept = λ j n. elim (removal_at id j (some e) out) [
    | inl (same, here) ↦ h.waiting j (inl same)
    | inr (other, there) ↦ h.kept j (λ x. n (there ∙ x))
  ];
  waiting = λ j i. h.waiting j (inr i);
  distinct = h.distinct.1;
}

remove_item :
    (old : Assoc RegisteredItem) (id : Bytes) (left : List Bytes) (items : Assoc RegisteredItem)
    (out : Removals)
    → IsRemoving old (id ∷ left) items out
    → IsRemoving old left (delete id items) (insert id none out)
remove_item old id left items out h = record {
  absent = λ j n. elim (removal_at id j none out) [
    | inl (same, here) ↦ inl (gone j same)
    | inr (other, there) ↦ elim (h.absent j (sym there ∙ n)) [
      | inl e ↦ inl (stays j other ∙ e)
      | inr (inl same) ↦ inl (gone j same)
      | inr (inr more) ↦ inr more
    ]
  ];
  kept = λ j n. elim (removal_at id j none out) [
    | inl (same, here) ↦ absurd (n here)
    | inr (other, there) ↦ stays j other ∙ h.kept j (λ x. n (there ∙ x))
  ];
  waiting = λ j i. stays j (In-apart id j left h.distinct.0 i) ∙ h.waiting j (inr i);
  distinct = h.distinct.1;
}
  where
    gone : (j : Bytes) → id ≡ j → lookup j (delete id items) ≡ none
    gone j e = lookup-delete id j items ∙ rw (← e, bytes_eq_refl id)

    stays : (j : Bytes) → bytes_eq id j ≡ false → lookup j (delete id items) ≡ lookup j items
    stays j e = lookup-delete id j items ∙ rw e

confirm-IsRemoving :
    (old : Assoc RegisteredItem) (ids left : List Bytes) (codes : List ℤ) (s : Removing)
    → length codes ≡ length ids
    → IsRemoving old (ids ++ left) s.group.items s.out
    → IsRemoving old left (confirm ids codes s).group.items (confirm ids codes s).out
unfolding confirm
confirm-IsRemoving old [] left codes s l h = h
confirm-IsRemoving old (id ∷ ids) left [] s l h = absurd (omega arith)
confirm-IsRemoving old (id ∷ ids) left (code ∷ codes) s l h = elim (Bool-cases (is_negative code)) [
  | inl bad ↦
      rw (bad, confirm)
        (confirm-IsRemoving old ids left codes _ (omega arith) (
          refuse_item old id (ids ++ left) s.group.items s.out (hresult_error "RemoveItems" id code)
            h))
  | inr good ↦
      rw (good, confirm)
        (confirm-IsRemoving old ids left codes _ (omega arith)
          (remove_item old id (ids ++ left) s.group.items s.out h))
]

unconfirmed-IsRemoving :
    (old : Assoc RegisteredItem) (ids : List Bytes) (e : Error) (items : Assoc RegisteredItem)
    (out : Removals)
    → IsRemoving old ids items out
    → IsRemoving old [] items (unconfirmed ids e out)
unfolding unconfirmed
unconfirmed-IsRemoving old [] e items out h = h
unconfirmed-IsRemoving old (id ∷ ids) e items out h =
    unconfirmed-IsRemoving old ids e items _ (refuse_item old id ids items out _ h)

done :
    (old items : Assoc RegisteredItem) (out : Removals)
    → IsRemoving old [] items out
    → IsConfirmed old items out
done old items out h = record {
  absent = λ id n. elim (h.absent id n) [ inl gone ↦ gone | inr i ↦ absurd i ];
  kept = h.kept;
}

-- The state of the loop between batches.
record IsAt (old : Assoc RegisteredItem) (rest : List (List Bytes)) (s : Removing) : Type 0 where
  left : s.left ≡ concat rest
  removing : IsRemoving old (concat rest) s.group.items s.out

after-append : (xs ys : List Bytes) → after xs (xs ++ ys) ≡ ys
after-append [] ys = refl
after-append (x ∷ xs) ys = after-append xs ys

removal_error-length :
    (r : Reply RemoveResponse) (count : ℕ)
    → removal_error r count ≡ none
    → length (codes_of r) ≡ count
unfolding removal_error
removal_error-length (failed e) count h = cc
removal_error-length (answered r) count h = ground arith

left-confirm :
    (ids : List Bytes) (codes : List ℤ) (t : Removing) → (confirm ids codes t).left ≡ t.left
unfolding confirm
left-confirm [] codes t = refl
left-confirm (id ∷ ids) [] t = refl
left-confirm (id ∷ ids) (code ∷ codes) t = left-confirm ids codes _ ∙ ground arith

remove_batch-IsAt :
    (old : Assoc RegisteredItem) (replies : ℕ → Reply RemoveResponse) (k : ℕ) (chunk : List Bytes)
    (rest : List (List Bytes)) (s : Removing)
    → IsAt old (chunk ∷ rest) s
    → Outcome
        (IsAt old rest)
        (λ e s'. IsConfirmed old s'.group.items s'.out)
        (remove_batch replies k chunk s)
unfolding remove_batch
remove_batch-IsAt old replies k chunk rest s h =
    elim (Option-cases (removal_error (replies k) (length chunk))) [
      | inr (e, bad) ↦
          rw (bad, remove_batch)
            (done old _ _ (unconfirmed-IsRemoving old s.left e _ _ (rw h.left h.removing)))
      | inl good ↦
          rw (good, remove_batch)
            (record {
              left =
                  left-confirm chunk (codes_of (replies k)) _
                  ∙ rw h.left (after-append chunk (concat rest));
              removing =
                  confirm-IsRemoving old chunk (concat rest) (codes_of (replies k)) _
                    (removal_error-length (replies k) (length chunk) good) h.removing;
            })
    ]

-- Whatever the server replies and however the operation ends: an item whose result is nil is not
-- registered any more, and at every other ItemID (one with an error, or one that was not asked
-- for) the registry is as it was before the call.
pub remove_locked-IsConfirmed :
    (replies : ℕ → Reply RemoveResponse) (g : PersistentGroup) (ids : List Bytes)
    → IsConfirmed g.items
        (remove_locked replies g ids).0.group.items
        (remove_locked replies g ids).0.out
unfolding remove_locked
remove_locked-IsConfirmed replies g ids = settled _ (
    run_batches_inv (remove_batch replies) (IsAt g.items)
      (λ e s. IsConfirmed g.items s.group.items s.out)
      (λ k b bs s. remove_batch-IsAt g.items replies k b bs s) 0 (batches p.pending) start begun)
  where
    p : RemovePlan
    p = plan_removals g ids empty_removal

    start : Removing
    start = record { group = g; out = p.out; left = p.pending }

    plan : IsListed g.items p
    plan = plan_removals-IsListed g ids empty_removal (record {
      absent = λ id n. unfold lookup in cc;
      no_error = λ id e n. unfold lookup in cc;
      distinct = tt;
      listed = tt;
    })

    begun : IsAt g.items (batches p.pending) start
    begun = record {
      left = sym (batches-cover p.pending).0;
      removing = rw (batches-cover p.pending).0 (record {
        absent = plan.absent;
        kept = λ id n. refl;
        waiting = λ id i. refl;
        distinct = plan.distinct;
      });
    }

    settled :
        (r : Removing × Option Error)
        → Outcome (IsAt g.items []) (λ e s. IsConfirmed g.items s.group.items s.out) r
        → IsConfirmed g.items r.0.group.items r.0.out
    settled (s, none) h = done g.items s.group.items s.out h.removing
    settled (s, some e) h = h
