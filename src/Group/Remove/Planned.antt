-- ===== src/Group/Remove/Planned.antt =====
-- The first loop of removeItems (remove.go): the results and the items that it leaves to remove.
use gopcda.Prelude.{
  ◌≡◌, ◌≢◌, refl, sym, subst, ap, ◌∙◌, ◌⊎◌, inl, inr, false, Option, none, some, List, [], ◌∷◌,
  ◌++◌, All, Option-cases, Bool-cases,
}
use gopcda.Prelude.Bytes.{Bytes, bytes_eq, bytes_eq_iff, bytes_eq_refl}
use gopcda.Prelude.Assoc.{Assoc, lookup, insert, lookup-insert}
use gopcda.Errors.{Error}
use gopcda.Group.State.{RegisteredItem, PersistentGroup}
use gopcda.Group.Remove.{Removals, RemovePlan, plan_removal, plan_removals}
use gopcda.Group.Remove.Ids.{In, DistinctIds, removal_at}

-- What a round of the first loop keeps.
pub record IsListed (items : Assoc RegisteredItem) (p : RemovePlan) : Type 0 where
  pub absent :
      (id : Bytes) → lookup id p.out ≡ some none → (lookup id items ≡ none) ⊎ In id p.pending
  pub no_error : (id : Bytes) (e : Error) → lookup id p.out ≢ some (some e)
  pub distinct : DistinctIds p.pending
  pub listed : All (λ k. lookup k p.out ≢ none) p.pending

In-snoc : (id x : Bytes) (xs : List Bytes) → In id xs → In id (xs ++ x ∷ [])
In-snoc id x [] i = absurd i
In-snoc id x (y ∷ ys) (inl e) = inl e
In-snoc id x (y ∷ ys) (inr i) = inr (In-snoc id x ys i)

In-last : (id : Bytes) (xs : List Bytes) → In id (xs ++ id ∷ [])
In-last id [] = inl refl
In-last id (x ∷ xs) = inr (In-last id xs)

All-snoc {ℓ} :
    {A : Type ℓ} (P : A → Type 0) (xs : List A) (y : A) → All P xs → P y → All P (xs ++ y ∷ [])
All-snoc P [] y h p = (p, tt)
All-snoc P (x ∷ xs) y h p = (h.0, All-snoc P xs y h.1 p)

DistinctIds-snoc :
    (id : Bytes) (out : Removals) (ks : List Bytes)
    → lookup id out ≡ none
    → All (λ k. lookup k out ≢ none) ks
    → DistinctIds ks
    → DistinctIds (ks ++ id ∷ [])
DistinctIds-snoc id out [] new l d = (tt, tt)
DistinctIds-snoc id out (k ∷ ks) new l d = (
  All-snoc (λ j. bytes_eq k j ≡ false) ks id d.0
      (elim (Bool-cases (bytes_eq k id)) [
        | inr e ↦ e
        | inl e ↦ absurd (l.0 (ap (λ (j : Bytes). lookup j out) ((bytes_eq_iff k id).0 e) ∙ new))
      ]),
  DistinctIds-snoc id out ks new l.1 d.1,
)

listed_after :
    (id : Bytes) (v : Option Error) (out : Removals) (ks : List Bytes)
    → All (λ k. lookup k out ≢ none) ks
    → All (λ k. lookup k (insert id v out) ≢ none) ks
listed_after id v out [] h = tt
listed_after id v out (k ∷ ks) h = (
  (λ n. elim (removal_at id k v out) [
    | inl (same, here) ↦ cc
    | inr (other, there) ↦ h.0 (sym there ∙ n)
  ]),
  listed_after id v out ks h.1,
)

plan_removal-IsListed :
    (g : PersistentGroup) (id : Bytes) (p : RemovePlan)
    → IsListed g.items p
    → IsListed g.items (plan_removal g id p)
unfolding plan_removal
plan_removal-IsListed g id p h = elim (Option-cases (lookup id p.out)) [
  | inr (v, seen) ↦ rw (seen, plan_removal) h
  | inl new ↦ elim (Option-cases (lookup id g.items)) [
    | inl e ↦
        rw (new, e, plan_removal)
          (record {
            absent = λ j n. elim (removal_at id j none p.out) [
              | inl (same, here) ↦ inl (ap (λ (k : Bytes). lookup k g.items) (sym same) ∙ e)
              | inr (other, there) ↦ h.absent j (sym there ∙ n)
            ];
            no_error = quiet;
            distinct = h.distinct;
            listed = listed_after id none p.out p.pending h.listed;
          })
    | inr (v, e) ↦
        rw (new, e, plan_removal)
          (record {
            absent = λ j n. elim (removal_at id j none p.out) [
              | inl (same, here) ↦
                  inr (subst (λ k. In k (p.pending ++ id ∷ [])) same (In-last id p.pending))
              | inr (other, there) ↦ elim (h.absent j (sym there ∙ n)) [
                | inl gone ↦ inl gone
                | inr i ↦ inr (In-snoc j id p.pending i)
              ]
            ];
            no_error = quiet;
            distinct = DistinctIds-snoc id p.out p.pending new h.listed h.distinct;
            listed =
                All-snoc (λ k. lookup k (insert id none p.out) ≢ none) p.pending id
                  (listed_after id none p.out p.pending h.listed)
                  (λ n. cc (lookup-insert id id none p.out, bytes_eq_refl id));
          })
  ]
]
  where
    quiet : (j : Bytes) (x : Error) → lookup j (insert id none p.out) ≢ some (some x)
    quiet j x n = elim (removal_at id j none p.out) [
      | inl (same, here) ↦ cc
      | inr (other, there) ↦ h.no_error j x (sym there ∙ n)
    ]

pub plan_removals-IsListed :
    (g : PersistentGroup) (ids : List Bytes) (p : RemovePlan)
    → IsListed g.items p
    → IsListed g.items (plan_removals g ids p)
unfolding plan_removals
plan_removals-IsListed g [] p h = h
plan_removals-IsListed g (id ∷ ids) p h =
    plan_removals-IsListed g ids _ (plan_removal-IsListed g id p h)
