-- ===== src/Group/Remove/Ids.antt =====
-- ItemIDs in lists and in the result map of removeItems (remove.go).
use gopcda.Prelude.{◌≡◌, ◌⊎◌, inl, inr, false, Option, some, List, [], ◌∷◌, All, Bool-cases}
use gopcda.Prelude.Bytes.{Bytes, bytes_eq, bytes_eq_iff}
use gopcda.Prelude.Assoc.{lookup, insert, lookup-insert}
use gopcda.Errors.{Error}
use gopcda.Group.Remove.{Removals}

-- The ItemID is in the list.
abbrev pub In : Bytes → List Bytes → Type 0
In id [] = ⊥
In id (x ∷ xs) = (x ≡ id) ⊎ In id xs

abbrev pub DistinctIds : List Bytes → Type 0
DistinctIds [] = Unit {0}
DistinctIds (k ∷ ks) = All (λ j. bytes_eq k j ≡ false) ks × DistinctIds ks

pub In-apart :
    (k id : Bytes) (ks : List Bytes)
    → All (λ j. bytes_eq k j ≡ false) ks
    → In id ks
    → bytes_eq k id ≡ false
In-apart k id [] h i = absurd i
In-apart k id (j ∷ js) h (inl e) = rw (← e) h.0
In-apart k id (j ∷ js) h (inr i) = In-apart k id js h.1 i

-- An entry of an updated map, by whether its key is the one of the update.
pub removal_at :
    (k j : Bytes) (v : Option Error) (m : Removals)
    → ((k ≡ j) × (lookup j (insert k v m) ≡ some v))
      ⊎ ((bytes_eq k j ≡ false) × (lookup j (insert k v m) ≡ lookup j m))
removal_at k j v m = elim (Bool-cases (bytes_eq k j)) [
  | inl same ↦ inl ((bytes_eq_iff k j).0 same, rw same at (lookup-insert k j v m))
  | inr other ↦ inr (other, rw other at (lookup-insert k j v m))
]
