-- ===== src/Prelude/Order.antt =====
-- Go's order on strings, slices.Sort on them, and the keys of a map: what sorting keeps.
use mathlib.Core.Path.{◌≡◌, refl, sym, ◌∙◌}
use mathlib.Core.Logic.{inl, inr}
use mathlib.Core.Bool.{Bool, true, false, ◌&&◌, ◌||◌}
use mathlib.Core.List.{List, [], ◌∷◌, ◌++◌}
use native.Mathlib.Omega.{arith}
use gopcda.Prelude.Tests.{ltb, ◌==◌, if◌then◌else◌, Bool-cases}
use gopcda.Prelude.Lists.{All}
use gopcda.Prelude.Bytes.{Bytes, bytes_eq, bytes_eq_iff, bytes_eq_sound}
use gopcda.Prelude.Assoc.{Assoc, insert}

unfoldable pub bytes_lt : Bytes → Bytes → Bool
bytes_lt [] [] = false
bytes_lt [] (y ∷ ys) = true
bytes_lt (x ∷ xs) [] = false
bytes_lt (x ∷ xs) (y ∷ ys) = ltb x y || (x == y && bytes_lt xs ys)

pub bytes_lt_trans :
    (xs ys zs : Bytes) → bytes_lt xs ys ≡ true → bytes_lt ys zs ≡ true → bytes_lt xs zs ≡ true
unfolding bytes_lt
bytes_lt_trans [] [] zs h k = cc
bytes_lt_trans [] (y ∷ ys) [] h k = cc
bytes_lt_trans [] (y ∷ ys) (z ∷ zs) h k = refl
bytes_lt_trans (x ∷ xs) [] zs h k = cc
bytes_lt_trans (x ∷ xs) (y ∷ ys) [] h k = cc
bytes_lt_trans (x ∷ xs) (y ∷ ys) (z ∷ zs) h k = ground (arith, bytes_lt_trans xs ys zs)

-- Of two different strings one comes first.
pub bytes_lt_total :
    (xs ys : Bytes) → bytes_lt xs ys ≡ false → bytes_eq xs ys ≡ false → bytes_lt ys xs ≡ true
unfolding bytes_lt bytes_eq
bytes_lt_total [] [] h k = cc
bytes_lt_total [] (y ∷ ys) h k = cc
bytes_lt_total (x ∷ xs) [] h k = refl
bytes_lt_total (x ∷ xs) (y ∷ ys) h k = ground (arith, bytes_lt_total xs ys)

unfoldable pub contains : Bytes → List Bytes → Bool
contains k [] = false
contains k (x ∷ xs) = bytes_eq x k || contains k xs

pub contains-append :
    (k : Bytes) (xs ys : List Bytes) → contains k (xs ++ ys) ≡ (contains k xs || contains k ys)
unfolding contains
contains-append k [] ys = refl
contains-append k (x ∷ xs) ys = ground (arith, contains-append k xs ys)

unfoldable pub insert_sorted : Bytes → List Bytes → List Bytes
insert_sorted x [] = x ∷ []
insert_sorted x (y ∷ ys) =
    let rest = insert_sorted x ys in if bytes_lt y x then y ∷ rest else x ∷ y ∷ ys

-- slices.Sort of strings.
unfoldable pub sort : List Bytes → List Bytes
unfolding insert_sorted
sort [] = []
sort (x ∷ xs) = insert_sorted x (sort xs)

-- No string stands twice.
abbrev pub IsDistinct : List Bytes → Type 0
IsDistinct [] = Unit
IsDistinct (x ∷ xs) = (contains x xs ≡ false) × IsDistinct xs

-- Each string comes before all that follow it, so that none stands twice.
abbrev pub IsAscending : List Bytes → Type 0
IsAscending [] = Unit
IsAscending (x ∷ xs) = All (λ y. bytes_lt x y ≡ true) xs × IsAscending xs

contains-insert_sorted :
    (k x : Bytes) (xs : List Bytes) → contains k (insert_sorted x xs) ≡ contains k (x ∷ xs)
unfolding contains insert_sorted
contains-insert_sorted k x [] = refl
contains-insert_sorted k x (y ∷ ys) = ground (arith, contains-insert_sorted k x ys)

pub contains-sort : (k : Bytes) (xs : List Bytes) → contains k (sort xs) ≡ contains k xs
unfolding sort contains
contains-sort k [] = refl
contains-sort k (x ∷ xs) = ground (arith, contains-insert_sorted k x (sort xs), contains-sort k xs)

All-after :
    (x y : Bytes) (ys : List Bytes)
    → bytes_lt x y ≡ true
    → All (λ z. bytes_lt y z ≡ true) ys
    → All (λ z. bytes_lt x z ≡ true) ys
All-after x y [] h k = tt
All-after x y (z ∷ zs) h k = (bytes_lt_trans x y z h (k.0), All-after x y zs h (k.1))

All-insert_sorted :
    (x y : Bytes) (ys : List Bytes)
    → bytes_lt y x ≡ true
    → All (λ z. bytes_lt y z ≡ true) ys
    → All (λ z. bytes_lt y z ≡ true) (insert_sorted x ys)
unfolding insert_sorted
All-insert_sorted x y [] h k = (h, tt)
All-insert_sorted x y (z ∷ zs) h k = elim (Bool-cases (bytes_lt z x)) [
  | inl e ↦ rw e (k.0, All-insert_sorted x y zs h (k.1))
  | inr e ↦ rw e (h, k)
]

insert_sorted-IsAscending :
    (x : Bytes) (xs : List Bytes)
    → contains x xs ≡ false
    → IsAscending xs
    → IsAscending (insert_sorted x xs)
unfolding insert_sorted contains
insert_sorted-IsAscending x [] h k = (tt, tt)
insert_sorted-IsAscending x (y ∷ ys) h k = elim (Bool-cases (bytes_lt y x)) [
  | inl e ↦
      rw e
        (All-insert_sorted x y ys e (k.0), insert_sorted-IsAscending x ys (ground (arith, h)) (k.1))
  | inr e ↦
      let before = bytes_lt_total y x e (ground (arith, h)) in
      rw e ((before, All-after x y ys before (k.0)), k)
]

-- Sorting strings of which none stands twice.
pub sort-IsAscending : (xs : List Bytes) → IsDistinct xs → IsAscending (sort xs)
unfolding sort
sort-IsAscending [] h = tt
sort-IsAscending (x ∷ xs) h =
    insert_sorted-IsAscending x (sort xs) (contains-sort x xs ∙ h.0) (sort-IsAscending xs (h.1))

-- The keys of a map.
unfoldable pub keys {ℓ} : {V : Type ℓ} → Assoc V → List Bytes
keys [] = []
keys ((k, v) ∷ m) = k ∷ keys m

module _ {ℓ} {V : Type ℓ} where
  pub contains-keys-insert :
      (j k : Bytes) (v : V) (m : Assoc V)
      → contains j (keys (insert k v m)) ≡ (bytes_eq k j || contains j (keys m))
  unfolding contains keys insert
  contains-keys-insert j k v [] = refl
  contains-keys-insert j k v ((i, w) ∷ m) =
      ground (arith, bytes_eq_iff i k, contains-keys-insert j k v m)

  pub keys-insert-IsDistinct :
      (k : Bytes) (v : V) (m : Assoc V) → IsDistinct (keys m) → IsDistinct (keys (insert k v m))
  unfolding contains keys insert
  keys-insert-IsDistinct k v [] h = (refl, tt)
  keys-insert-IsDistinct k v ((i, w) ∷ m) h = elim (Bool-cases (bytes_eq i k)) [
    | inl e ↦ rw e (rw (sym (bytes_eq_sound i k e)) (h.0), h.1)
    | inr e ↦ rw e (
      ground (arith, h.0, contains-keys-insert i k v m, bytes_eq_iff i k, bytes_eq_iff k i),
      keys-insert-IsDistinct k v m (h.1),
    )
  ]
