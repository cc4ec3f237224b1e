-- ===== src/Lifecycle/Client/Total.antt =====
-- Sums over lists and over the values of a map: for the accounts of what a client holds. Two lists
-- have the same elements, each as often, when every weight gives them the same total.
use gopcda.Prelude.{
  ℕ, ◌+◌, ◌≡◌, refl, none, some, List, [], ◌∷◌, ◌++◌, ◌==◌, arith, Bool-cases, inl, inr,
}
use gopcda.Prelude.IntMap.{find, put, remove, find-put, find-remove}

module _ {ℓ} {A : Type ℓ} where
  unfoldable pub total : (A → ℕ) → List A → ℕ
  total w [] = 0
  total w (x ∷ xs) = w x + total w xs

  pub total-append : (w : A → ℕ) (xs ys : List A) → total w (xs ++ ys) ≡ total w xs + total w ys
  unfolding total
  total-append w [] ys = omega arith
  total-append w (x ∷ xs) ys = omega (arith, total-append w xs ys)

module _ {ℓ} {V : Type ℓ} where
  -- The sum over the values of a map.
  unfoldable pub weigh : (V → ℕ) → List (ℕ × V) → ℕ
  weigh w [] = 0
  weigh w ((k, v) ∷ m) = w v + weigh w m

  -- No key stands twice.
  abbrev pub IsUnique : List (ℕ × V) → Type ℓ
  IsUnique [] = Unit
  IsUnique ((k, v) ∷ m) = (find k m ≡ none) × IsUnique m

  pub weigh-put :
      (w : V → ℕ) (k : ℕ) (v : V) (m : List (ℕ × V))
      → find k m ≡ none
      → weigh w (put k v m) ≡ w v + weigh w m
  unfolding weigh put find
  weigh-put w k v [] h = refl
  weigh-put w k v ((j, u) ∷ m) h = ground (arith, h, weigh-put w k v m)

  pub put-IsUnique :
      (k : ℕ) (v : V) (m : List (ℕ × V)) → find k m ≡ none → IsUnique m → IsUnique (put k v m)
  unfolding put find
  put-IsUnique k v [] h u = (refl, tt)
  put-IsUnique k v ((j, x) ∷ m) h u = elim (Bool-cases (j == k)) [
    | inl e ↦ absurd (ground (arith, e, h))
    | inr e ↦
        rw e (
          ground (arith, e, find-put k j v m, u.0),
          put-IsUnique k v m (ground (arith, e, h)) (u.1),
        )
  ]

  pub remove-absent : (k : ℕ) (m : List (ℕ × V)) → find k m ≡ none → remove k m ≡ m
  unfolding find remove
  remove-absent k [] h = refl
  remove-absent k ((j, v) ∷ m) h = ground (arith, h, remove-absent k m)

  pub weigh-remove :
      (w : V → ℕ) (k : ℕ) (v : V) (m : List (ℕ × V))
      → IsUnique m
      → find k m ≡ some v
      → w v + weigh w (remove k m) ≡ weigh w m
  unfolding weigh remove find
  weigh-remove w k v [] u h = cc
  weigh-remove w k v ((j, x) ∷ m) u h = elim (Bool-cases (j == k)) [
    | inl e ↦ ground (arith, e, h, remove-absent j m (u.0), u.0)
    | inr e ↦ ground (arith, e, h, weigh-remove w k v m (u.1))
  ]

  pub remove-IsUnique : (k : ℕ) (m : List (ℕ × V)) → IsUnique m → IsUnique (remove k m)
  unfolding remove
  remove-IsUnique k [] u = tt
  remove-IsUnique k ((j, v) ∷ m) u = elim (Bool-cases (j == k)) [
    | inl e ↦ rw e (remove-IsUnique k m (u.1))
    | inr e ↦ rw e (ground (arith, find-remove k j m, u.0), remove-IsUnique k m (u.1))
  ]
