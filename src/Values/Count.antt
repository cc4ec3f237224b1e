-- ===== src/Values/Count.antt =====
-- The number of elements of an array (arrayCount of array.go): what an accepted list of bounds is.
use gopcda.Prelude.{
  ℕ, ◌⊎◌, subst, ◌+◌, ◌*◌, ◌%◌, ◌^◌, ◌≤◌, ◌<◌, ◌≡◌, false, List, [], ◌∷◌, length, ltb, All, arith,
  Bool-cases, inl, inr, sym,
}
use native.Mathlib.Nat.{mul-le-mul_left, mul_comm, mod-eq_of_lt}
use gopcda.Prelude.Int.{neg_part, pos_part}
use gopcda.Result.{ok}
use gopcda.Values.Data.{ArrayBound}
use gopcda.Values.Layout.{overflows, multiply_counts, array_count}

-- The product of the counts, in ℕ.
abbrev pub product : ℕ → List ArrayBound → ℕ
product count [] = count
product count (b ∷ bs) = product (count * b.count) bs

-- A bound of uint32 count whose last index, if there is one, is an int32.
abbrev pub IsUint32 : ArrayBound → Type 0
IsUint32 b = b.count < 2 ^ 32

abbrev pub LastFits : ArrayBound → Type 0
LastFits b = (b.count ≡ 0) ⊎ (pos_part b.lower + b.count ≤ 2 ^ 31 + neg_part b.lower)

no_wrap : (m n : ℕ) → m ≤ 2 ^ 20 → n < 2 ^ 32 → m * n < 2 ^ 64
no_wrap m n h k =
    omega (arith, mul-le-mul_left m n_le, mul-le-mul_left (2 ^ 32) h, mul_comm m (2 ^ 32))
  where
    n_le : n ≤ 2 ^ 32
    n_le = omega arith

overflows-LastFits : (b : ArrayBound) → overflows b ≡ false → LastFits b
unfolding overflows
overflows-LastFits b e = ground arith

multiply_counts-product :
    (m : ℕ) (bs : List ArrayBound) (n : ℕ)
    → m ≤ 2 ^ 20
    → All IsUint32 bs
    → multiply_counts m bs ≡ ok n
    → (n ≡ product m bs) × (n ≤ 2 ^ 20) × All LastFits bs
unfolding multiply_counts
multiply_counts-product m [] n l u h =
    let e : m ≡ n = ground arith in (sym e, subst (λ k. k ≤ 2 ^ 20) e l, tt)
multiply_counts-product m (b ∷ bs) n l u h = elim (Bool-cases (overflows b)) [
  | inl e ↦ absurd (ground arith)
  | inr e ↦ elim (Bool-cases (ltb (2 ^ 20) (m * b.count % 2 ^ 64))) [
    | inl f ↦ absurd (ground arith)
    | inr f ↦ step e f (λ small rest. multiply_counts-product (m * b.count) bs n small u.1 rest)
  ]
]
  where
    exact : m * b.count % 2 ^ 64 ≡ m * b.count
    exact = mod-eq_of_lt (no_wrap m b.count l u.0)

    step :
        overflows b ≡ false
        → ltb (2 ^ 20) (m * b.count % 2 ^ 64) ≡ false
        → (m * b.count ≤ 2 ^ 20
            → multiply_counts (m * b.count) bs ≡ ok n
            → (n ≡ product (m * b.count) bs) × (n ≤ 2 ^ 20) × All LastFits bs)
        → (n ≡ product m (b ∷ bs)) × (n ≤ 2 ^ 20) × All LastFits (b ∷ bs)
    step e f ih =
        let (same, small, fit) = ih (ground (arith, exact)) (rw (sym exact) (ground arith)) in
        (same, small, (overflows-LastFits b e, fit))

-- Where arrayCount accepts bounds with uint32 counts, there are 1 to 32 of them, its result is the
-- product of the counts, no uint64 having wrapped, and at most 2^20; and the last index of each
-- dimension that is not empty is an int32.
pub array_count-product :
    (bounds : List ArrayBound) (n : ℕ)
    → All IsUint32 bounds
    → array_count bounds ≡ ok n
    → (0 < length bounds)
      × (length bounds ≤ 32)
      × (n ≡ product 1 bounds)
      × (n ≤ 2 ^ 20)
      × All LastFits bounds
unfolding array_count
array_count-product bounds n u h =
    let (same, small, fit) = multiply_counts-product 1 bounds n (omega arith) u (ground arith) in
    (ground arith, ground arith, same, small, fit)
