-- ===== src/Decimals/Padded.antt =====
-- The digits of fixedDecimal (value.go) with their leading zeros, and where a point cuts them.
use gopcda.Prelude.{
  ℕ, zero, suc, ◌+◌, ◌-◌, ◌^◌, ◌≤◌, ◌<◌, ◌≡◌, refl, ap, ◌∙◌, true, false, [], ◌∷◌, ◌++◌, length,
  length-append, leb, arith, Bool-cases, inl, inr,
}
use gopcda.Prelude.Bytes.{Bytes}
use gopcda.Decimals.{show_nat, zeros, pad, cut_point, all_digits, read_digits}
use gopcda.Decimals.Digits.{
  all_digits-append, read_digits-digits_of, all_digits-digits_of, length-digits_of,
  length-digits_of_pos,
}

pub cut_point-digits : (s : Bytes) → all_digits s ≡ true → cut_point s ≡ (s, ([], false))
unfolding cut_point all_digits
cut_point-digits [] h = refl
cut_point-digits (b ∷ s) h = ground (arith, h, cut_point-digits s)

pub cut_point-append :
    (s t : Bytes) → all_digits s ≡ true → cut_point (s ++ (46 ∷ t)) ≡ (s, (t, true))
unfolding cut_point all_digits
cut_point-append [] t h = refl
cut_point-append (b ∷ s) t h = ground (arith, h, cut_point-append s t)

read_digits-zeros : (k : ℕ) (s : Bytes) → read_digits 0 (zeros k ++ s) ≡ read_digits 0 s
unfolding read_digits zeros
read_digits-zeros zero s = refl
read_digits-zeros (suc k) s = read_digits-zeros k s

all_digits-zeros : (k : ℕ) → all_digits (zeros k) ≡ true
unfolding all_digits zeros
all_digits-zeros zero = refl
all_digits-zeros (suc k) = all_digits-zeros k

length-zeros : (k : ℕ) → length (zeros k) ≡ k
unfolding zeros
length-zeros zero = refl
length-zeros (suc k) = ap suc (length-zeros k)

-- A text of at least one digit that reads as n, with `scale` digits behind the first ones.
abbrev pub IsPadded : ℕ → ℕ → Bytes → Type 0
IsPadded n scale s =
    (read_digits 0 s ≡ n) × (all_digits s ≡ true) × (scale + 1 ≤ length s) × (length s ≤ 64)

le_of : (s : Bytes) (scale : ℕ) → leb (length s) scale ≡ true → length s ≤ scale
le_of s scale e = ground (arith, e)

pub pad-IsPadded :
    (n scale : ℕ) (s : Bytes) → IsPadded n 0 s → scale ≤ 28 → IsPadded n scale (pad scale s)
unfolding pad
pad-IsPadded n scale s h k = elim (Bool-cases (leb (length s) scale)) [
  | inl e ↦
      let m = scale + 1 - length s in
      rw e (
        read_digits-zeros m s ∙ h.0,
        all_digits-append (zeros m) s ∙ ground (arith, all_digits-zeros m, h.1),
        rw (length-append (zeros m) s, length-zeros m) (omega arith),
        rw (length-append (zeros m) s, length-zeros m)
            (omega (arith, k, h.2, h.3, le_of s scale e)),
      )
  | inr e ↦ rw e (h.0, h.1, ground (arith, e), h.3)
]

pub show_nat-IsPadded : (n : ℕ) → n < 2 ^ 96 → IsPadded n 0 (show_nat n)
unfolding show_nat
show_nat-IsPadded n h = (
  read_digits-digits_of (suc n) n (omega arith),
  all_digits-digits_of (suc n) n,
  length-digits_of_pos n n,
  omega (arith, length-digits_of 28 (suc n) n (omega (arith, h))),
)
