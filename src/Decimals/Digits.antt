-- ===== src/Decimals/Digits.antt =====
-- The decimal digits of a number (value.go, cmd/opcda/value.go): what reading them gives, how many
-- there are, and that they are digits.
use gopcda.Prelude.{
  ℕ, zero, suc, ◌+◌, ◌-◌, ◌*◌, ◌/◌, ◌%◌, ◌^◌, ◌≤◌, ◌<◌, ◌≡◌, refl, true, false, ◌&&◌, [], ◌∷◌, ◌++◌,
  length, length-append, ltb, arith, Bool-cases, inl, inr,
}
use gopcda.Prelude.Bytes.{Bytes}
use gopcda.Decimals.{digits_of, all_digits, read_digits}

pub read_digits-append :
    (n : ℕ) (s t : Bytes) → read_digits n (s ++ t) ≡ read_digits (read_digits n s) t
unfolding read_digits
read_digits-append n [] t = refl
read_digits-append n (b ∷ s) t = read_digits-append (10 * n + (b - 48)) s t

pub all_digits-append : (s t : Bytes) → all_digits (s ++ t) ≡ (all_digits s && all_digits t)
unfolding all_digits
all_digits-append [] t = refl
all_digits-append (b ∷ s) t = ground (arith, all_digits-append s t)

at_least_ten : (n : ℕ) → ltb n 10 ≡ false → 10 ≤ n
at_least_ten n e = ground (arith, e)

tenth_lt : (n fuel : ℕ) → n < suc fuel → ltb n 10 ≡ false → n / 10 < fuel
tenth_lt n fuel h e = omega (arith, h, at_least_ten n e)

pub read_digits-digits_of : (fuel n : ℕ) → n < fuel → read_digits 0 (digits_of fuel n) ≡ n
unfolding digits_of read_digits
read_digits-digits_of zero n h = absurd (omega (arith, h))
read_digits-digits_of (suc fuel) n h = elim (Bool-cases (ltb n 10)) [
  | inl e ↦ rw e (omega arith)
  | inr e ↦
      rw (e, read_digits-append 0 (digits_of fuel (n / 10)) ((48 + n % 10) ∷ []))
        (omega (arith, read_digits-digits_of fuel (n / 10) (tenth_lt n fuel h e)))
]

pub all_digits-digits_of : (fuel n : ℕ) → all_digits (digits_of fuel n) ≡ true
unfolding digits_of all_digits
all_digits-digits_of zero n = refl
all_digits-digits_of (suc fuel) n = elim (Bool-cases (ltb n 10)) [
  | inl e ↦ rw e (ground (arith, e))
  | inr e ↦
      rw (e, all_digits-append (digits_of fuel (n / 10)) ((48 + n % 10) ∷ []))
        (ground (arith, all_digits-digits_of fuel (n / 10)))
]

tenth_below : (n k : ℕ) → n < 10 ^ suc (suc k) → n / 10 < 10 ^ suc k
tenth_below n k h = omega (arith, h)

-- A number below 10^(k + 1) has at most k + 1 digits.
pub length-digits_of : (k fuel n : ℕ) → n < 10 ^ suc k → length (digits_of fuel n) ≤ suc k
unfolding digits_of
length-digits_of k zero n h = omega arith
length-digits_of zero (suc fuel) n h = elim (Bool-cases (ltb n 10)) [
  | inl e ↦ rw e (omega arith)
  | inr e ↦ absurd (omega (arith, h, at_least_ten n e))
]
length-digits_of (suc k) (suc fuel) n h = elim (Bool-cases (ltb n 10)) [
  | inl e ↦ rw e (omega arith)
  | inr e ↦
      rw (e, length-append (digits_of fuel (n / 10)) ((48 + n % 10) ∷ []))
        (omega (arith, length-digits_of k fuel (n / 10) (tenth_below n k h)))
]

-- There is a digit.
pub length-digits_of_pos : (fuel n : ℕ) → 1 ≤ length (digits_of (suc fuel) n)
unfolding digits_of
length-digits_of_pos fuel n = elim (Bool-cases (ltb n 10)) [
  | inl e ↦ rw e (omega arith)
  | inr e ↦ rw (e, length-append (digits_of fuel (n / 10)) ((48 + n % 10) ∷ [])) (omega arith)
]
