-- ===== src/Decimals/RoundTrip.antt =====
-- Printing and parsing exact decimals (value.go, cmd/opcda/value.go).
use gopcda.Prelude.{
  ℕ, zero, suc, ◌+◌, ◌-◌, ◌*◌, ◌/◌, ◌%◌, ◌^◌, ◌≤◌, ◌<◌, ◌≡◌, refl, sym, ap, subst, ◌∙◌, Bool, true,
  false, ◌||◌, [], ◌∷◌, ◌++◌, length, length-append, length-drop, take, drop, take-append-drop, ltb,
  leb, ◌==◌, arith, Bool-cases, inl, inr, &&_iff,
}
use mathlib.Core.List.{append-nil}
use gopcda.Prelude.Int.{ℤ, pos_part, neg_part}
use gopcda.Prelude.Bytes.{Bytes}
use gopcda.Errors.{message}
use gopcda.Result.{ok, refuse, ◌>>◌}
use gopcda.Values.Data.{Decimal}
use gopcda.Decimals.{
  show_nat, pad, put_point, put_sign, fixed_decimal, show_decimal, cut_point, all_digits,
  read_digits, Coefficient, has_prefix, is_nil, unsigned, parse_parts, parse_coefficient,
  parse_decimal, show_currency, as_currency, parse_currency,
}
use gopcda.Decimals.Digits.{all_digits-append}
use gopcda.Decimals.Padded.{
  cut_point-digits, cut_point-append, IsPadded, pad-IsPadded, show_nat-IsPadded,
}

unsigned-put_sign :
    (negative : Bool) (w t : Bytes)
    → all_digits w ≡ true
    → is_nil w ≡ false
    → (unsigned (put_sign negative (w ++ t)) ≡ w ++ t)
      × (has_prefix 45 (put_sign negative (w ++ t)) ≡ negative)
unfolding unsigned all_digits
unsigned-put_sign negative [] t h k = cc
unsigned-put_sign true (b ∷ w) t h k = (refl, refl)
unsigned-put_sign false (b ∷ w) t h k = (ground (arith, h), ground (arith, h))

is_nil-pos : (s : Bytes) → 1 ≤ length s → is_nil s ≡ false
is_nil-pos [] h = absurd (omega (arith, h))
is_nil-pos (b ∷ s) h = refl

short_enough :
    (n : ℕ) (c : Coefficient)
    → 1 ≤ n
    → n ≤ 128
    → (refuse (n == 0 || ltb 128 n) (message "invalid decimal value") >> ok c) ≡ ok c
short_enough n c h k = ground (arith, h, k)

-- A signed text whose unsigned part is short enough, by its parts.
parse_coefficient-signed :
    (negative : Bool) (w t : Bytes) (c : Coefficient)
    → all_digits w ≡ true
    → 1 ≤ length w
    → length (w ++ t) ≤ 128
    → parse_parts negative (cut_point (w ++ t)) ≡ ok c
    → parse_coefficient (put_sign negative (w ++ t)) ≡ ok c
unfolding parse_coefficient
parse_coefficient-signed negative w t c h k l parts =
    let signs = unsigned-put_sign negative w t h (is_nil-pos w k) in
    rw (signs.0, signs.1, parts)
      (short_enough (length (w ++ t)) c (rw (length-append w t) (omega (arith, k))) l)

parse_parts-digits :
    (negative : Bool) (n : ℕ) (s : Bytes)
    → IsPadded n 0 s
    → parse_parts negative (s, ([], false))
      ≡ ok (record { value = n; scale = 0; negative = negative })
unfolding parse_parts
parse_parts-digits negative n s h = rw (append-nil s, h.0, h.1, is_nil-pos s (h.2)) refl

parse_parts-point :
    (negative : Bool) (n : ℕ) (w f : Bytes)
    → read_digits 0 (w ++ f) ≡ n
    → all_digits (w ++ f) ≡ true
    → 1 ≤ length w
    → 1 ≤ length f
    → parse_parts negative (w, (f, true))
      ≡ ok (record { value = n; scale = length f; negative = negative })
unfolding parse_parts
parse_parts-point negative n w f h k l m = rw (h, k, is_nil-pos w l, is_nil-pos f m) refl

parse_coefficient-digits :
    (negative : Bool) (n : ℕ) (s : Bytes)
    → IsPadded n 0 s
    → parse_coefficient (put_sign negative s)
      ≡ ok (record { value = n; scale = 0; negative = negative })
parse_coefficient-digits negative n s h =
    subst
      (λ t.
        parse_coefficient (put_sign negative t)
        ≡ ok (record { value = n; scale = 0; negative = negative }))
      (append-nil s)
      (parse_coefficient-signed negative s [] (record { value = n; scale = 0; negative = negative })
        (h.1) (h.2) (rw (append-nil s) (omega (arith, h.3)))
        (rw (append-nil s, cut_point-digits s (h.1)) (parse_parts-digits negative n s h)))

-- The digits before and behind the point.
split_digits :
    (m : ℕ) (s : Bytes)
    → all_digits s ≡ true
    → (all_digits (take m s) ≡ true) × (all_digits (drop m s) ≡ true)
split_digits m s h =
    (&&_iff (all_digits (take m s)) (all_digits (drop m s))).0
      (sym (all_digits-append (take m s) (drop m s)) ∙ (ap all_digits (take-append-drop m s) ∙ h))

length-take_all : (m : ℕ) (s : Bytes) → m ≤ length s → length (take m s) ≡ m
length-take_all zero s h = refl
length-take_all (suc m) [] h = absurd (omega (arith, h))
length-take_all (suc m) (b ∷ s) h = ap suc (length-take_all m s (omega (arith, h)))

parse_coefficient-point :
    (negative : Bool) (n scale : ℕ) (s : Bytes)
    → IsPadded n scale s
    → 1 ≤ scale
    → parse_coefficient (put_sign negative (put_point scale s))
      ≡ ok (record { value = n; scale = scale; negative = negative })
parse_coefficient-point negative n scale s h k =
    let m = length s - scale in
    let split = split_digits m s (h.1) in
    let front = length-take_all m s (omega arith) in
    let back = length-drop m s in
    parse_coefficient-signed negative (take m s) (46 ∷ drop m s)
      (record { value = n; scale = scale; negative = negative }) (split.0)
      (omega (arith, front, h.2))
      (rw (length-append (take m s) (46 ∷ drop m s)) (omega (arith, front, back, h.3)))
      (rw (cut_point-append (take m s) (drop m s) (split.0)) (
        subst
          (λ c.
            parse_parts negative (take m s, (drop m s, true))
            ≡ ok (record { value = n; scale = c; negative = negative }))
          (omega (arith, back, h.2))
          (parse_parts-point negative n (take m s) (drop m s)
            (ap (read_digits 0) (take-append-drop m s) ∙ h.0)
            (ap all_digits (take-append-drop m s) ∙ h.1) (omega (arith, front, h.2))
            (omega (arith, back, h.2, k)))))

positive : (scale : ℕ) → ltb 0 (suc scale) ≡ true
positive scale = ground arith

parse_coefficient-fixed_decimal :
    (negative : Bool) (n scale : ℕ)
    → n < 2 ^ 96
    → scale ≤ 28
    → parse_coefficient (fixed_decimal negative n scale)
      ≡ ok (record { value = n; scale = scale; negative = negative })
unfolding fixed_decimal
parse_coefficient-fixed_decimal negative n zero h k =
    parse_coefficient-digits negative n (show_nat n) (show_nat-IsPadded n h)
parse_coefficient-fixed_decimal negative n (suc scale) h k = rw (positive scale) (
    parse_coefficient-point negative n (suc scale) (pad (suc scale) (show_nat n))
      (pad-IsPadded n (suc scale) (show_nat n) (show_nat-IsPadded n h) k) (omega arith))

-- A Decimal as a signed text of its coefficient, a negative zero included.
show_decimal-sign :
    (v : Decimal) → show_decimal v ≡ fixed_decimal v.negative (v.hi * 2 ^ 64 + v.lo) v.scale
unfolding show_decimal fixed_decimal
show_decimal-sign v = elim (Bool-cases v.negative) [
  | inl a ↦ elim (Bool-cases (v.hi * 2 ^ 64 + v.lo == 0)) [
    | inl b ↦ simp (a, b, show_decimal, fixed_decimal) refl
    | inr b ↦ simp (a, b, show_decimal, fixed_decimal) refl
  ]
  | inr a ↦ simp (a, show_decimal, fixed_decimal) refl
]

decimal_fits :
    (hi lo scale : ℕ)
    → hi < 2 ^ 32
    → lo < 2 ^ 64
    → scale ≤ 28
    → (ltb 28 scale || leb (2 ^ 96) (hi * 2 ^ 64 + lo)) ≡ false
decimal_fits hi lo scale h k l = ground (arith, h, k, l)

high_part : (hi lo : ℕ) → hi < 2 ^ 32 → lo < 2 ^ 64 → (hi * 2 ^ 64 + lo) / 2 ^ 64 % 2 ^ 32 ≡ hi
high_part hi lo h k = omega (arith, h, k)

low_part : (hi lo : ℕ) → lo < 2 ^ 64 → (hi * 2 ^ 64 + lo) % 2 ^ 64 ≡ lo
low_part hi lo k = omega (arith, k)

same_scale : (scale : ℕ) → scale ≤ 28 → scale % 2 ^ 8 ≡ scale
same_scale scale l = omega (arith, l)

times_one : (n : ℕ) → n * 1 ≡ n
times_one n = omega arith

-- Parsing what a Decimal of a 96-bit coefficient and a scale of at most 28 prints as gives the same
-- Decimal, with its scale and its sign, also of zero.
pub parse_decimal-show_decimal :
    (v : Decimal)
    → v.hi < 2 ^ 32
    → v.lo < 2 ^ 64
    → v.scale ≤ 28
    → parse_decimal (show_decimal v) ≡ ok v
unfolding parse_decimal
parse_decimal-show_decimal v h k l =
    rw
      (
        show_decimal-sign v,
        parse_coefficient-fixed_decimal v.negative (v.hi * 2 ^ 64 + v.lo) v.scale
            (omega (arith, h, k)) l,
      )
      (rw
        (
          decimal_fits v.hi v.lo v.scale h k l,
          high_part v.hi v.lo h k,
          low_part v.hi v.lo k,
          same_scale v.scale l,
        )
        refl)

-- Parsing what a Currency prints as gives the same Currency, over the whole range of int64.
pub parse_currency-show_currency :
    (v : ℤ) → pos_part v < 2 ^ 63 → neg_part v ≤ 2 ^ 63 → parse_currency (show_currency v) ≡ ok v
unfolding parse_currency show_currency as_currency
parse_currency-show_currency (ℤ.pos n) h k =
    rw (parse_coefficient-fixed_decimal false n 4 (omega (arith, h)) (omega arith))
      (ground (arith, h))
parse_currency-show_currency (ℤ.negsuc n) h k =
    rw (parse_coefficient-fixed_decimal true (suc n) 4 (omega (arith, k)) (omega arith))
      (rw (times_one (suc n)) (ground (arith, k)))
