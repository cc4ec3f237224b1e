-- ===== src/Decimals.antt =====
-- Exact decimals as text: fixedDecimal, Currency.String and Decimal.String of value.go, and
-- parseCoefficient of cmd/opcda/value.go. A text is a list of bytes; big.Int is a natural number with
-- a sign beside it.
pub mod Digits
pub mod Padded
pub mod RoundTrip
pub mod Examples
use gopcda.Prelude.{
  ℕ, zero, suc, ◌+◌, ◌-◌, ◌*◌, ◌/◌, ◌%◌, ◌^◌, Bool, true, false, not, ◌&&◌, ◌||◌, Option, none,
  some, List, [], ◌∷◌, ◌++◌, length, take, drop, ltb, leb, ◌==◌, if◌then◌else◌,
}
use gopcda.Prelude.Int.{ℤ}
use gopcda.Prelude.Bytes.{Bytes}
use gopcda.Errors.{Error, message}
use gopcda.Values.Data.{Decimal}
use gopcda.Result.{Result, ok, err, refuse, ◌>>=◌, ◌>>◌}

-- The decimal digits of n, by fuel; one more than n is enough.
unfoldable pub digits_of : ℕ → ℕ → Bytes
digits_of zero n = []
digits_of (suc fuel) n =
    let front = digits_of fuel (n / 10) in
    if ltb n 10 then (48 + n) ∷ [] else front ++ ((48 + n % 10) ∷ [])

-- (*big.Int).String of a natural number.
unfoldable pub show_nat : ℕ → Bytes
unfolding digits_of
show_nat n = digits_of (suc n) n

-- strings.Repeat("0", n)
unfoldable pub zeros : ℕ → Bytes
zeros zero = []
zeros (suc n) = 48 ∷ zeros n

-- Leading zeros up to one digit before the point.
unfoldable pub pad : ℕ → Bytes → Bytes
unfolding zeros
pad scale digits =
    if leb (length digits) scale then zeros (scale + 1 - length digits) ++ digits else digits

abbrev pub put_point : ℕ → Bytes → Bytes
put_point scale digits =
    take (length digits - scale) digits ++ (46 ∷ drop (length digits - scale) digits)

abbrev pub put_sign : Bool → Bytes → Bytes
put_sign negative text = if negative then 45 ∷ text else text

-- fixedDecimal of n, or of -n if `negative`.
unfoldable pub fixed_decimal : Bool → ℕ → ℕ → Bytes
unfolding show_nat pad
fixed_decimal negative n scale =
    let digits = show_nat n in
    put_sign negative (if ltb 0 scale then put_point scale (pad scale digits) else digits)

-- Decimal.String: a negative zero keeps its sign.
unfoldable pub show_decimal : Decimal → Bytes
unfolding fixed_decimal
show_decimal v =
    let n = v.hi * 2 ^ 64 + v.lo in
    if v.negative && n == 0
    then 45 ∷ fixed_decimal false n v.scale
    else fixed_decimal v.negative n v.scale

-- strings.Cut(s, "."): before, after, and whether there is a point.
unfoldable pub cut_point : Bytes → Bytes × (Bytes × Bool)
cut_point [] = ([], ([], false))
cut_point (b ∷ s) =
    let rest = cut_point s in if b == 46 then ([], (s, true)) else (b ∷ rest.0, rest.1)

unfoldable pub all_digits : Bytes → Bool
all_digits [] = true
all_digits (b ∷ s) = leb 48 b && (leb b 57 && all_digits s)

-- (*big.Int).SetString(digits, 10) of a text of digits.
unfoldable pub read_digits : ℕ → Bytes → ℕ
read_digits n [] = n
read_digits n (b ∷ s) = read_digits (10 * n + (b - 48)) s

-- The coefficient, the number of digits after the point, and the sign.
pub record Coefficient : Type 0 where
  pub value : ℕ
  pub scale : ℕ
  pub negative : Bool

abbrev pub has_prefix : ℕ → Bytes → Bool
has_prefix c [] = false
has_prefix c (b ∷ s) = b == c

abbrev pub is_nil : Bytes → Bool
is_nil [] = true
is_nil (b ∷ s) = false

-- Without a leading sign.
unfoldable pub unsigned : Bytes → Bytes
unsigned [] = []
unsigned (b ∷ s) = if b == 45 || b == 43 then s else b ∷ s

unfoldable pub parse_parts : Bool → Bytes × (Bytes × Bool) → Result Coefficient
unfolding all_digits read_digits
parse_parts negative (whole, (fraction, has_point)) = do
  refuse (is_nil whole || has_point && is_nil fraction)
      (message "decimal requires digits around the decimal point")
  refuse (not (all_digits (whole ++ fraction)))
      (message "decimal requires base-10 digits without an exponent")
  ok (record {
    value = read_digits 0 (whole ++ fraction);
    scale = length fraction;
    negative = negative;
  })

-- parseCoefficient
unfoldable pub parse_coefficient : Bytes → Result Coefficient
unfolding unsigned cut_point parse_parts
parse_coefficient text = do
  refuse (length (unsigned text) == 0 || ltb 128 (length (unsigned text)))
      (message "invalid decimal value")
  parse_parts (has_prefix 45 text) (cut_point (unsigned text))

-- parseAutomationValue of the kind decimal; BitLen() > 96 is n ≥ 2^96.
unfoldable pub parse_decimal : Bytes → Result Decimal
unfolding parse_coefficient
parse_decimal text = do
  c ← parse_coefficient text
  refuse (ltb 28 c.scale || leb (2 ^ 96) c.value)
      (message "decimal requires a 96-bit coefficient and scale at most 28")
  ok (record {
    hi = c.value / 2 ^ 64 % 2 ^ 32;
    lo = c.value % 2 ^ 64;
    scale = c.scale % 2 ^ 8;
    negative = c.negative;
  })

-- Currency.String of n ten-thousandths.
unfoldable pub show_currency : ℤ → Bytes
unfolding fixed_decimal
show_currency (ℤ.pos n) = fixed_decimal false n 4
show_currency (ℤ.negsuc n) = fixed_decimal true (suc n) 4

-- n.Neg(n), the range check and Int64().
unfoldable pub as_currency : Bool → ℕ → Result ℤ
as_currency false n =
    if ltb n (2 ^ 63) then ok (ℤ.pos n) else err (message "currency outside int64 range")
as_currency true zero = ok (ℤ.pos 0)
as_currency true (suc n) =
    if ltb n (2 ^ 63) then ok (ℤ.negsuc n) else err (message "currency outside int64 range")

-- parseAutomationValue of the kind currency.
unfoldable pub parse_currency : Bytes → Result ℤ
unfolding parse_coefficient as_currency
parse_currency text = do
  c ← parse_coefficient text
  refuse (ltb 4 c.scale) (message "currency requires at most 4 fractional digits")
  as_currency c.negative (c.value * 10 ^ (4 - c.scale))
