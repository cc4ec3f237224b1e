-- ===== src/Decimals/Examples.antt =====
-- The theorems on exact decimals at concrete inputs.
use gopcda.Prelude.{◌≡◌, refl, true, []}
use gopcda.Prelude.Int.{ℤ}
use gopcda.Result.{ok}
use gopcda.Values.Data.{Decimal}
use gopcda.Decimals.{
  show_decimal, show_currency, parse_decimal, parse_currency, fixed_decimal, show_nat, digits_of,
  zeros, pad,
}
use gopcda.Decimals.RoundTrip.{parse_decimal-show_decimal, parse_currency-show_currency}
use gopcda.Prelude.{◌∷◌, arith}

-- -0.007
abbrev minus_seven : Decimal
minus_seven = record { hi = 0; lo = 7; scale = 3; negative = true }

shown_minus_seven : show_decimal minus_seven ≡ 45 ∷ 48 ∷ 46 ∷ 48 ∷ 48 ∷ 55 ∷ []
unfolding show_decimal fixed_decimal show_nat digits_of zeros pad
shown_minus_seven = refl

parse_decimal-show_decimal_example : parse_decimal (show_decimal minus_seven) ≡ ok minus_seven
parse_decimal-show_decimal_example =
    parse_decimal-show_decimal minus_seven (omega arith) (omega arith) (omega arith)

-- -12.3456
parse_currency-show_currency_example :
    parse_currency (show_currency (ℤ.negsuc 123455)) ≡ ok (ℤ.negsuc 123455)
parse_currency-show_currency_example =
    parse_currency-show_currency (ℤ.negsuc 123455) (omega arith) (omega arith)
