-- ===== src/Values/Dates.antt =====
-- date.go (automationDate) and dateAutomation of value.go. An instant is its nanoseconds since
-- 1899-12-30T00:00:00Z; the first and the last year are bounds on its day.
use gopcda.Prelude.{ℕ, suc, ◌+◌, ◌-◌, ◌*◌, ◌/◌, ◌%◌, ◌^◌, Bool, not, ◌||◌, leb, ◌==◌, if◌then◌else◌}
use gopcda.Prelude.Int.{ℤ, pos, negsuc, sub_ℕ, is_negative}
use gopcda.Errors.{message}
use gopcda.Result.{Result, ok, ◌>>◌, refuse}
use gopcda.Values.Runtime.{Runtime}

-- math.IsNaN(x) || math.IsInf(x, 0): the exponent bits are all set.
abbrev pub is_finite32 : ℕ → Bool
is_finite32 bits = not (bits / 2 ^ 23 % 2 ^ 8 == 255)

abbrev pub is_finite64 : ℕ → Bool
is_finite64 bits = not (bits / 2 ^ 52 % 2 ^ 11 == 2047)

-- Division of an integer that rounds down, and its remainder.
unfoldable pub floor_div : ℤ → ℕ → ℤ
floor_div (pos n) d = pos (n / d)
floor_div (negsuc n) d = negsuc (n / d)

unfoldable pub floor_mod : ℤ → ℕ → ℕ
floor_mod (pos n) d = n % d
floor_mod (negsuc n) d = d - 1 - n % d

-- days * unit + rest
unfoldable pub recombine : ℤ → ℕ → ℕ → ℤ
recombine (pos days) unit rest = pos (days * unit + rest)
recombine (negsuc days) unit rest = sub_ℕ rest (suc days * unit)

-- Year() < 100 || Year() > 9999, on the day counted from 1899-12-30.
unfoldable pub outside_years : ℤ → Bool
outside_years (pos day) = leb 2958466 day
outside_years (negsuc day) = leb 657434 day

abbrev pub ms_per_day : ℕ
ms_per_day = 86400000

unfoldable pub automation_date : Runtime → ℕ → Result ℤ
unfolding floor_div recombine outside_years
automation_date rt bits = do
  refuse
      (not (is_finite64 bits)
        || rt.at_most_day bits (negsuc 657434)
        || rt.at_least_day bits (pos 2958466))
      (message "invalid VARIANT_DATE value")
  let date = recombine (rt.whole_days bits) ms_per_day (rt.day_millis bits)
  refuse (outside_years (floor_div date ms_per_day))
      (message "VARIANT_DATE outside years 100..9999")
  ok (recombine date 1000000 0)

-- value.UTC().Round(time.Millisecond), in milliseconds; a half rounds up.
unfoldable pub round_millis : ℤ → ℤ
unfolding floor_div recombine
round_millis instant = floor_div (recombine instant 1 500000) 1000000

unfoldable pub date_automation : Runtime → ℤ → Result ℕ
unfolding round_millis floor_div floor_mod outside_years
date_automation rt instant = do
  let value = round_millis instant
  let days = floor_div value ms_per_day
  let nanos = floor_mod value ms_per_day * 1000000
  refuse (outside_years days) (message "DATE outside years 100..9999")
  ok (if is_negative days then rt.sub_fraction days nanos else rt.add_fraction days nanos)
