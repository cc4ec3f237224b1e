-- ===== src/Values/Runtime.antt =====
-- What the conversions take from outside the repository: float64 arithmetic on bit patterns for
-- DATE, and the length of a VARIANT that go-msrpc has marshalled.
use gopcda.Prelude.{ℕ, Bool}
use gopcda.Prelude.Int.{ℤ}
use gopcda.Result.{Result}
use gopcda.Values.Data.{WireVariant}

pub record Runtime : Type 0 where
  -- value <= float64(day) and value >= float64(day)
  pub at_most_day : ℕ → ℤ → Bool
  pub at_least_day : ℕ → ℤ → Bool
  -- days, fraction := math.Modf(value): int(days), and math.Round(math.Abs(fraction) * 86400000)
  pub whole_days : ℕ → ℤ
  pub day_millis : ℕ → ℕ
  -- float64(days) + fraction and float64(days) - fraction, the fraction in nanoseconds of a day
  pub add_fraction : ℤ → ℕ → ℕ
  pub sub_fraction : ℤ → ℕ → ℕ
  -- len(wire) for wire, err := ndr.Marshal(marshalWriteVariant)
  pub marshal_length : WireVariant → Result ℕ
