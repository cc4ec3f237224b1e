-- ===== src/Values/Read.antt =====
-- scalarValueDepth (read_wire.go) and readArray (array.go): from the wire to a Go value.
-- The value that Go returns beside an error is not modelled: the callers do not use it.
use gopcda.Prelude.{ℕ, ◌^◌, Bool, false, not, ◌&&◌, ◌||◌, none, some, [], ltb, ◌==◌, if◌then◌else◌}
use gopcda.Prelude.Int.{ℤ, pos, negsuc, to_unsigned, to_signed}
use gopcda.Errors.{message}
use gopcda.Result.{Result, ok, err, ◌>>=◌}
use gopcda.Values.VarType.{
  vt_empty, vt_null, vt_i2, vt_i4, vt_r4, vt_r8, vt_cy, vt_date, vt_bstr, vt_error, vt_bool,
  vt_decimal, vt_i1, vt_ui1, vt_ui2, vt_ui4, vt_i8, vt_ui8, vt_int, vt_uint,
}
use gopcda.Values.Data.{
  Value, Arm, bool_arm, short, long, int_arm, hresult_arm, longlong, char, byte, ushort, ulong,
  uint_arm, ulonglong, float, double, date_arm, currency_arm, bstr, decimal_arm, no_value, no_union,
}
use gopcda.Values.Runtime.{Runtime}
use gopcda.Values.Dates.{automation_date}

-- v.VarUnion.GetValue() as `any`; the pointers among the arms are foreign values.
unfoldable pub go_value : Arm → Value
go_value no_union = Value.nil
go_value no_value = Value.nil
go_value (bool_arm z) = Value.int16 z
go_value (short z) = Value.int16 z
go_value (long z) = Value.int32 z
go_value (int_arm z) = Value.int32 z
go_value (hresult_arm z) = Value.int32 z
go_value (longlong z) = Value.int64 z
go_value (char n) = Value.uint8 n
go_value (byte n) = Value.uint8 n
go_value (ushort n) = Value.uint16 n
go_value (ulong n) = Value.uint32 n
go_value (uint_arm n) = Value.uint32 n
go_value (ulonglong n) = Value.uint64 n
go_value (float bits) = Value.float32 bits
go_value (double bits) = Value.float64 bits
go_value (date_arm bits) = Value.float64 bits
go_value _ = Value.foreign

-- The cases of the switch on v.VT that assert a type or check the payload.
unfoldable pub read_date : Runtime → Value → Result Value
unfolding automation_date
read_date rt (Value.float64 bits) = automation_date rt bits >>= λ t. ok (Value.time t)
read_date rt _ = err (message "invalid VARIANT_DATE")

unfoldable pub read_currency : Arm → Result Value
read_currency (currency_arm (some z)) = ok (Value.currency z)
read_currency _ = err (message "invalid VARIANT_CY")

unfoldable pub read_decimal : Arm → Result Value
read_decimal (decimal_arm (some d)) =
    if ltb 28 d.scale || (not (d.sign == 0) && not (d.sign == 0x80))
    then err (message "invalid VARIANT_DECIMAL")
    else ok (
        Value.decimal
          (record { hi = d.hi32; lo = d.lo64; scale = d.scale; negative = d.sign == 0x80 }))
read_decimal _ = err (message "invalid VARIANT_DECIMAL")

unfoldable pub read_error : Value → Result Value
read_error (Value.int32 z) = ok (Value.error_code (to_unsigned (2 ^ 31) z))
read_error _ = err (message "invalid VARIANT_ERROR")

unfoldable pub read_bstr : Arm → Result Value
read_bstr (bstr (some s)) = ok (Value.string s.text)
read_bstr (bstr none) = ok (Value.string [])
read_bstr _ = err (message "invalid VARIANT_BSTR")

unfoldable pub read_i1 : Value → Result Value
read_i1 (Value.uint8 n) = ok (Value.int8 (to_signed (2 ^ 7) n))
read_i1 _ = err (message "invalid VARIANT_I1")

is_zero : ℤ → Bool
is_zero (pos n) = n == 0
is_zero (negsuc n) = false

unfoldable pub read_bool : Value → Result Value
unfolding is_zero
read_bool (Value.int16 z) = ok (Value.bool (not (is_zero z)))
read_bool _ = err (message "invalid VARIANT_BOOL")

unfoldable pub read_scalar : Runtime → ℕ → Arm → Result Value
unfolding go_value read_date read_currency read_decimal read_error read_bstr read_i1 read_bool
read_scalar rt vt arm =
    if vt == vt_empty || vt == vt_null
    then ok Value.nil
    else if vt == vt_i2
        || vt == vt_i4
        || vt == vt_r4
        || vt == vt_r8
        || vt == vt_ui1
        || vt == vt_ui2
        || vt == vt_ui4
        || vt == vt_i8
        || vt == vt_ui8
        || vt == vt_int
        || vt == vt_uint
    then ok (go_value arm)
    else if vt == vt_date
    then read_date rt (go_value arm)
    else if vt == vt_cy
    then read_currency arm
    else if vt == vt_decimal
    then read_decimal arm
    else if vt == vt_error
    then read_error (go_value arm)
    else if vt == vt_bstr
    then read_bstr arm
    else if vt == vt_i1
    then read_i1 (go_value arm)
    else if vt == vt_bool
    then read_bool (go_value arm)
    else err (message "unsupported VARIANT type")
