-- ===== src/Values/Encode.antt =====
-- writeVariantDepth and writeVariant of scalar.go, with the cases of writeExtendedValue (value.go).
-- `left` is 33 - depth: the source refuses a depth above 32, so the recursion is on what is left.
use gopcda.Prelude.{
  ℕ, zero, suc, ◌+◌, ◌-◌, ◌*◌, ◌/◌, ◌%◌, ◌^◌, Bool, true, false, not, some, [], length, ltb,
  if◌then◌else◌,
}
use gopcda.Prelude.Int.{pos, negsuc, to_unsigned, to_signed}
use gopcda.Prelude.Bytes.{Bytes}
use gopcda.Errors.{message}
use gopcda.Result.{Result, ok, err, ◌>>=◌, ◌>>◌, refuse}
use gopcda.Text.{valid_utf8, utf16_length}
use gopcda.Values.VarType.{
  vt_i2, vt_i4, vt_r4, vt_r8, vt_cy, vt_date, vt_bstr, vt_error, vt_bool, vt_decimal, vt_i1, vt_ui1,
  vt_ui2, vt_ui4, vt_i8, vt_ui8, vt_array, vt_byref, has_flag, set_flag,
}
use gopcda.Values.Data.{
  Value, Decimal, WireVariant, wire, bool_arm, short, long, hresult_arm, longlong, char, byte,
  ushort, ulong, ulonglong, float, double, date_arm, currency_arm, bstr, decimal_arm, safe_array,
  null_safe_array,
}
use gopcda.Values.Layout.{array_layout}
use gopcda.Values.Runtime.{Runtime}
use gopcda.Values.Dates.{is_finite32, is_finite64, date_automation}
use gopcda.Values.Write.{resize, write_array, write_byref, write_typed}

abbrev pub is_empty : Bytes → Bool
is_empty [] = true
is_empty _ = false

-- The case string.
unfoldable pub write_string : Bytes → Result WireVariant
unfolding valid_utf8 utf16_length
write_string text = do
  refuse (not (valid_utf8 text)) (message "write string must be valid UTF-8")
  refuse (ltb 2147483647 (length text)) (message "write string is too large")
  let units = utf16_length text
  ok (
      wire ((36 + 2 * units + 7) / 8 % 2 ^ 32) vt_bstr
        (bstr (some (record { text = text; size = units % 2 ^ 32; is_empty = is_empty text }))))

-- The case Decimal.
unfoldable pub write_decimal : Decimal → Result WireVariant
write_decimal d = do
  refuse (ltb 28 d.scale) (message "DECIMAL scale exceeds 28")
  ok (
      wire 5 vt_decimal (
        decimal_arm (
          some (record {
            hi32 = d.hi;
            lo64 = d.lo;
            scale = d.scale;
            sign = if d.negative then 0x80 else 0;
          }))))

unfoldable pub write_within : Runtime → ℕ → Value → Result WireVariant
unfolding write_string write_decimal write_array write_byref write_typed array_layout resize
    date_automation
write_within rt zero value = err (message "VARIANT nesting exceeds 32")
write_within rt (suc left) (Value.bool b) =
    ok (wire 3 vt_bool (bool_arm (if b then negsuc 0 else pos 0)))
write_within rt (suc left) (Value.int8 z) = ok (wire 3 vt_i1 (char (to_unsigned (2 ^ 7) z)))
write_within rt (suc left) (Value.uint8 n) = ok (wire 3 vt_ui1 (byte n))
write_within rt (suc left) (Value.int16 z) = ok (wire 3 vt_i2 (short z))
write_within rt (suc left) (Value.uint16 n) = ok (wire 3 vt_ui2 (ushort n))
write_within rt (suc left) (Value.int32 z) = ok (wire 3 vt_i4 (long z))
write_within rt (suc left) (Value.uint32 n) = ok (wire 3 vt_ui4 (ulong n))
write_within rt (suc left) (Value.int64 z) = ok (wire 4 vt_i8 (longlong z))
write_within rt (suc left) (Value.uint64 n) = ok (wire 4 vt_ui8 (ulonglong n))
write_within rt (suc left) (Value.float32 bits) = do
  refuse (not (is_finite32 bits)) (message "write value must be finite")
  ok (wire 3 vt_r4 (float bits))
write_within rt (suc left) (Value.float64 bits) = do
  refuse (not (is_finite64 bits)) (message "write value must be finite")
  ok (wire 4 vt_r8 (double bits))
write_within rt (suc left) (Value.string text) = write_string text
write_within rt (suc left) (Value.currency z) = ok (wire 4 vt_cy (currency_arm (some z)))
write_within rt (suc left) (Value.decimal d) = write_decimal d
write_within rt (suc left) (Value.error_code n) =
    ok (wire 3 vt_error (hresult_arm (to_signed (2 ^ 31) n)))
write_within rt (suc left) (Value.time instant) = do
  bits ← date_automation rt instant
  ok (wire 4 vt_date (date_arm bits))
write_within rt (suc left) (Value.null_array vt) = do
  layout ← array_layout vt
  resize rt (wire 3 (set_flag vt_array vt) (safe_array null_safe_array))
write_within rt (suc left) (Value.array vt bounds values) = do
  a ← write_array (write_within rt left) vt bounds values
  resize rt (wire 3 (set_flag vt_array vt) (safe_array a))
write_within rt (suc left) (Value.variant t x) = do
  v ←
      if has_flag vt_byref t
      then write_byref (write_within rt left) t x
      else write_typed (write_within rt left) t x
  resize rt v
write_within rt (suc left) Value.nil = err (message "unsupported write type")
write_within rt (suc left) Value.foreign = err (message "unsupported write type")

-- writeVariantDepth(value, depth)
unfoldable pub write_variant_depth : Runtime → Value → ℕ → Result WireVariant
unfolding write_within
write_variant_depth rt value depth = write_within rt (33 - depth) value

-- writeVariant
unfoldable pub write_variant : Runtime → Value → Result WireVariant
unfolding write_variant_depth
write_variant rt value = write_variant_depth rt value 0
