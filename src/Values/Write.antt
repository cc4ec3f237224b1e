-- ===== src/Values/Write.antt =====
-- scalar.go, writeExtendedValue of value.go and writeArray of array.go: from a Go value to the wire.
-- `left` is 33 - depth, the levels of nesting that are left; at zero the depth is above 32.
use gopcda.Prelude.{
  ℕ, ◌+◌, ◌*◌, ◌/◌, ◌%◌, ◌^◌, not, ◌||◌, Option, some, List, [], ◌∷◌, map, length, ◌==◌,
  if◌then◌else◌,
}
use gopcda.Prelude.Int.{ℤ, to_unsigned, to_signed}
use gopcda.Errors.{message}
use gopcda.Result.{Result, ok, err, ◌>>=◌, ◌>>◌, refuse, in_context}
use gopcda.Values.VarType.{
  vt_empty, vt_null, vt_variant, vt_int, vt_uint, vt_array, vt_byref, has_flag, clear_flag,
}
use gopcda.Values.Data.{
  Value, Values, ArrayBound, WireVariant, WireVariants, Arm, SafeArray, Payload, WireString, wire,
  null_variant, bool_arm, short, long, int_arm, hresult_arm, longlong, char, byte, ushort, ulong,
  uint_arm, ulonglong, float, double, date_arm, currency_arm, bstr, variant_ptr, no_value, safe,
  byte_data, word_data, long_data, hyper_data, string_data, variant_data, no_payload, more, empty,
  count_values,
}
use gopcda.Values.Layout.{
  array_layout, array_count, sf_i1, sf_i2, sf_i4, sf_i8, sf_bstr, sf_variant,
}
use gopcda.Values.Runtime.{Runtime}

abbrev pub vt_of : WireVariant → ℕ
vt_of null_variant = 0
vt_of (wire size vt arm) = vt

abbrev pub with_vt : ℕ → WireVariant → WireVariant
with_vt t null_variant = null_variant
with_vt t (wire size vt arm) = wire size t arm

abbrev pub arm_of : WireVariant → Arm
arm_of null_variant = Arm.no_union
arm_of (wire size vt arm) = arm

-- v.Size of an array or BYREF value: its length on the wire in 8-byte units.
unfoldable pub resize : Runtime → WireVariant → Result WireVariant
resize rt null_variant = ok null_variant
resize rt (wire size vt arm) =
    if has_flag vt_array vt || has_flag vt_byref vt
    then (rt.marshal_length (wire size vt arm) >>= λ n. ok (wire ((n + 7) / 8 % 2 ^ 32) vt arm))
    else ok (wire size vt arm)

-- The typed slices of writeArray, filled by the dynamic type of each element's payload.
pub record Slices : Type 0 where
  pub bytes : List ℕ
  pub words : List ℕ
  pub longs : List ℕ
  pub hypers : List ℤ
  pub strings : List (Option WireString)
  pub variants : WireVariants

abbrev pub no_slices : Slices
no_slices = record {
  bytes = [];
  words = [];
  longs = [];
  hypers = [];
  strings = [];
  variants = empty;
}

-- The type switch on GetValue(); the slices of the later elements are given.
unfoldable pub add_payload : Arm → Slices → Result Slices
add_payload (char n) s = ok (record s { bytes = n ∷ s.bytes })
add_payload (byte n) s = ok (record s { bytes = n ∷ s.bytes })
add_payload (bool_arm z) s = ok (record s { words = to_unsigned (2 ^ 15) z ∷ s.words })
add_payload (short z) s = ok (record s { words = to_unsigned (2 ^ 15) z ∷ s.words })
add_payload (ushort n) s = ok (record s { words = n ∷ s.words })
add_payload (long z) s = ok (record s { longs = to_unsigned (2 ^ 31) z ∷ s.longs })
add_payload (int_arm z) s = ok (record s { longs = to_unsigned (2 ^ 31) z ∷ s.longs })
add_payload (hresult_arm z) s = ok (record s { longs = to_unsigned (2 ^ 31) z ∷ s.longs })
add_payload (ulong n) s = ok (record s { longs = n ∷ s.longs })
add_payload (uint_arm n) s = ok (record s { longs = n ∷ s.longs })
add_payload (float bits) s = ok (record s { longs = bits ∷ s.longs })
add_payload (longlong z) s = ok (record s { hypers = z ∷ s.hypers })
add_payload (ulonglong n) s = ok (record s { hypers = to_signed (2 ^ 63) n ∷ s.hypers })
add_payload (double bits) s = ok (record s { hypers = to_signed (2 ^ 63) bits ∷ s.hypers })
add_payload (date_arm bits) s = ok (record s { hypers = to_signed (2 ^ 63) bits ∷ s.hypers })
add_payload (currency_arm (some z)) s = ok (record s { hypers = z ∷ s.hypers })
add_payload (bstr t) s = ok (record s { strings = t ∷ s.strings })
add_payload _ s = err (message "invalid SAFEARRAY element")

module _ (write : Value → Result WireVariant) where
  -- The loop over a.Values.
  unfoldable pub write_elements : ℕ → Values → Result Slices
  unfolding add_payload
  write_elements vt Values.none = ok no_slices
  write_elements vt (Values.cons value rest) =
      let others = write_elements vt rest in
      if vt == vt_variant
      then (in_context "SAFEARRAY element" (write value) >>= λ v.
          others >>= λ s. ok (record s { variants = more v s.variants }))
      else (in_context "SAFEARRAY element" (write (Value.variant vt value)) >>= λ v.
          others >>= λ s. add_payload (arm_of v) s)

-- switch tag
unfoldable pub payload_of : ℕ → ℕ → Slices → Payload
payload_of tag size s =
    if tag == sf_i1
    then byte_data size s.bytes
    else if tag == sf_i2
    then word_data size s.words
    else if tag == sf_i4
    then long_data size s.longs
    else if tag == sf_i8
    then hyper_data size s.hypers
    else if tag == sf_bstr
    then string_data size s.strings
    else if tag == sf_variant
    then variant_data size s.variants
    else no_payload

module _ (write : Value → Result WireVariant) where
  -- writeArray of an Array that is not the null array.
  unfoldable pub write_array : ℕ → List ArrayBound → Values → Result SafeArray
  unfolding array_layout array_count write_elements payload_of
  write_array vt bounds values = do
    layout ← array_layout vt
    count ← array_count bounds
    refuse (not (count == count_values values)) (message "SAFEARRAY values do not match bounds")
    slices ← write_elements write vt values
    ok (
        safe
          (record {
            dims_count = length bounds % 2 ^ 16;
            features = layout.features;
            elements_length = layout.width;
            locks_count = vt * 2 ^ 16 % 2 ^ 32;
            bounds = map some bounds;
            tag = some layout.tag;
          })
          (payload_of layout.tag (count % 2 ^ 32) slices))

  -- The case Variant of writeExtendedValue with the BYREF flag.
  unfoldable pub write_byref : ℕ → Value → Result WireVariant
  write_byref t x =
      let base = clear_flag vt_byref t in
      if base == vt_variant
      then elim x [
        | Value.variant u y ↦
            write (Value.variant u y) >>= λ inner. ok (wire 3 t (variant_ptr inner))
        | _ ↦ err (message "VT_VARIANT|VT_BYREF requires Variant")
      ]
      else if base == vt_empty || base == vt_null
      then err (message "EMPTY/NULL cannot be BYREF")
      else (write (Value.variant base x) >>= λ inner. ok (with_vt t inner))

  -- The default case: the value's own type has to be the requested one.
  unfoldable pub write_as : ℕ → Value → Result WireVariant
  write_as t (Value.variant u y) = err (message "nested scalar VARIANT is invalid")
  write_as t x =
      write x >>= λ v. if vt_of v == t then ok v else err (message "value type does not match")

  -- The case Variant without the BYREF flag.
  unfoldable pub write_typed : ℕ → Value → Result WireVariant
  unfolding write_as
  write_typed t x =
      if t == vt_empty || t == vt_null
      then elim x [
        | Value.nil ↦ ok (wire 3 t no_value)
        | _ ↦ err (message "EMPTY/NULL require nil")
      ]
      else if t == vt_int
      then elim x [
        | Value.int32 n ↦ ok (wire 3 vt_int (int_arm n))
        | _ ↦ err (message "VT_INT requires int32")
      ]
      else if t == vt_uint
      then elim x [
        | Value.uint32 n ↦ ok (wire 3 vt_uint (uint_arm n))
        | _ ↦ err (message "VT_UINT requires uint32")
      ]
      else write_as t x
