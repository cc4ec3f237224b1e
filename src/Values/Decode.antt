-- ===== src/Values/Decode.antt =====
-- scalarValueDepth and scalarValue of read_wire.go; `left` is 33 - depth, as in the encoder.
use gopcda.Prelude.{ℕ, zero, suc, ◌-◌, ◌==◌, if◌then◌else◌}
use gopcda.Errors.{message}
use gopcda.Result.{Result, ok, err, ◌>>=◌}
use gopcda.Values.VarType.{vt_variant, vt_array, vt_byref, has_flag, clear_flag}
use gopcda.Values.Data.{
  Value, WireVariant, Arm, wire, null_variant, variant_ptr, safe_array, no_union, null_safe_array,
  safe,
}
use gopcda.Values.Layout.{array_layout}
use gopcda.Values.Runtime.{Runtime}
use gopcda.Values.Read.{read_scalar}
use gopcda.Values.ReadArray.{read_array}

module _ (rt : Runtime) (read : WireVariant → Result Value) where
  -- The VT_VARIANT | VT_BYREF case.
  unfoldable pub read_pointer : ℕ → Arm → Result Value
  read_pointer vt (variant_ptr (wire size u arm)) = read (wire size u arm) >>= λ value.
      ok (Value.variant vt (if has_flag vt_byref u then value else Value.variant u value))
  read_pointer vt _ = err (message "missing BYREF VARIANT")

  unfoldable pub read_safe_array : ℕ → Arm → Result Value
  unfolding read_array array_layout
  read_safe_array vt (safe_array null_safe_array) =
      array_layout vt >>= λ layout. ok (Value.null_array vt)
  read_safe_array vt (safe_array (safe h p)) = read_array rt read vt h p
  read_safe_array vt _ = err (message "invalid SAFEARRAY")

  -- A VARIANT with a union: by its flags, then by its type.
  unfoldable pub read_union : ℕ → ℕ → Arm → Result Value
  unfolding read_pointer read_safe_array read_scalar
  read_union size vt no_union = err (message "missing VARIANT value")
  read_union size vt arm =
      if has_flag vt_byref vt
      then if clear_flag vt_byref vt == vt_variant
        then read_pointer vt arm
        else (read (wire size (clear_flag vt_byref vt) arm) >>= λ value.
            ok (Value.variant vt value))
      else if has_flag vt_array vt
      then read_safe_array (clear_flag vt_array vt) arm
      else read_scalar rt vt arm

unfoldable pub read_within : Runtime → ℕ → WireVariant → Result Value
unfolding read_union
read_within rt zero v = err (message "VARIANT nesting exceeds 32")
read_within rt (suc left) null_variant = err (message "missing VARIANT value")
read_within rt (suc left) (wire size vt arm) = read_union rt (read_within rt left) size vt arm

unfoldable pub scalar_value_depth : Runtime → WireVariant → ℕ → Result Value
unfolding read_within
scalar_value_depth rt v depth = read_within rt (33 - depth) v

unfoldable pub scalar_value : Runtime → WireVariant → Result Value
unfolding scalar_value_depth
scalar_value rt v = scalar_value_depth rt v 0
