-- ===== src/Values/ReadArray.antt =====
-- readArray (array.go): the header checks and the element loops.
use gopcda.Prelude.{
  ℕ, ◌/◌, ◌%◌, ◌^◌, not, ◌&&◌, ◌||◌, Option, none, some, List, [], ◌∷◌, length, ◌==◌, if◌then◌else◌,
}
use gopcda.Prelude.Int.{ℤ, to_unsigned, to_signed}
use gopcda.Errors.{message}
use gopcda.Result.{Result, ok, err, ◌>>=◌, ◌>>◌, refuse, in_context}
use gopcda.Values.VarType.{
  vt_i2, vt_i4, vt_r4, vt_r8, vt_cy, vt_date, vt_error, vt_bool, vt_i1, vt_ui8, vt_int, vt_byref,
  has_flag,
}
use gopcda.Values.Data.{
  Value, Values, ArrayBound, ArrayHeader, WireVariant, WireVariants, Payload, WireString, byte_data,
  word_data, long_data, hyper_data, string_data, variant_data, no_payload, no_data, more, empty,
  count_values,
}
use gopcda.Values.Layout.{ArrayLayout, array_layout, array_count, have_vartype}
use gopcda.Values.Runtime.{Runtime}
use gopcda.Values.Dates.{automation_date}
use gopcda.Values.Write.{vt_of}

unfoldable pub read_byte : ℕ → ℕ → Value
read_byte vt n = if vt == vt_i1 then Value.int8 (to_signed (2 ^ 7) n) else Value.uint8 n

unfoldable pub read_word : ℕ → ℕ → Value
read_word vt n =
    if vt == vt_i2
    then Value.int16 (to_signed (2 ^ 15) n)
    else if vt == vt_bool
    then Value.bool (not (n == 0))
    else Value.uint16 n

unfoldable pub read_long : ℕ → ℕ → Value
read_long vt n =
    if vt == vt_i4 || vt == vt_int
    then Value.int32 (to_signed (2 ^ 31) n)
    else if vt == vt_r4
    then Value.float32 n
    else if vt == vt_error
    then Value.error_code n
    else Value.uint32 n

unfoldable pub read_hyper : Runtime → ℕ → ℤ → Result Value
unfolding automation_date
read_hyper rt vt z =
    if vt == vt_ui8
    then ok (Value.uint64 (to_unsigned (2 ^ 63) z))
    else if vt == vt_r8
    then ok (Value.float64 (to_unsigned (2 ^ 63) z))
    else if vt == vt_cy
    then ok (Value.currency z)
    else if vt == vt_date
    then (automation_date rt (to_unsigned (2 ^ 63) z) >>= λ t. ok (Value.time t))
    else ok (Value.int64 z)

unfoldable pub read_text : Option WireString → Value
read_text none = Value.string []
read_text (some s) = Value.string s.text

-- One element loop: what `read` gives for each entry, or its first error.
unfoldable pub read_entries {ℓ} : {A : Type ℓ} → (A → Result Value) → List A → Result Values
read_entries read [] = ok Values.none
read_entries read (x ∷ xs) =
    let others = read_entries read xs in read x >>= λ v. others >>= λ vs. ok (Values.cons v vs)

unfoldable pub collect_bounds : List (Option ArrayBound) → Result (List ArrayBound)
collect_bounds [] = ok []
collect_bounds (none ∷ bs) = err (message "missing SAFEARRAY bound")
collect_bounds (some b ∷ bs) = collect_bounds bs >>= λ rest. ok (b ∷ rest)

module _ (rt : Runtime) (read : WireVariant → Result Value) where
  unfoldable pub read_variants : WireVariants → Result Values
  read_variants empty = ok Values.none
  read_variants (more v vs) =
      let others = read_variants vs in
      in_context "SAFEARRAY element" (read v) >>= λ value. others >>= λ rest. ok (
        Values.cons (if has_flag vt_byref (vt_of v) then value else Value.variant (vt_of v) value)
          rest)

  -- The type switch on the payload: its Size and the values.
  unfoldable pub read_payload : ℕ → Payload → Result (ℕ × Values)
  unfolding read_byte read_word read_long read_hyper read_text read_entries read_variants
  read_payload vt (byte_data size ns) =
      read_entries (λ n. ok (read_byte vt n)) ns >>= λ vs. ok (size, vs)
  read_payload vt (word_data size ns) =
      read_entries (λ n. ok (read_word vt n)) ns >>= λ vs. ok (size, vs)
  read_payload vt (long_data size ns) =
      read_entries (λ n. ok (read_long vt n)) ns >>= λ vs. ok (size, vs)
  read_payload vt (hyper_data size zs) = read_entries (read_hyper rt vt) zs >>= λ vs. ok (size, vs)
  read_payload vt (string_data size ss) =
      read_entries (λ s. ok (read_text s)) ss >>= λ vs. ok (size, vs)
  read_payload vt (variant_data size vs) = read_variants vs >>= λ rest. ok (size, rest)
  read_payload vt no_data = err (message "missing SAFEARRAY data")
  read_payload vt no_payload = err (message "invalid SAFEARRAY payload")

  -- The header of a SAFEARRAY against the layout of its element type.
  unfoldable pub check_header : ℕ → ArrayLayout → ArrayHeader → Result (Unit {0})
  check_header vt layout h = do
    tag ← elim h.tag [ none ↦ err (message "inconsistent SAFEARRAY header") | some t ↦ ok t ]
    refuse
        (not (tag == layout.tag)
          || not (h.elements_length == layout.width)
          || not (h.dims_count == length h.bounds))
        (message "inconsistent SAFEARRAY header")
    refuse (has_flag have_vartype h.features && not (h.locks_count / 2 ^ 16 % 2 ^ 16 == vt))
        (message "SAFEARRAY element type disagrees with VARIANT")
    refuse (not (h.features / 0x100 % 0x10 == layout.features / 0x100 % 0x10))
        (message "inconsistent SAFEARRAY features")

  -- readArray of an array that is not null.
  unfoldable pub read_array : ℕ → ArrayHeader → Payload → Result Value
  unfolding array_layout check_header collect_bounds array_count read_payload
  read_array vt h p = do
    layout ← array_layout vt
    check_header vt layout h
    bounds ← collect_bounds h.bounds
    count ← array_count bounds
    (size, values) ← read_payload vt p
    refuse (not (size == count) || not (count_values values == count))
        (message "SAFEARRAY payload does not match bounds")
    ok (Value.array vt bounds values)
