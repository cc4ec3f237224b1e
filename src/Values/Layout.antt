-- ===== src/Values/Layout.antt =====
-- array.go: arrayLayout and arrayCount.
use gopcda.Prelude.{
  ℕ, ◌+◌, ◌*◌, ◌%◌, ◌^◌, Bool, ◌&&◌, ◌||◌, List, [], ◌∷◌, length, ltb, ◌==◌, if◌then◌else◌,
}
use gopcda.Prelude.Int.{pos_part, neg_part}
use gopcda.Errors.{message}
use gopcda.Result.{Result, ok, err, ◌>>◌, refuse}
use gopcda.Values.VarType.{
  vt_i1, vt_ui1, vt_i2, vt_ui2, vt_bool, vt_i4, vt_ui4, vt_r4, vt_error, vt_int, vt_uint, vt_i8,
  vt_ui8, vt_r8, vt_cy, vt_date, vt_bstr, vt_variant,
}
use gopcda.Values.Data.{ArrayBound}

-- The union tag of a SAFEARRAY, the width of an element in bytes, and the feature flags.
pub record ArrayLayout : Type 0 where
  pub tag : ℕ
  pub width : ℕ
  pub features : ℕ

-- The tags and flags of [MS-OAUT] 2.2.30.10 and 2.2.9.
abbrev pub sf_i1 : ℕ
sf_i1 = 16

abbrev pub sf_i2 : ℕ
sf_i2 = 2

abbrev pub sf_i4 : ℕ
sf_i4 = 3

abbrev pub sf_i8 : ℕ
sf_i8 = 20

abbrev pub sf_bstr : ℕ
sf_bstr = 8

abbrev pub sf_variant : ℕ
sf_variant = 12

abbrev pub have_vartype : ℕ
have_vartype = 0x80

abbrev pub feature_bstr : ℕ
feature_bstr = 0x100

abbrev pub feature_unknown : ℕ
feature_unknown = 0x200

abbrev pub feature_dispatch : ℕ
feature_dispatch = 0x400

abbrev pub feature_variant : ℕ
feature_variant = 0x800

unfoldable pub array_layout : ℕ → Result ArrayLayout
array_layout vt =
    if vt == vt_i1 || vt == vt_ui1
    then ok (record { tag = sf_i1; width = 1; features = have_vartype })
    else if vt == vt_i2 || vt == vt_ui2 || vt == vt_bool
    then ok (record { tag = sf_i2; width = 2; features = have_vartype })
    else if vt == vt_i4
        || vt == vt_ui4
        || vt == vt_r4
        || vt == vt_error
        || vt == vt_int
        || vt == vt_uint
    then ok (record { tag = sf_i4; width = 4; features = have_vartype })
    else if vt == vt_i8 || vt == vt_ui8 || vt == vt_r8 || vt == vt_cy || vt == vt_date
    then ok (record { tag = sf_i8; width = 8; features = have_vartype })
    else if vt == vt_bstr
    then ok (record { tag = sf_bstr; width = 4; features = feature_bstr + have_vartype })
    else if vt == vt_variant
    then ok (record { tag = sf_variant; width = 16; features = feature_variant + have_vartype })
    else err (message "unsupported SAFEARRAY element type (use VARIANT elements for DECIMAL)")

-- int64(b.Lower) + int64(b.Count) - 1 > math.MaxInt32, for a positive count.
unfoldable pub overflows : ArrayBound → Bool
overflows b = ltb 0 b.count && ltb (2 ^ 31 + neg_part b.lower) (pos_part b.lower + b.count)

-- The loop of arrayCount; `count` is a uint64.
unfoldable pub multiply_counts : ℕ → List ArrayBound → Result ℕ
multiply_counts count [] = ok count
multiply_counts count (b ∷ bs) =
    let next = count * b.count % 2 ^ 64 in
    let rest = multiply_counts next bs in
    if overflows b
    then err (message "SAFEARRAY upper bound overflows int32")
    else if ltb (2 ^ 20) next
    then err (message "SAFEARRAY exceeds 1048576 elements")
    else rest

unfoldable pub array_count : List ArrayBound → Result ℕ
unfolding multiply_counts overflows
array_count bounds = do
  refuse (length bounds == 0 || ltb 32 (length bounds))
      (message "SAFEARRAY requires 1..32 dimensions")
  multiply_counts 1 bounds
