-- ===== src/Values/RoundTrip.antt =====
-- A scalar value through its VARIANT: writeVariant (scalar.go), then scalarValue (read_wire.go).
use gopcda.Prelude.{
  ℕ, ◌+◌, ◌*◌, ◌/◌, ◌%◌, ◌^◌, ◌≤◌, ◌<◌, ◌≡◌, refl, Bool, true, false, not, length, ltb,
  if◌then◌else◌, arith, Bool-cases, inl, inr, ap, subst,
}
use gopcda.Prelude.Int.{ℤ, pos, negsuc, InSigned, to_unsigned, to_signed}
use gopcda.Text.{valid_utf8, utf16_length}
use gopcda.Values.VarType.{vt_bstr, vt_decimal}
use mathlib.Core.Option.{some}
use gopcda.Values.Dates.{is_finite32, is_finite64}
use gopcda.Errors.{Error, message}
use gopcda.Result.{Result, ok, ◌>>◌, refuse}
use gopcda.Values.Data.{Value, Decimal, WireVariant, wire, bstr, decimal_arm}
use gopcda.Values.Runtime.{Runtime}
use gopcda.Values.Encode.{is_empty, write_variant, write_within, write_string, write_decimal}
use gopcda.Values.Decode.{scalar_value, read_within, read_union}
use gopcda.Values.Read.{read_scalar, go_value, read_currency, read_decimal, read_bstr, read_bool}

-- The scalars other than instants that the client can write: in the range of their Go types where
-- the wire has another one, floats finite, strings valid UTF-8 and not too long for a BSTR.
abbrev pub IsScalar : Value → Type 0
IsScalar (Value.bool b) = Unit {0}
IsScalar (Value.int8 z) = InSigned (2 ^ 7) z
IsScalar (Value.uint8 n) = Unit {0}
IsScalar (Value.int16 z) = Unit {0}
IsScalar (Value.uint16 n) = Unit {0}
IsScalar (Value.int32 z) = Unit {0}
IsScalar (Value.uint32 n) = Unit {0}
IsScalar (Value.int64 z) = Unit {0}
IsScalar (Value.uint64 n) = Unit {0}
IsScalar (Value.float32 n) = is_finite32 n ≡ true
IsScalar (Value.float64 n) = is_finite64 n ≡ true
IsScalar (Value.string s) = (valid_utf8 s ≡ true) × (length s ≤ 2147483647)
IsScalar (Value.currency z) = Unit {0}
IsScalar (Value.decimal d) = d.scale ≤ 28
IsScalar (Value.error_code n) = n < 2 ^ 32
IsScalar _ = ⊥

decoded :
    (rt : Runtime) (v : Value) (w x : WireVariant)
    → ok w ≡ ok x
    → scalar_value rt w ≡ ok v
    → scalar_value rt x ≡ ok v
decoded rt v w x h r = let e : w ≡ x = cc in subst (λ y. scalar_value rt y ≡ ok v) e r

to_signed-to_unsigned : (z : ℤ) → InSigned (2 ^ 7) z → to_signed (2 ^ 7) (to_unsigned (2 ^ 7) z) ≡ z
to_signed-to_unsigned (pos n) h = ground arith
to_signed-to_unsigned (negsuc n) h = ground arith

-- A check that has been passed.
passed :
    {A : Type 0} (b : Bool) (e : Error) (r : Result A) {a : A}
    → (refuse b e >> r) ≡ ok a
    → (b ≡ false) × (r ≡ ok a)
passed true e r h = cc
passed false e r h = (refl, h)

to_unsigned-to_signed : (n : ℕ) → n < 2 ^ 32 → to_unsigned (2 ^ 31) (to_signed (2 ^ 31) n) ≡ n
to_unsigned-to_signed n h = ground arith

decimal_trip :
    (rt : Runtime) (d : Decimal) (w : WireVariant)
    → write_decimal d ≡ ok w
    → scalar_value rt w ≡ ok (Value.decimal d)
unfolding write_decimal scalar_value read_within read_union read_scalar read_decimal
decimal_trip rt d w h =
    let v : WireVariant = wire 5 vt_decimal (
      decimal_arm (
        some (record {
          hi32 = d.hi;
          lo64 = d.lo;
          scale = d.scale;
          sign = if d.negative then 0x80 else 0;
        }))) in
    let (small, g) = passed (ltb 28 d.scale) (message "DECIMAL scale exceeds 28") (ok v) h in
    decoded rt (Value.decimal d) v w g (elim (Bool-cases d.negative) [
      | inl e ↦ rw (e, small, read_decimal) refl
      | inr e ↦ rw (e, small, read_decimal) refl
    ])

read_back :
    (rt : Runtime) (v : Value) (w : WireVariant)
    → IsScalar v
    → write_variant rt v ≡ ok w
    → scalar_value rt w ≡ ok v
unfolding write_variant write_string scalar_value read_within read_union read_scalar go_value
    read_bool read_bstr read_currency
read_back rt (Value.bool true) w s h = decoded rt _ _ w h refl
read_back rt (Value.bool false) w s h = decoded rt _ _ w h refl
read_back rt (Value.int8 z) w s h =
    decoded rt _ _ w h (ap (λ k. ok (Value.int8 k)) (to_signed-to_unsigned z s))
read_back rt (Value.uint8 n) w s h = decoded rt _ _ w h refl
read_back rt (Value.int16 z) w s h = decoded rt _ _ w h refl
read_back rt (Value.uint16 n) w s h = decoded rt _ _ w h refl
read_back rt (Value.int32 z) w s h = decoded rt _ _ w h refl
read_back rt (Value.uint32 n) w s h = decoded rt _ _ w h refl
read_back rt (Value.int64 z) w s h = decoded rt _ _ w h refl
read_back rt (Value.uint64 n) w s h = decoded rt _ _ w h refl
read_back rt (Value.float32 n) w s h = decoded rt _ _ w (passed _ _ _ h).1 refl
read_back rt (Value.float64 n) w s h = decoded rt _ _ w (passed _ _ _ h).1 refl
read_back rt (Value.string t) w s h =
    let v : WireVariant =
      wire ((36 + 2 * utf16_length t + 7) / 8 % 2 ^ 32) vt_bstr (
        bstr (some (record { text = t; size = utf16_length t % 2 ^ 32; is_empty = is_empty t }))) in
    let (ok_utf8, g) =
      passed (not (valid_utf8 t)) (message "write string must be valid UTF-8")
        (refuse (ltb 2147483647 (length t)) (message "write string is too large") >> ok v) h in
    decoded rt (Value.string t) v w
      (passed (ltb 2147483647 (length t)) (message "write string is too large") (ok v) g).1 refl
read_back rt (Value.currency z) w s h = decoded rt _ _ w h refl
read_back rt (Value.decimal d) w s h = decimal_trip rt d w h
read_back rt (Value.error_code n) w s h =
    decoded rt _ _ w h (ap (λ k. ok (Value.error_code k)) (to_unsigned-to_signed n s))
read_back rt Value.nil w s h = absurd s
read_back rt (Value.time t) w s h = absurd s
read_back rt (Value.null_array t) w s h = absurd s
read_back rt (Value.array t b v) w s h = absurd s
read_back rt (Value.variant t v) w s h = absurd s
read_back rt Value.foreign w s h = absurd s

write_variant-ok :
    (rt : Runtime) (v : Value) → IsScalar v → (w : WireVariant) × (write_variant rt v ≡ ok w)
unfolding write_variant write_string write_decimal
write_variant-ok rt (Value.bool b) s = (_, refl)
write_variant-ok rt (Value.int8 z) s = (_, refl)
write_variant-ok rt (Value.uint8 n) s = (_, refl)
write_variant-ok rt (Value.int16 z) s = (_, refl)
write_variant-ok rt (Value.uint16 n) s = (_, refl)
write_variant-ok rt (Value.int32 z) s = (_, refl)
write_variant-ok rt (Value.uint32 n) s = (_, refl)
write_variant-ok rt (Value.int64 z) s = (_, refl)
write_variant-ok rt (Value.uint64 n) s = (_, refl)
write_variant-ok rt (Value.float32 n) s = rw (s, write_within) (_, refl)
write_variant-ok rt (Value.float64 n) s = rw (s, write_within) (_, refl)
write_variant-ok rt (Value.string t) s =
    let l : ltb 2147483647 (length t) ≡ false = ground arith in rw (s.0, l, write_string) (_, refl)
write_variant-ok rt (Value.currency z) s = (_, refl)
write_variant-ok rt (Value.decimal d) s =
    let l : ltb 28 d.scale ≡ false = ground arith in rw (l, write_decimal) (_, refl)
write_variant-ok rt (Value.error_code n) s = (_, refl)
write_variant-ok rt Value.nil s = absurd s
write_variant-ok rt (Value.time t) s = absurd s
write_variant-ok rt (Value.null_array t) s = absurd s
write_variant-ok rt (Value.array t b v) s = absurd s
write_variant-ok rt (Value.variant t v) s = absurd s
write_variant-ok rt Value.foreign s = absurd s

-- A scalar that is not an instant and that lies within its limits is encoded, and decoding the
-- VARIANT gives the value back.
pub scalar_value-write_variant :
    (rt : Runtime) (v : Value)
    → IsScalar v
    → (w : WireVariant) × (write_variant rt v ≡ ok w) × (scalar_value rt w ≡ ok v)
scalar_value-write_variant rt v s =
    let (w, e) = write_variant-ok rt v s in (w, e, read_back rt v w s e)
