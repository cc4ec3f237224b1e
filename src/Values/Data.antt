-- ===== src/Values/Data.antt =====
-- The Go values that reads return and writes accept (value.go, array.go), and go-msrpc's wire
-- VARIANT and SAFEARRAY, of which the library fills in and inspects the fields below.
-- A signed integer is its value, an unsigned one its value, and a float its IEEE 754 bit pattern.
-- An instant of time.Time is its nanoseconds since 1899-12-30T00:00:00Z.
use gopcda.Prelude.{ℕ, suc, Bool, Option, List}
use gopcda.Prelude.Int.{ℤ}
use gopcda.Prelude.Bytes.{Bytes}

pub record ArrayBound : Type 0 where
  pub lower : ℤ
  pub count : ℕ

-- Decimal: a 96-bit coefficient hi * 2^64 + lo, a scale and a sign.
pub record Decimal : Type 0 where
  pub hi : ℕ
  pub lo : ℕ
  pub scale : ℕ
  pub negative : Bool

mutual
  -- `any`, as far as the library tells its dynamic types apart.
  pub data Value : Type 0 where
    nil : Value
    bool : Bool → Value
    int8 int16 int32 int64 : ℤ → Value
    uint8 uint16 uint32 uint64 : ℕ → Value
    float32 float64 : ℕ → Value
    string : Bytes → Value
    currency : ℤ → Value
    decimal : Decimal → Value
    error_code : ℕ → Value
    time : ℤ → Value
    -- Array with nil Bounds and nil Values; `array` is any other Array
    null_array : ℕ → Value
    array : ℕ → List ArrayBound → Values → Value
    -- Variant{Type, Value}
    variant : ℕ → Value → Value
    -- a value of any other Go type
    foreign : Value

  pub data Values : Type 0 where
    none : Values
    cons : Value → Values → Values

-- oaut.String, oaut.Decimal and the header of oaut.SafeArray.
pub record WireString : Type 0 where
  pub text : Bytes
  pub size : ℕ
  pub is_empty : Bool

pub record WireDecimal : Type 0 where
  pub hi32 : ℕ
  pub lo64 : ℕ
  pub scale : ℕ
  pub sign : ℕ

-- `tag` is the union tag of ArrayStructs, none where ArrayStructs is nil.
pub record ArrayHeader : Type 0 where
  pub dims_count : ℕ
  pub features : ℕ
  pub elements_length : ℕ
  pub locks_count : ℕ
  pub bounds : List (Option ArrayBound)
  pub tag : Option ℕ

mutual
  -- *oaut.Variant: nil, or Size, VT and the union arm.
  pub data WireVariant : Type 0 where
    null_variant : WireVariant
    wire : ℕ → ℕ → Arm → WireVariant

  -- VarUnion and its arm; `no_union` is a nil VarUnion and `no_value` a nil arm.
  pub data Arm : Type 0 where
    no_union no_value : Arm
    bool_arm short long int_arm hresult_arm longlong : ℤ → Arm
    char byte ushort ulong uint_arm ulonglong : ℕ → Arm
    float double date_arm : ℕ → Arm
    currency_arm : Option ℤ → Arm
    bstr : Option WireString → Arm
    decimal_arm : Option WireDecimal → Arm
    variant_ptr : WireVariant → Arm
    safe_array : SafeArray → Arm
    object_arm : Arm

  pub data SafeArray : Type 0 where
    null_safe_array : SafeArray
    safe : ArrayHeader → Payload → SafeArray

  -- `no_data` is a nil pointer in an arm, `no_payload` any arm that the library does not read.
  pub data Payload : Type 0 where
    no_payload no_data : Payload
    byte_data word_data long_data : ℕ → List ℕ → Payload
    hyper_data : ℕ → List ℤ → Payload
    string_data : ℕ → List (Option WireString) → Payload
    variant_data : ℕ → WireVariants → Payload

  pub data WireVariants : Type 0 where
    empty : WireVariants
    more : WireVariant → WireVariants → WireVariants

abbrev pub count_values : Values → ℕ
count_values none = 0
count_values (cons v vs) = suc (count_values vs)
