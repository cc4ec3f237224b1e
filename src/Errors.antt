-- ===== src/Errors.antt =====
-- errors.go: the errors of the library as values, with Go's errors.Is, errors.As and errors.Join.
-- A formatted message stands as its format, without the numbers that are printed into it.
use mathlib.Core.Logic.{ite}
use gopcda.Prelude.{
  ◌≡◌, refl, ℕ, ◌^◌, String, Bool, true, false, ◌||◌, Option, none, some, List, [], ◌∷◌, map, ◌==◌,
  if◌then◌else◌,
}
use gopcda.Prelude.Int.{ℤ, to_unsigned}
use gopcda.Prelude.Bytes.{Bytes}
use gopcda.Prelude.Assoc.{Assoc}

-- The exported error variables: ErrClosed, ErrGroupClosed, ...
pub data Sentinel : Type 0 where
  closed group_closed write_outcome_unknown write_not_attempted write_acknowledged : Sentinel
  item_not_registered : Sentinel

pub data Error : Type 0 where
  sentinel : Sentinel → Error
  -- ctx.Err(): the call was cancelled, or its deadline passed
  cancelled : Error
  -- HRESULTError: operation, ItemID, code
  hresult : String → Bytes → ℕ → Error
  -- errors.New, and fmt.Errorf without %w
  message : String → Error
  -- fmt.Errorf with one %w
  wrapped : String → Error → Error
  -- errors.Join, and fmt.Errorf with two %w
  joined : Error → Error → Error
  -- an error of the RPC runtime or of the operating system
  external : ℕ → Error

pub Sentinel-discrete : Discrete Sentinel
Sentinel-discrete = hlevel

-- errors.Is(err, target)
unfoldable pub errors_is : Sentinel → Error → Bool
unfolding Sentinel-discrete
errors_is s (sentinel t) = ite (Sentinel-discrete s t) true false
errors_is s (wrapped text e) = errors_is s e
errors_is s (joined e f) = errors_is s e || errors_is s f
errors_is s e = false

-- A joined error is what its first part is.
pub errors_is-joined : (s : Sentinel) (e : Error) → errors_is s (joined (sentinel s) e) ≡ true
unfolding errors_is Sentinel-discrete
errors_is-joined closed e = refl
errors_is-joined group_closed e = refl
errors_is-joined write_outcome_unknown e = refl
errors_is-joined write_not_attempted e = refl
errors_is-joined write_acknowledged e = refl
errors_is-joined item_not_registered e = refl

abbrev pub or_else {ℓ} : {A : Type ℓ} → Option A → Option A → Option A
or_else none b = b
or_else (some a) b = some a

-- errors.As(err, &hr): the first HRESULTError of the chain.
unfoldable pub errors_as_hresult : Error → Option (String × Bytes × ℕ)
errors_as_hresult (hresult operation item code) = some (operation, item, code)
errors_as_hresult (wrapped text e) = errors_as_hresult e
errors_as_hresult (joined e f) = or_else (errors_as_hresult e) (errors_as_hresult f)
errors_as_hresult e = none

-- errors.Join of two errors, each of which may be nil.
abbrev pub join : Option Error → Option Error → Option Error
join none f = f
join (some e) none = some e
join (some e) (some f) = some (joined e f)

abbrev pub join_all : List (Option Error) → Option Error
join_all [] = none
join_all (e ∷ es) = join e (join_all es)

abbrev pub hresult_error : String → Bytes → ℤ → Error
hresult_error operation item code = hresult operation item (to_unsigned (2 ^ 31) code)

abbrev pub unknown_write : Error → Error
unknown_write e = joined (sentinel write_outcome_unknown) e

-- unattemptedWrites: one entry for each key of the map.
unfoldable pub unattempted_writes {ℓ} : {V : Type ℓ} → Assoc V → Error → Assoc (Option Error)
unattempted_writes values cause =
    map (λ e. (e.0, some (joined (sentinel write_not_attempted) cause))) values

unfoldable pub describe_opc_error : ℕ → String × String
describe_opc_error code =
    if code == 0xc0040001
    then ("OPC_E_INVALIDHANDLE", "the item handle is invalid")
    else if code == 0xc0040004
    then ("OPC_E_BADTYPE", "the item does not accept the requested data type")
    else if code == 0xc0040006
    then ("OPC_E_BADRIGHTS", "the operation is not permitted by the item's access rights")
    else if code == 0xc0040007
    then ("OPC_E_UNKNOWNITEMID", "the ItemID is not available in the server address space")
    else if code == 0xc004000b
    then ("OPC_E_RANGE", "the value is outside the item's allowed range")
    else ("", "")
