-- ===== src/Properties.antt =====
-- properties.go and properties_wire.go: readProperties, which pairs the advertised properties of an
-- item with their values, the checks on the two decoded responses, and itemProperties with its
-- cleanup. The generated decoders and the calls outside the client are arguments.
pub mod Paired
pub mod Released
pub mod Examples
use gopcda.Prelude.{
  ℕ, zero, suc, Bool, true, false, not, ◌&&◌, ◌||◌, Option, none, some, List, [], ◌∷◌, length, ltb,
  ◌==◌, get_elem?, String, if◌then◌else◌,
}
use gopcda.Prelude.Int.{ℤ, is_negative}
use gopcda.Prelude.Bytes.{Bytes}
use gopcda.Errors.{Error, message, wrapped, join, hresult_error}
use gopcda.Result.{Result, ok, err, refuse, in_context, ◌>>=◌, ◌>>◌}
use gopcda.Values.Data.{Value, WireVariant}
use gopcda.Values.Runtime.{Runtime}
use gopcda.Values.Decode.{scalar_value}
use gopcda.Group.State.{Reply, failed, answered}
use gopcda.Group.Batches.{max_batch_items}
use gopcda.Browse.Objects.{Reference}

-- availablePropertiesResponse; `code` is its Return.
pub record Available : Type 0 where
  pub code : ℤ
  pub count : ℕ
  pub ids : List ℕ
  pub descriptions : List Bytes
  pub data_types : List ℕ

-- propertyValuesResponse; a VARIANT may be nil.
pub record PropertyValues : Type 0 where
  pub code : ℤ
  pub variants : List (Option WireVariant)
  pub errors : List ℤ

-- The fields Value and Error are a result.
pub record ItemProperty : Type 0 where
  pub id : ℕ
  pub name : Bytes
  pub data_type : ℕ
  pub value : Result Value

-- seen[id]
unfoldable pub seen : ℕ → List ℕ → Bool
seen id [] = false
seen id (k ∷ ks) = k == id || seen id ks

-- The loop over PropertyIDs, after those in the second list.
unfoldable pub has_duplicate : List ℕ → List ℕ → Bool
unfolding seen
has_duplicate [] ids = false
has_duplicate (id ∷ rest) ids = seen id ids || has_duplicate rest (id ∷ ids)

-- availablePropertiesResponse.UnmarshalNDR
unfoldable pub check_available : Result Available → Result Available
unfolding has_duplicate
check_available (err e) = err e
check_available (ok r) =
    if is_negative r.code
    then ok r
    else refuse
        (ltb max_batch_items r.count
          || (not (length r.ids == r.count)
              || (not (length r.descriptions == r.count) || not (length r.data_types == r.count))))
        (message "inconsistent property metadata counts")
      >> refuse (has_duplicate r.ids []) (message "duplicate property ID %d")
      >> ok r

-- propertyValuesResponse.UnmarshalNDR
unfoldable pub check_values : ℕ → Result PropertyValues → Result PropertyValues
check_values count (err e) = err e
check_values count (ok r) =
    refuse
      (not (is_negative r.code)
        && (not (length r.variants == count) || not (length r.errors == count)))
      (message "inconsistent property value counts")
    >> ok r

-- p.Value and p.Error, of which at most one is set but where scalarValue gives a value beside an
-- error: then only the error is kept here.
unfoldable pub property_value : Runtime → Bytes → ℤ → Option WireVariant → Result Value
unfolding scalar_value
property_value rt item code none =
    if is_negative code
    then err (hresult_error "GetItemProperties property %d" item code)
    else err (message "property %d: missing VARIANT")
property_value rt item code (some v) =
    if is_negative code
    then err (hresult_error "GetItemProperties property %d" item code)
    else scalar_value rt v

-- The property with what the four slices hold at its index; a missing one is a panic.
unfoldable pub property_of :
    Runtime
    → Bytes
    → ℕ
    → Option Bytes
    → Option ℕ
    → Option ℤ
    → Option (Option WireVariant)
    → Option ItemProperty
unfolding property_value
property_of rt item id (some name) (some data_type) (some code) (some variant) = some (record {
  id = id;
  name = name;
  data_type = data_type;
  value = property_value rt item code variant;
})
property_of rt item id _ _ _ _ = none

-- The body of the loop at index i.
unfoldable pub property_at :
    Runtime → Bytes → Available → PropertyValues → ℕ → ℕ → Option ItemProperty
unfolding property_of
property_at rt item a v i id =
    property_of rt item id (get_elem? a.descriptions i) (get_elem? a.data_types i)
      (get_elem? v.errors i) (get_elem? v.variants i)

abbrev prepend : Option ItemProperty → Option (List ItemProperty) → Option (List ItemProperty)
prepend (some p) (some ps) = some (p ∷ ps)
prepend _ _ = none

unfoldable pub properties_from :
    Runtime → Bytes → Available → PropertyValues → ℕ → List ℕ → Option (List ItemProperty)
unfolding property_at
properties_from rt item a v i [] = some []
properties_from rt item a v i (id ∷ ids) =
    prepend (property_at rt item a v i id) (properties_from rt item a v (suc i) ids)

abbrev with_ok : Option (List ItemProperty) → Option (Result (List ItemProperty))
with_ok none = none
with_ok (some ps) = some (ok ps)

unfoldable pub pair_values :
    Runtime → Bytes → Available → Result PropertyValues → Option (Result (List ItemProperty))
unfolding properties_from
pair_values rt item a (err e) = some (err (wrapped "GetItemProperties" e))
pair_values rt item a (ok v) =
    if is_negative v.code
    then some (err (hresult_error "GetItemProperties" item v.code))
    else with_ok (properties_from rt item a v 0 a.ids)

unfoldable pub on_available :
    Runtime
    → Bytes
    → (List ℕ → Result PropertyValues)
    → Result Available
    → Option (Result (List ItemProperty))
unfolding pair_values check_values
on_available rt item values (err e) = some (err (wrapped "QueryAvailableProperties" e))
on_available rt item values (ok a) =
    if is_negative a.code
    then some (err (hresult_error "QueryAvailableProperties" item a.code))
    else if length a.ids == 0
    then some (ok [])
    else pair_values rt item a (check_values (length a.ids) (values a.ids))

-- readProperties; none is a panic.
unfoldable pub read_properties :
    Runtime
    → Bytes
    → Result Available
    → (List ℕ → Result PropertyValues)
    → Option (Result (List ItemProperty))
unfolding on_available check_available
read_properties rt item available values = on_available rt item values (check_available available)
