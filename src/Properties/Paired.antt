-- ===== src/Properties/Paired.antt =====
-- What readProperties (properties.go) gives for the answers of a server, of any lengths.
use gopcda.Prelude.{
  ℕ, suc, ◌+◌, ◌≤◌, ◌≡◌, refl, ap, true, false, Option, none, some, List, [], ◌∷◌, length, ◌==◌,
  get_elem?, get_elem?-in, arith, Bool-cases, inl, inr,
}
use gopcda.Prelude.Int.{is_negative}
use gopcda.Prelude.Bytes.{Bytes}
use gopcda.Result.{Result, ok, err, Result-cases}
use gopcda.Values.Runtime.{Runtime}
use gopcda.Properties.{
  Available, PropertyValues, ItemProperty, seen, has_duplicate, check_available, check_values,
  property_value, property_of, property_at, properties_from, pair_values, on_available,
  read_properties,
}

-- No property ID stands twice.
abbrev pub IsDistinct : List ℕ → Type 0
IsDistinct [] = Unit
IsDistinct (id ∷ ids) = (seen id ids ≡ false) × IsDistinct ids

equal_ids : (j k : ℕ) → (j == k) ≡ true → j ≡ k
equal_ids j k e = ground (arith, e)

seen_before :
    (k : ℕ) (rest before : List ℕ)
    → has_duplicate rest before ≡ false
    → seen k before ≡ true
    → seen k rest ≡ false
unfolding has_duplicate seen
seen_before k [] before h s = refl
seen_before k (j ∷ rest) before h s = elim (Bool-cases (j == k)) [
  | inl e ↦ absurd (ground (arith, h, s, ap (λ i. seen i before) (equal_ids j k e)))
  | inr e ↦ ground (arith, e, h, s, seen_before k rest (j ∷ before))
]

has_duplicate-IsDistinct : (ids before : List ℕ) → has_duplicate ids before ≡ false → IsDistinct ids
unfolding has_duplicate seen
has_duplicate-IsDistinct [] before h = tt
has_duplicate-IsDistinct (id ∷ ids) before h = (
  seen_before id ids (id ∷ before) (ground (arith, h)) (ground arith),
  has_duplicate-IsDistinct ids (id ∷ before) (ground (arith, h)),
)

-- What the checks let through.
abbrev IsConsistent : Available → Type 0
IsConsistent r =
    (length r.ids ≤ 1000)
    × (length r.descriptions ≡ length r.ids)
    × (length r.data_types ≡ length r.ids)
    × (has_duplicate r.ids [] ≡ false)

check_available-IsConsistent :
    (decoded : Result Available) (r : Available)
    → check_available decoded ≡ ok r
    → is_negative r.code ≡ false
    → IsConsistent r
unfolding check_available
check_available-IsConsistent (err e) r h k = cc
check_available-IsConsistent (ok d) r h k =
    (ground (arith, h, k), ground (arith, h, k), ground (arith, h, k), ground (arith, h, k))

check_values-lengths :
    (count : ℕ) (decoded : Result PropertyValues) (v : PropertyValues)
    → check_values count decoded ≡ ok v
    → is_negative v.code ≡ false
    → (length v.variants ≡ count) × (length v.errors ≡ count)
unfolding check_values
check_values-lengths count (err e) v h k = cc
check_values-lengths count (ok d) v h k = (ground (arith, h, k), ground (arith, h, k))

-- The entry at k belongs to the k-th ID, and has what the slices hold at i + k.
abbrev IsPaired : Available → ℕ → List ℕ → List ItemProperty → Type 0
IsPaired a i [] [] = Unit
IsPaired a i (id ∷ ids) [] = ⊥
IsPaired a i [] (p ∷ ps) = ⊥
IsPaired a i (id ∷ ids) (p ∷ ps) =
    (p.id ≡ id)
    × (get_elem? a.descriptions i ≡ some p.name)
    × (get_elem? a.data_types i ≡ some p.data_type)
    × IsPaired a (suc i) ids ps

IsPaired-empty : (a : Available) (ids : List ℕ) → (length ids == 0) ≡ true → IsPaired a 0 ids []
IsPaired-empty a [] h = tt
IsPaired-empty a (id ∷ ids) h = ground (arith, h)

properties_from-IsPaired :
    (rt : Runtime) (item : Bytes) (a : Available) (v : PropertyValues) (i : ℕ) (ids : List ℕ)
    → i + length ids ≤ length a.descriptions
    → i + length ids ≤ length a.data_types
    → i + length ids ≤ length v.errors
    → i + length ids ≤ length v.variants
    → (ps : List ItemProperty) × (properties_from rt item a v i ids ≡ some ps) × IsPaired a i ids ps
unfolding properties_from property_at property_of
properties_from-IsPaired rt item a v i [] h k l m = ([], refl, tt)
properties_from-IsPaired rt item a v i (id ∷ ids) h k l m =
    let name = get_elem?-in a.descriptions i (omega (arith, h)) in
    let type = get_elem?-in a.data_types i (omega (arith, k)) in
    let code = get_elem?-in v.errors i (omega (arith, l)) in
    let variant = get_elem?-in v.variants i (omega (arith, m)) in
    let rest =
      properties_from-IsPaired rt item a v (suc i) ids (omega (arith, h)) (omega (arith, k))
        (omega (arith, l)) (omega (arith, m)) in
    (
      record {
        id = id;
        name = name.0;
        data_type = type.0;
        value = property_value rt item code.0 variant.0;
      }
          ∷ rest.0,
      rw (name.1, type.1, code.1, variant.1, property_of, rest.1) refl,
      (refl, name.1, type.1, rest.2),
    )

-- What a returned list of properties says: one entry for each advertised ID, in that order, with
-- the name and the type at its index.
abbrev pub IsComplete : Result Available → Option (Result (List ItemProperty)) → Type 0
IsComplete available none = ⊥
IsComplete available (some (err e)) = Unit
IsComplete available (some (ok ps)) =
    (a : Available) × (check_available available ≡ ok a)
    × (length a.ids ≤ 1000)
    × IsDistinct a.ids
    × IsPaired a 0 a.ids ps

pair_values-IsComplete :
    (rt : Runtime) (item : Bytes) (available : Result Available) (a : Available)
    (values : Result PropertyValues)
    → check_available available ≡ ok a
    → IsConsistent a
    → IsComplete available (pair_values rt item a (check_values (length a.ids) values))
unfolding pair_values
pair_values-IsComplete rt item available a values c h =
    elim (Result-cases (check_values (length a.ids) values)) [
      | inl (e, k) ↦ rw (k, pair_values) tt
      | inr (v, k) ↦ elim (Bool-cases (is_negative v.code)) [
        | inl n ↦ rw (k, pair_values) (simp n tt)
        | inr n ↦
            let sizes = check_values-lengths (length a.ids) values v k n in
            let paired =
              properties_from-IsPaired rt item a v 0 a.ids (omega (arith, h.1)) (omega (arith, h.2))
                (omega (arith, sizes.1)) (omega (arith, sizes.0)) in
            rw (k, pair_values)
              (simp n
                (rw (paired.1) (a, c, h.0, has_duplicate-IsDistinct a.ids [] (h.3), paired.2)))
      ]
    ]

-- Whatever the two responses hold, readProperties does not index out of range; and a list that it
-- returns has one entry for each property ID of a consistent first response, at most 1000 of them
-- and none twice, in the order of the IDs and with the name and the data type at the same index.
pub read_properties-IsComplete :
    (rt : Runtime) (item : Bytes) (available : Result Available)
    (values : List ℕ → Result PropertyValues)
    → IsComplete available (read_properties rt item available values)
unfolding read_properties on_available
read_properties-IsComplete rt item available values =
    elim (Result-cases (check_available available)) [
      | inl (e, k) ↦ rw (k, on_available) tt
      | inr (a, k) ↦ elim (Bool-cases (is_negative a.code)) [
        | inl n ↦ rw (k, on_available) (simp n tt)
        | inr n ↦
            let consistent = check_available-IsConsistent available a k n in
            let distinct = has_duplicate-IsDistinct a.ids [] (consistent.3) in
            elim (Bool-cases (length a.ids == 0)) [
              | inl z ↦
                  rw (k, on_available)
                    (simp (n, z) (a, k, consistent.0, distinct, IsPaired-empty a a.ids z))
              | inr z ↦
                  rw (k, on_available)
                    (simp (n, z)
                      (pair_values-IsComplete rt item available a (values a.ids) k consistent))
            ]
      ]
    ]
