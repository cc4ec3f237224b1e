-- ===== src/Group/Write/Keys.antt =====
-- The keys of the map that write (batch.go) is given, and their sorted order.
use gopcda.Prelude.{◌≡◌, ap, inl, inr, false, [], ◌∷◌, All, Bool-cases}
use gopcda.Prelude.Bytes.{Bytes, bytes_eq, bytes_eq_iff, bytes_eq_refl}
use gopcda.Prelude.Assoc.{Assoc}
use gopcda.Group.Write.{bytes_before, insert_key, sort_keys}

-- The key is none of the map's.
abbrev pub IsNewKey {ℓ} : {V : Type ℓ} → Bytes → Assoc V → Type 0
IsNewKey k = All λ e. bytes_eq k e.0 ≡ false

-- A map holds a key once.
abbrev pub DistinctKeys {ℓ} : {V : Type ℓ} → Assoc V → Type 0
DistinctKeys [] = Unit {0}
DistinctKeys (e ∷ es) = IsNewKey e.0 es × DistinctKeys es

pub bytes_eq_symm : (a b : Bytes) → bytes_eq a b ≡ false → bytes_eq b a ≡ false
bytes_eq_symm a b h = elim (Bool-cases (bytes_eq b a)) [
  | inr e ↦ e
  | inl e ↦ cc (ap (λ (k : Bytes). bytes_eq a k) ((bytes_eq_iff b a).0 e), bytes_eq_refl a)
]

module _ {ℓ} {V : Type ℓ} where
  IsNewKey-insert_key :
      (k : Bytes) (e : Bytes × V) (m : Assoc V)
      → bytes_eq k e.0 ≡ false
      → IsNewKey k m
      → IsNewKey k (insert_key e m)
  unfolding insert_key
  IsNewKey-insert_key k e [] h n = (h, tt)
  IsNewKey-insert_key k e (f ∷ fs) h n = elim (Bool-cases (bytes_before f.0 e.0)) [
    | inl b ↦ rw (b, insert_key) (n.0, IsNewKey-insert_key k e fs h n.1)
    | inr b ↦ rw (b, insert_key) (h, n)
  ]

  DistinctKeys-insert_key :
      (e : Bytes × V) (m : Assoc V)
      → IsNewKey e.0 m
      → DistinctKeys m
      → DistinctKeys (insert_key e m)
  unfolding insert_key
  DistinctKeys-insert_key e [] n d = (tt, tt)
  DistinctKeys-insert_key e (f ∷ fs) n d = elim (Bool-cases (bytes_before f.0 e.0)) [
    | inl b ↦
        rw (b, insert_key)
          (
            IsNewKey-insert_key f.0 e fs (bytes_eq_symm e.0 f.0 n.0) d.0,
            DistinctKeys-insert_key e fs n.1 d.1,
          )
    | inr b ↦ rw (b, insert_key) (n, d)
  ]

  IsNewKey-sort_keys : (k : Bytes) (m : Assoc V) → IsNewKey k m → IsNewKey k (sort_keys m)
  unfolding sort_keys
  IsNewKey-sort_keys k [] n = tt
  IsNewKey-sort_keys k (e ∷ es) n =
      IsNewKey-insert_key k e (sort_keys es) n.0 (IsNewKey-sort_keys k es n.1)

  pub DistinctKeys-sort_keys : (m : Assoc V) → DistinctKeys m → DistinctKeys (sort_keys m)
  unfolding sort_keys
  DistinctKeys-sort_keys [] d = tt
  DistinctKeys-sort_keys (e ∷ es) d =
      DistinctKeys-insert_key e (sort_keys es) (IsNewKey-sort_keys e.0 es d.0)
        (DistinctKeys-sort_keys es d.1)

  All-insert_key :
      (P : Bytes × V → Type 0) (e : Bytes × V) (m : Assoc V)
      → All P (insert_key e m)
      → P e × All P m
  unfolding insert_key
  All-insert_key P e [] h = h
  All-insert_key P e (f ∷ fs) h = elim (Bool-cases (bytes_before f.0 e.0)) [
    | inl b ↦
        let later = rw (b, insert_key) at h in
        let rest = All-insert_key P e fs (later.1) in (rest.0, (later.0, rest.1))
    | inr b ↦ let later = rw (b, insert_key) at h in (later.0, later.1)
  ]

  -- What holds of the sorted entries holds of all.
  pub All-sort_keys : (P : Bytes × V → Type 0) (m : Assoc V) → All P (sort_keys m) → All P m
  unfolding sort_keys
  All-sort_keys P [] h = tt
  All-sort_keys P (e ∷ es) h =
      let both = All-insert_key P e (sort_keys es) h in (both.0, All-sort_keys P es (both.1))
