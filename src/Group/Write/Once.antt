-- ===== src/Group/Write/Once.antt =====
-- One batch of write (batch.go): what it changes of the outcomes, and of which items it settles.
use gopcda.Prelude.{
  ◌≡◌, refl, sym, ◌∙◌, ◌⊎◌, inl, inr, false, not, Option, none, some, List, [], ◌∷◌, ◌++◌, length,
  arith, All, Bool-cases, ◌==◌,
}
use mathlib.Core.List.{append_assoc}
use gopcda.Prelude.Int.{ℤ, is_negative}
use gopcda.Prelude.Bytes.{Bytes, bytes_eq, bytes_eq_iff}
use gopcda.Prelude.Assoc.{lookup, insert, lookup-insert}
use gopcda.Errors.{Error, sentinel, write_not_attempted}
use gopcda.Group.State.{Reply, failed, answered}
use gopcda.Group.Write.{WriteResponse, Outcomes, Sending, Writing, mark_all, mark_results, settle}

-- The item is among those that a batch has carried.
abbrev pub WasSent : Bytes → List Sending → Type 0
WasSent id [] = ⊥
WasSent id (x ∷ xs) = (x.id ≡ id) ⊎ WasSent id xs

-- An item with a nil outcome was sent.
abbrev pub NilMeansSent : Outcomes → List Sending → Type 0
NilMeansSent result sent = (id : Bytes) → lookup id result ≡ some none → WasSent id sent

-- The outcome of an item that no batch has carried.
abbrev pub IsUnsent : Outcomes → Sending → Type 0
IsUnsent result x = lookup x.id result ≡ some (some (sentinel write_not_attempted))

pub WasSent-left : (id : Bytes) (xs ys : List Sending) → WasSent id xs → WasSent id (xs ++ ys)
WasSent-left id [] ys h = absurd h
WasSent-left id (x ∷ xs) ys (inl e) = inl e
WasSent-left id (x ∷ xs) ys (inr h) = inr (WasSent-left id xs ys h)

WasSent-right : (id : Bytes) (xs ys : List Sending) → WasSent id ys → WasSent id (xs ++ ys)
WasSent-right id [] ys h = h
WasSent-right id (x ∷ xs) ys h = inr (WasSent-right id xs ys h)

-- A nil entry of an updated map is the new one or was there before.
pub nil_of_insert :
    (k j : Bytes) (v : Option Error) (m : Outcomes)
    → lookup j (insert k v m) ≡ some none
    → ((k ≡ j) × (v ≡ none)) ⊎ (lookup j m ≡ some none)
nil_of_insert k j v m h = elim (Bool-cases (bytes_eq k j)) [
  | inl same ↦
      let e = rw same at (lookup-insert k j v m) in inl ((bytes_eq_iff k j).0 same, cc (sym e ∙ h))
  | inr other ↦ inr (sym (rw other at (lookup-insert k j v m)) ∙ h)
]

mark_all-nil :
    (xs : List Sending) (e : Error) (j : Bytes) (m : Outcomes)
    → lookup j (mark_all xs e m) ≡ some none
    → lookup j m ≡ some none
unfolding mark_all
mark_all-nil [] e j m h = h
mark_all-nil (x ∷ xs) e j m h =
    elim (nil_of_insert x.id j (some e) m (mark_all-nil xs e j (insert x.id (some e) m) h)) [
      | inl (same, impossible) ↦ cc
      | inr old ↦ old
    ]

mark_results-nil :
    (xs : List Sending) (codes : List ℤ) (j : Bytes) (m : Outcomes)
    → lookup j (mark_results xs codes m) ≡ some none
    → WasSent j xs ⊎ (lookup j m ≡ some none)
unfolding mark_results
mark_results-nil [] codes j m h = inr h
mark_results-nil (x ∷ xs) [] j m h = inr h
mark_results-nil (x ∷ xs) (c ∷ cs) j m h = elim (mark_results-nil xs cs j _ h) [
  | inl later ↦ inl (inr later)
  | inr here ↦ elim (nil_of_insert x.id j _ m here) [
    | inl (same, good) ↦ inl (inl same)
    | inr old ↦ inr old
  ]
]

settle-NilMeansSent :
    (r : Reply WriteResponse) (chunk : List Sending) (s : Writing)
    → NilMeansSent s.result s.sent
    → NilMeansSent (settle r chunk s).0.result (settle r chunk s).0.sent
unfolding settle
settle-NilMeansSent (failed e) chunk s h id n =
    WasSent-left id s.sent chunk (h id (mark_all-nil chunk _ id s.result n))
settle-NilMeansSent (answered r) chunk s h id n = elim (Bool-cases (is_negative r.hresult)) [
  | inl e ↦
      rw (e, settle)
        (WasSent-left id s.sent chunk
          (h id (mark_all-nil chunk _ id s.result (rw (e, settle) at n))))
  | inr e ↦ elim (Bool-cases (not (length r.errors == length chunk))) [
    | inl e' ↦
        rw (e, e', settle)
          (WasSent-left id s.sent chunk
            (h id (mark_all-nil chunk _ id s.result (rw (e, e', settle) at n))))
    | inr e' ↦
        rw (e, e', settle)
          (elim (mark_results-nil chunk r.errors id s.result (rw (e, e', settle) at n)) [
            | inl now ↦ WasSent-right id s.sent chunk now
            | inr old ↦ WasSent-left id s.sent chunk (h id old)
          ])
  ]
]

-- The items carry different ItemIDs.
abbrev pub DistinctSendings : List Sending → Type 0
DistinctSendings [] = Unit {0}
DistinctSendings (x ∷ xs) = All (λ y. bytes_eq x.id y.id ≡ false) xs × DistinctSendings xs

pub lookup-insert_other :
    (k j : Bytes) (v : Option Error) (m : Outcomes)
    → bytes_eq k j ≡ false
    → lookup j (insert k v m) ≡ lookup j m
lookup-insert_other k j v m e = lookup-insert k j v m ∙ rw e

mark_all-other :
    (xs : List Sending) (e : Error) (j : Bytes) (m : Outcomes)
    → All (λ x. bytes_eq x.id j ≡ false) xs
    → lookup j (mark_all xs e m) ≡ lookup j m
unfolding mark_all
mark_all-other [] e j m h = refl
mark_all-other (x ∷ xs) e j m h =
    mark_all-other xs e j _ h.1 ∙ lookup-insert_other x.id j (some e) m h.0

mark_results-other :
    (xs : List Sending) (codes : List ℤ) (j : Bytes) (m : Outcomes)
    → All (λ x. bytes_eq x.id j ≡ false) xs
    → lookup j (mark_results xs codes m) ≡ lookup j m
unfolding mark_results
mark_results-other [] codes j m h = refl
mark_results-other (x ∷ xs) [] j m h = refl
mark_results-other (x ∷ xs) (c ∷ cs) j m h =
    mark_results-other xs cs j _ h.1 ∙ lookup-insert_other x.id j _ m h.0

pub settle-other :
    (r : Reply WriteResponse) (chunk : List Sending) (s : Writing) (j : Bytes)
    → All (λ x. bytes_eq x.id j ≡ false) chunk
    → lookup j (settle r chunk s).0.result ≡ lookup j s.result
unfolding settle
settle-other (failed e) chunk s j h = mark_all-other chunk _ j s.result h
settle-other (answered r) chunk s j h = elim (Bool-cases (is_negative r.hresult)) [
  | inl e ↦ rw (e, settle) (mark_all-other chunk _ j s.result h)
  | inr e ↦ elim (Bool-cases (not (length r.errors == length chunk))) [
    | inl e' ↦ rw (e, e', settle) (mark_all-other chunk _ j s.result h)
    | inr e' ↦ rw (e, e', settle) (mark_results-other chunk r.errors j s.result h)
  ]
]

settle-sent :
    (r : Reply WriteResponse) (chunk : List Sending) (s : Writing)
    → (settle r chunk s).0.sent ≡ s.sent ++ chunk
unfolding settle
settle-sent (failed e) chunk s = refl
settle-sent (answered r) chunk s = ground arith

-- In a list of different items, those of the front are none of the rest.
split_apart :
    (front rest : List Sending)
    → DistinctSendings (front ++ rest)
    → All (λ y. All (λ x. bytes_eq x.id y.id ≡ false) front) rest × DistinctSendings rest
split_apart [] rest d = (all_tt rest, d)
  where
    all_tt : (ys : List Sending) → All (λ y. Unit {0}) ys
    all_tt [] = tt
    all_tt (y ∷ ys) = (tt, all_tt ys)
split_apart (x ∷ xs) rest d =
    let (apart, distinct) = split_apart xs rest d.1 in
    (join_all rest (after xs d.0) apart, distinct)
  where
    after :
        (zs : List Sending)
        → All (λ y. bytes_eq x.id y.id ≡ false) (zs ++ rest)
        → All (λ y. bytes_eq x.id y.id ≡ false) rest
    after [] h = h
    after (z ∷ zs) h = after zs h.1

    join_all :
        (ys : List Sending)
        → All (λ y. bytes_eq x.id y.id ≡ false) ys
        → All (λ y. All (λ z. bytes_eq z.id y.id ≡ false) xs) ys
        → All (λ y. All (λ z. bytes_eq z.id y.id ≡ false) (x ∷ xs)) ys
    join_all [] h k = tt
    join_all (y ∷ ys) h k = ((h.0, k.0), join_all ys h.1 k.1)

-- Where the operation stands: what it has sent, what it has left, and that the latter says so.
pub record IsOnce (planned left : List Sending) (s : Writing) : Type 0 where
  pub split : s.sent ++ left ≡ planned
  pub unsent : All (IsUnsent s.result) left
  pub distinct : DistinctSendings left
  pub nil_means_sent : NilMeansSent s.result s.sent

pub settle-IsOnce :
    (planned chunk rest : List Sending) (r : Reply WriteResponse) (s : Writing)
    → IsOnce planned (chunk ++ rest) s
    → IsOnce planned rest (settle r chunk s).0
settle-IsOnce planned chunk rest r s h = record {
  split = rw (settle-sent r chunk s) (append_assoc s.sent chunk rest ∙ h.split);
  unsent = keep rest (split_apart chunk rest h.distinct).0 (later chunk h.unsent);
  distinct = (split_apart chunk rest h.distinct).1;
  nil_means_sent = settle-NilMeansSent r chunk s h.nil_means_sent;
}
  where
    later :
        (xs : List Sending) → All (IsUnsent s.result) (xs ++ rest) → All (IsUnsent s.result) rest
    later [] u = u
    later (x ∷ xs) u = later xs u.1

    keep :
        (ys : List Sending)
        → All (λ y. All (λ x. bytes_eq x.id y.id ≡ false) chunk) ys
        → All (IsUnsent s.result) ys
        → All (IsUnsent (settle r chunk s).0.result) ys
    keep [] a u = tt
    keep (y ∷ ys) a u = (settle-other r chunk s y.id a.0 ∙ u.0, keep ys a.1 u.1)
