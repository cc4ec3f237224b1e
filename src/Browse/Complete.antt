-- ===== src/Browse/Complete.antt =====
-- What collectItemIDs (browse.go) returns, by the batches that it received.
use gopcda.Prelude.{
  ℕ, zero, suc, ◌<◌, ◌≡◌, refl, sym, subst, ◌∙◌, true, false, ◌||◌, Option, none, some, List, [],
  ◌∷◌, ◌++◌, arith, Bool-cases, inl, inr, ◌⊎◌, ◌==◌,
}
use gopcda.Prelude.Bytes.{Bytes, bytes_eq}
use gopcda.Prelude.Assoc.{insert}
use gopcda.Prelude.Order.{
  contains, contains-append, keys, sort, contains-sort, sort-IsAscending, IsAscending, IsDistinct,
  contains-keys-insert, keys-insert-IsDistinct,
}
use gopcda.Errors.{Error}
use gopcda.Result.{Result, ok, err, Result-cases}
use gopcda.Group.State.{Reply, failed, answered}
use gopcda.Browse.{
  Batch, Turn, Seen, Pass, return, continue, is_code, mark, check_batch, after_mark, on_batch,
  on_reply, pass, collect, collect_item_ids,
}

abbrev pub reply_values : Reply (Option Batch) → List Bytes
reply_values (failed e) = []
reply_values (answered none) = []
reply_values (answered (some batch)) = batch.values

-- The ItemIDs that the first `n` calls brought, in the order of their arrival.
unfoldable pub received : ℕ → (ℕ → Turn) → List Bytes
received zero next = []
received (suc n) next = reply_values (next 0).reply ++ received n (λ i. next (suc i))

-- The call was made and answered with this code, all of its ItemIDs being nonempty.
abbrev pub Brought : ℕ → Turn → Type 0
Brought code turn =
    (batch : Batch) × (turn.context ≡ none)
    × (turn.reply ≡ answered (some batch))
    × (is_code code batch.hresult ≡ true)
    × (contains [] batch.values ≡ false)

-- From `seen` to `more` exactly the strings of `ids` are added.
abbrev Marked : List Bytes → Seen → Seen → Type 0
Marked ids seen more =
    (contains [] ids ≡ false)
    × ((id : Bytes) → contains id (keys more) ≡ (contains id (keys seen) || contains id ids))
    × (IsDistinct (keys seen) → IsDistinct (keys more))

ok_injective : (seen more : Seen) → ok seen ≡ ok more → seen ≡ more
ok_injective seen more h = cc

mark-Marked : (ids : List Bytes) (seen more : Seen) → mark ids seen ≡ ok more → Marked ids seen more
unfolding mark contains bytes_eq
mark-Marked [] seen more h =
    (refl, (λ id. ground (arith, h)), λ d. rw (sym (ok_injective seen more h)) d)
mark-Marked ([] ∷ ids) seen more h = cc
mark-Marked ((b ∷ r) ∷ ids) seen more h =
    let rest = mark-Marked ids (insert (b ∷ r) tt seen) more h in
    (
      rest.0,
      (λ id. ground (arith, rest.1 id, contains-keys-insert id (b ∷ r) tt seen)),
      λ d. rest.2 (keys-insert-IsDistinct (b ∷ r) tt seen d),
    )

-- A pass that goes on, and one that returns a list.
abbrev Went : ℕ → Turn → Seen → Seen → Type 0
Went code turn seen more = Brought code turn × Marked (reply_values turn.reply) seen more

abbrev pub Passed : Turn → Seen → Pass → Type 0
Passed turn seen (return (err e)) = Unit
Passed turn seen (return (ok ids)) =
    (more : Seen) × Went 1 turn seen more × (ids ≡ sort (keys more))
Passed turn seen (continue more) = Went 0 turn seen more

-- The codes that check_batch lets through.
check_batch-ok :
    (batch : Batch)
    → check_batch batch ≡ ok tt
    → (is_code 0 batch.hresult ≡ true) ⊎ (is_code 1 batch.hresult ≡ true)
unfolding check_batch
check_batch-ok batch h = elim (Bool-cases (is_code 0 batch.hresult)) [
  | inl a ↦ inl a
  | inr a ↦ elim (Bool-cases (is_code 1 batch.hresult)) [
    | inl b ↦ inr b
    | inr b ↦ ground (arith, a, b, h)
  ]
]

on_batch-Passed :
    (turn : Turn) (batch : Batch) (seen : Seen)
    → turn.context ≡ none
    → turn.reply ≡ answered (some batch)
    → Passed turn seen (on_batch batch seen (check_batch batch))
unfolding on_batch after_mark
on_batch-Passed turn batch seen c h = elim (Result-cases (check_batch batch)) [
  | inl (e, bad) ↦ rw (bad, on_batch) tt
  | inr (t, good) ↦ elim (Result-cases (mark batch.values seen)) [
    | inl (e, k) ↦ rw (good, on_batch, k, after_mark) tt
    | inr (more, k) ↦
        let m = mark-Marked batch.values seen more k in
        elim (Bool-cases (is_code 1 batch.hresult)) [
          | inl b ↦
              rw (good, on_batch, k, after_mark, b) (more, ((batch, c, h, b, m.0), rw h m), refl)
          | inr b ↦ elim (Bool-cases (batch.fetched == 0)) [
            | inl z ↦ rw (good, on_batch, k, after_mark, b, z) tt
            | inr z ↦ elim (check_batch-ok batch good) [
              | inl a ↦ rw (good, on_batch, k, after_mark, b, z) ((batch, c, h, a, m.0), rw h m)
              | inr a ↦ absurd (ground (arith, a, b))
            ]
          ]
        ]
  ]
]

abbrev turn_of : Option Error → Reply (Option Batch) → Turn
turn_of context reply = record { context = context; reply = reply }

turn-Passed :
    (context : Option Error) (reply : Reply (Option Batch)) (seen : Seen)
    → Passed (turn_of context reply) seen (pass (turn_of context reply) seen)
unfolding pass on_reply
turn-Passed (some e) reply seen = tt
turn-Passed none (failed e) seen = tt
turn-Passed none (answered none) seen = tt
turn-Passed none (answered (some batch)) seen = on_batch-Passed _ batch seen refl refl

pub pass-Passed : (turn : Turn) (seen : Seen) → Passed turn seen (pass turn seen)
pass-Passed turn seen = turn-Passed turn.context turn.reply seen

pub Pass-cases :
    (p : Pass)
    → ((e : Error) × (p ≡ return (err e)))
      ⊎ (((ids : List Bytes) × (p ≡ return (ok ids))) ⊎ ((more : Seen) × (p ≡ continue more)))
Pass-cases (return (err e)) = inl (e, refl)
Pass-cases (return (ok ids)) = inr (inl (ids, refl))
Pass-cases (continue more) = inr (inr (more, refl))

-- The first `n` calls brought full batches, and call `n` the last one.
abbrev pub Enumerated : ℕ → (ℕ → Turn) → Type 0
Enumerated zero next = Brought 1 (next 0)
Enumerated (suc n) next = Brought 0 (next 0) × Enumerated n (λ i. next (suc i))

-- The returned list, after strings `seen` before.
abbrev Gathered : ℕ → (ℕ → Turn) → Seen → List Bytes → Type 0
Gathered fuel next seen ids =
    IsAscending ids
    × ((n : ℕ) × (n < fuel)
        × Enumerated n next
        × ((id : Bytes)
            → contains id ids ≡ (contains id (keys seen) || contains id (received (suc n) next))))

pub collect-return :
    (fuel : ℕ) (next : ℕ → Turn) (seen : Seen) (result : Result (List Bytes))
    → pass (next 0) seen ≡ return result
    → collect (suc fuel) next seen ≡ some result
unfolding collect
collect-return fuel next seen result p = rw (p, collect) refl

pub collect-continue :
    (fuel : ℕ) (next : ℕ → Turn) (seen more : Seen)
    → pass (next 0) seen ≡ continue more
    → collect (suc fuel) next seen ≡ collect fuel (λ i. next (suc i)) more
unfolding collect
collect-continue fuel next seen more p = rw (p, collect) refl

some_injective : (r q : List Bytes) → some (ok r) ≡ some (ok q) → r ≡ q
some_injective r q h = cc

-- One call more before those that the returned list is made of.
received_next :
    (n : ℕ) (next : ℕ → Turn) (seen more : Seen) (id : Bytes) (ids : List Bytes)
    → contains id (keys more)
      ≡ (contains id (keys seen) || contains id (reply_values (next 0).reply))
    → contains id ids ≡ (contains id (keys more) || contains id (received n (λ i. next (suc i))))
    → contains id ids ≡ (contains id (keys seen) || contains id (received (suc n) next))
unfolding received
received_next n next seen more id ids h k =
    ground (
      arith,
      h,
      k,
      contains-append id (reply_values (next 0).reply) (received n (λ i. next (suc i))),
    )

last :
    (fuel : ℕ) (next : ℕ → Turn) (seen : Seen) (result ids : List Bytes)
    → IsDistinct (keys seen)
    → pass (next 0) seen ≡ return (ok result)
    → result ≡ ids
    → Gathered (suc fuel) next seen ids
unfolding received contains
last fuel next seen result ids d p h =
    let went = subst (Passed (next 0) seen) p (pass-Passed (next 0) seen) in
    let sorted = sym h ∙ went.2 in
    (
      rw sorted (sort-IsAscending (keys went.0) (went.1.1.2 d)),
      (
        0,
        omega arith,
        went.1.0,
        λ id.
            received_next 0 next seen went.0 id ids (went.1.1.1 id)
              (rw sorted (ground (arith, contains-sort id (keys went.0)))),
      ),
    )

collect-Gathered :
    (fuel : ℕ) (next : ℕ → Turn) (seen : Seen) (ids : List Bytes)
    → IsDistinct (keys seen)
    → collect fuel next seen ≡ some (ok ids)
    → Gathered fuel next seen ids
unfolding collect received
collect-Gathered zero next seen ids d h = cc
collect-Gathered (suc fuel) next seen ids d h = elim (Pass-cases (pass (next 0) seen)) [
  | inl (e, p) ↦ absurd (ground (arith, h, p))
  | inr (inl (result, p)) ↦
      last fuel next seen result ids d p
        (some_injective _ _ (sym (collect-return fuel next seen (ok result) p) ∙ h))
  | inr (inr (more, p)) ↦
      let went = subst (Passed (next 0) seen) p (pass-Passed (next 0) seen) in
      let rest =
        collect-Gathered fuel (λ i. next (suc i)) more ids (went.1.2 d)
          (sym (collect-continue fuel next seen more p) ∙ h) in
      (
        rest.0,
        (
          suc rest.1.0,
          omega (arith, rest.1.1),
          (went.0, rest.1.2),
          λ id. received_next (suc rest.1.0) next seen more id ids (went.1.1 id) (rest.1.3 id),
        ),
      )
]

-- A list that collectItemIDs returns ascends in Go's order of strings, so that no ItemID stands
-- twice, and holds exactly the ItemIDs that the calls brought up to the first one answered S_FALSE,
-- that one included; each call before it was answered S_OK, and none brought an empty ItemID.
pub collect_item_ids-IsAscending :
    (fuel : ℕ) (next : ℕ → Turn) (ids : List Bytes)
    → collect_item_ids fuel next ≡ some (ok ids)
    → IsAscending ids
      × ((n : ℕ) × (n < fuel)
          × Enumerated n next
          × ((id : Bytes) → contains id ids ≡ contains id (received (suc n) next)))
unfolding collect_item_ids keys contains
collect_item_ids-IsAscending fuel next ids h = collect-Gathered fuel next [] ids tt h
