-- ===== src/Group/Write/Coverage.antt =====
-- The outcomes of write (batch.go) by the ItemIDs of the request.
use gopcda.Prelude.{
  ℕ, ◌≢◌, sym, ◌∙◌, inl, inr, not, Option, none, some, List, [], ◌∷◌, length, arith, All,
  Bool-cases, ◌==◌,
}
use gopcda.Prelude.Int.{ℤ, is_negative}
use gopcda.Prelude.Bytes.{Bytes, bytes_eq, bytes_eq_refl}
use gopcda.Prelude.Assoc.{Assoc, lookup, insert, lookup-insert}
use gopcda.Errors.{Error, unattempted_writes}
use gopcda.Result.{Result-cases}
use gopcda.Values.Data.{Value}
use gopcda.Values.Runtime.{Runtime}
use gopcda.Group.Batches.{batches, run_batches_keeps}
use gopcda.Group.State.{RegisteredItem, PersistentGroup, Reply, failed, answered, admitted}
use gopcda.Group.Write.{
  WriteResponse, Outcomes, Sending, WritePlan, Writing, bytes_before, insert_key, sort_keys,
  prepare, plan_write, plan_writes, settle, mark_all, mark_results, write_batch, write_locked,
  write, empty_plan,
}

-- The map has an entry for the key.
abbrev pub HasKey {ℓ} : {V : Type ℓ} → Bytes → Assoc V → Type ℓ
HasKey k m = lookup k m ≢ none

HasKey-insert :
    (k j : Bytes) (v : Option Error) (m : Outcomes) → HasKey j m → HasKey j (insert k v m)
HasKey-insert k j v m h e = elim (Bool-cases (bytes_eq k j)) [
  | inl same ↦ cc (sym (lookup-insert k j v m) ∙ e, same)
  | inr other ↦ h (sym (rw other at (lookup-insert k j v m)) ∙ e)
]

HasKey-insert_self : (k : Bytes) (v : Option Error) (m : Outcomes) → HasKey k (insert k v m)
HasKey-insert_self k v m e = cc (sym (lookup-insert k k v m) ∙ e, bytes_eq_refl k)

module _ {ℓ} {V : Type ℓ} (P : Bytes × V → Type 0) where
  insert_key-All : (e : Bytes × V) (m : Assoc V) → All P (insert_key e m) → P e × All P m
  unfolding insert_key
  insert_key-All e [] h = h
  insert_key-All e (f ∷ fs) h = elim (Bool-cases (bytes_before f.0 e.0)) [
    | inl b ↦
        let g = rw (b, insert_key) at h in let (p, ps) = insert_key-All e fs g.1 in (p, (g.0, ps))
    | inr b ↦ rw (b, insert_key) at h
  ]

  sort_keys-All : (m : Assoc V) → All P (sort_keys m) → All P m
  unfolding sort_keys
  sort_keys-All [] h = tt
  sort_keys-All (e ∷ es) h =
      let (p, ps) = insert_key-All e (sort_keys es) h in (p, sort_keys-All es ps)

-- A round of the first loop gives its item an outcome, and takes none away.
module _ (rt : Runtime) (items : Assoc RegisteredItem) where
  plan_write-HasKey :
      (id j : Bytes) (value : Value) (p : WritePlan)
      → HasKey j p.result
      → HasKey j (plan_write rt items id value p).result
  unfolding plan_write
  plan_write-HasKey id j value p h = elim (Result-cases (prepare rt items id value)) [
    | inl (e, bad) ↦ rw (bad, plan_write) (HasKey-insert id j _ p.result h)
    | inr (x, good) ↦ rw (good, plan_write) (HasKey-insert id j _ p.result h)
  ]

  plan_write-HasKey_self :
      (id : Bytes) (value : Value) (p : WritePlan)
      → HasKey id (plan_write rt items id value p).result
  unfolding plan_write
  plan_write-HasKey_self id value p = elim (Result-cases (prepare rt items id value)) [
    | inl (e, bad) ↦ rw (bad, plan_write) (HasKey-insert_self id _ p.result)
    | inr (x, good) ↦ rw (good, plan_write) (HasKey-insert_self id _ p.result)
  ]

  plan_writes-HasKey :
      (values : Assoc Value) (j : Bytes) (p : WritePlan)
      → HasKey j p.result
      → HasKey j (plan_writes rt items values p).result
  unfolding plan_writes
  plan_writes-HasKey [] j p h = h
  plan_writes-HasKey ((id, value) ∷ rest) j p h =
      plan_writes-HasKey rest j _ (plan_write-HasKey id j value p h)

  plan_writes-covers :
      (values : Assoc Value) (p : WritePlan)
      → All (λ e. HasKey e.0 (plan_writes rt items values p).result) values
  unfolding plan_writes
  plan_writes-covers [] p = tt
  plan_writes-covers ((id, value) ∷ rest) p = (
    plan_writes-HasKey rest id _ (plan_write-HasKey_self id value p),
    plan_writes-covers rest (plan_write rt items id value p),
  )

mark_all-HasKey :
    (xs : List Sending) (e : Error) (j : Bytes) (m : Outcomes)
    → HasKey j m
    → HasKey j (mark_all xs e m)
unfolding mark_all
mark_all-HasKey [] e j m h = h
mark_all-HasKey (x ∷ xs) e j m h = mark_all-HasKey xs e j _ (HasKey-insert x.id j (some e) m h)

mark_results-HasKey :
    (xs : List Sending) (codes : List ℤ) (j : Bytes) (m : Outcomes)
    → HasKey j m
    → HasKey j (mark_results xs codes m)
unfolding mark_results
mark_results-HasKey [] codes j m h = h
mark_results-HasKey (x ∷ xs) [] j m h = h
mark_results-HasKey (x ∷ xs) (c ∷ cs) j m h =
    mark_results-HasKey xs cs j _ (HasKey-insert x.id j _ m h)

settle-HasKey :
    (j : Bytes) (r : Reply WriteResponse) (chunk : List Sending) (s : Writing)
    → HasKey j s.result
    → HasKey j (settle r chunk s).0.result
unfolding settle
settle-HasKey j (failed e) chunk s h = mark_all-HasKey chunk _ j s.result h
settle-HasKey j (answered r) chunk s h = elim (Bool-cases (is_negative r.hresult)) [
  | inl e ↦ rw (e, settle) (mark_all-HasKey chunk _ j s.result h)
  | inr e ↦ elim (Bool-cases (not (length r.errors == length chunk))) [
    | inl e' ↦ rw (e, e', settle) (mark_all-HasKey chunk _ j s.result h)
    | inr e' ↦ rw (e, e', settle) (mark_results-HasKey chunk r.errors j s.result h)
  ]
]

All-map {ℓ} :
    {A : Type ℓ} (P Q : A → Type 0) (xs : List A) → ((x : A) → P x → Q x) → All P xs → All Q xs
All-map P Q [] f h = tt
All-map P Q (x ∷ xs) f h = (f x h.0, All-map P Q xs f h.1)

write_locked-covers :
    (rt : Runtime) (replies : ℕ → Reply WriteResponse) (g : PersistentGroup) (values : Assoc Value)
    → All (λ e. HasKey e.0 (write_locked rt replies g values).0.result) values
unfolding write_locked write_batch
write_locked-covers rt replies g values =
    sort_keys-All (λ e. HasKey e.0 (write_locked rt replies g values).0.result) values
      (All-map _ _ (sort_keys values)
        (λ e h.
          run_batches_keeps (write_batch replies) (λ s. HasKey e.0 s.result)
            (λ k chunk s. settle-HasKey e.0 (replies k) chunk s) 0 (batches p.sending)
            (record { result = p.result; sent = [] }) h)
        (plan_writes-covers rt g.items (sort_keys values) empty_plan))
  where
    p : WritePlan
    p = plan_writes rt g.items (sort_keys values) empty_plan

HasKey-head : (k : Bytes) (v : Option Error) (m : Outcomes) → HasKey k ((k, v) ∷ m)
unfolding lookup
HasKey-head k v m e = ground (arith, bytes_eq_refl k)

HasKey-tail : (k j : Bytes) (v : Option Error) (m : Outcomes) → HasKey j m → HasKey j ((k, v) ∷ m)
unfolding lookup
HasKey-tail k j v m h e = ground (arith, h)

unattempted-covers :
    (values : Assoc Value) (e : Error) → All (λ x. HasKey x.0 (unattempted_writes values e)) values
unfolding unattempted_writes
unattempted-covers [] e = tt
unattempted-covers ((k, v) ∷ rest) e = (
  HasKey-head k _ (unattempted_writes rest e),
  All-map (λ x. HasKey x.0 (unattempted_writes rest e)) _ rest
      (λ x h. HasKey-tail k x.0 _ (unattempted_writes rest e) h) (unattempted-covers rest e),
)

-- The outcomes of write cover every requested item, also where the group cannot be reached, where a
-- value cannot be encoded, and where the operation stops with an error.
pub write-covers :
    (rt : Runtime) (groups : List (ℕ × PersistentGroup)) (id : ℕ)
    (context_error keepalive_error : Option Error) (replies : ℕ → Reply WriteResponse)
    (values : Assoc Value)
    → All
        (λ e. HasKey e.0 (write rt groups id context_error keepalive_error replies values).0.result)
        values
unfolding write
write-covers rt groups id context_error keepalive_error replies values =
    elim (Result-cases (admitted groups id context_error keepalive_error)) [
      | inl (e, bad) ↦ rw (bad, write) (unattempted-covers values e)
      | inr (g, good) ↦ rw (good, write) (write_locked-covers rt replies g values)
    ]
