-- ===== src/Group/Write/Sent.antt =====
-- The plan of write, and what the whole operation has sent when it ends.
use gopcda.Prelude.{
  ℕ, ◌≡◌, ◌≢◌, refl, ◌∙◌, inl, inr, false, Option, none, some, List, [], ◌∷◌, ◌++◌, All,
}
use gopcda.Prelude.Bytes.{Bytes, bytes_eq, bytes_eq_refl}
use gopcda.Prelude.Assoc.{Assoc, lookup, insert, lookup-insert}
use gopcda.Errors.{Error, sentinel, write_not_attempted}
use gopcda.Result.{Result-cases}
use gopcda.Values.Data.{Value}
use gopcda.Values.Runtime.{Runtime}
use gopcda.Group.Batches.{batches, batches-cover, concat, run_batches, run_batches_inv, Outcome}
use gopcda.Group.State.{RegisteredItem, PersistentGroup, Reply}
use gopcda.Group.Write.{
  WriteResponse, Outcomes, Sending, WritePlan, Writing, sort_keys, prepare, plan_write, plan_writes,
  write_batch, write_locked, empty_plan,
}
use gopcda.Group.Write.Keys.{IsNewKey, DistinctKeys, bytes_eq_symm, DistinctKeys-sort_keys}
use gopcda.Group.Write.Refused.{Treats, prepare-id, write_locked-Treats}
use gopcda.Group.Write.Once.{
  IsUnsent, DistinctSendings, IsOnce, nil_of_insert, lookup-insert_other, settle-IsOnce,
}

-- What a round of the first loop keeps; `rest` are the entries to come.
record IsPlanned (rest : Assoc Value) (p : WritePlan) : Type 0 where
  unsent : All (IsUnsent p.result) p.sending
  distinct : DistinctSendings p.sending
  new : All (λ x. IsNewKey x.id rest) p.sending
  none_nil : (id : Bytes) → lookup id p.result ≢ some none

never_nil :
    (k : Bytes) (e : Error) (m : Outcomes)
    → ((id : Bytes) → lookup id m ≢ some none)
    → (id : Bytes) → lookup id (insert k (some e) m) ≢ some none
never_nil k e m h id n = elim (nil_of_insert k id (some e) m n) [
  | inl (same, impossible) ↦ cc
  | inr old ↦ h id old
]

other_entries :
    (k : Bytes) (v : Option Error) (m : Outcomes) (rest : Assoc Value) (value : Value)
    (xs : List Sending)
    → All (λ x. IsNewKey x.id ((k, value) ∷ rest)) xs
    → All (IsUnsent m) xs
    → All (IsUnsent (insert k v m)) xs
other_entries k v m rest value [] n u = tt
other_entries k v m rest value (x ∷ xs) n u = (
  lookup-insert_other k x.id v m (bytes_eq_symm x.id k n.0.0) ∙ u.0,
  other_entries k v m rest value xs n.1 u.1,
)

drop_key :
    (k : Bytes) (value : Value) (rest : Assoc Value) (xs : List Sending)
    → All (λ x. IsNewKey x.id ((k, value) ∷ rest)) xs
    → All (λ x. IsNewKey x.id rest) xs
drop_key k value rest [] n = tt
drop_key k value rest (x ∷ xs) n = (n.0.1, drop_key k value rest xs n.1)

All-snoc {ℓ} :
    {A : Type ℓ} (P : A → Type 0) (xs : List A) (y : A) → All P xs → P y → All P (xs ++ y ∷ [])
All-snoc P [] y h p = (p, tt)
All-snoc P (x ∷ xs) y h p = (h.0, All-snoc P xs y h.1 p)

DistinctSendings-snoc :
    (k : Bytes) (value : Value) (rest : Assoc Value) (xs : List Sending) (y : Sending)
    → y.id ≡ k
    → All (λ x. IsNewKey x.id ((k, value) ∷ rest)) xs
    → DistinctSendings xs
    → DistinctSendings (xs ++ y ∷ [])
DistinctSendings-snoc k value rest [] y e n d = (tt, tt)
DistinctSendings-snoc k value rest (x ∷ xs) y e n d = (
  All-snoc (λ z. bytes_eq x.id z.id ≡ false) xs y d.0 (rw e n.0.0),
  DistinctSendings-snoc k value rest xs y e n.1 d.1,
)

plan_write-IsPlanned :
    (rt : Runtime) (items : Assoc RegisteredItem) (id : Bytes) (value : Value) (rest : Assoc Value)
    (p : WritePlan)
    → IsNewKey id rest
    → IsPlanned ((id, value) ∷ rest) p
    → IsPlanned rest (plan_write rt items id value p)
unfolding plan_write
plan_write-IsPlanned rt items id value rest p new h =
    elim (Result-cases (prepare rt items id value)) [
      | inl (e, bad) ↦
          rw (bad, plan_write)
            (record {
              unsent = other_entries id _ p.result rest value p.sending h.new h.unsent;
              distinct = h.distinct;
              new = drop_key id value rest p.sending h.new;
              none_nil = never_nil id _ p.result h.none_nil;
            })
      | inr (x, good) ↦
          let e = prepare-id rt items id value x good in
          rw (good, plan_write)
            (record {
              unsent =
                  All-snoc (IsUnsent (insert id (some (sentinel write_not_attempted)) p.result))
                    p.sending x (other_entries id _ p.result rest value p.sending h.new h.unsent)
                    (rw e (lookup-insert id id _ p.result ∙ rw (bytes_eq_refl id)));
              distinct = DistinctSendings-snoc id value rest p.sending x e h.new h.distinct;
              new =
                  All-snoc (λ y. IsNewKey y.id rest) p.sending x
                    (drop_key id value rest p.sending h.new) (rw e new);
              none_nil = never_nil id _ p.result h.none_nil;
            })
    ]

plan_writes-IsPlanned :
    (rt : Runtime) (items : Assoc RegisteredItem) (values : Assoc Value) (p : WritePlan)
    → DistinctKeys values
    → IsPlanned values p
    → IsPlanned [] (plan_writes rt items values p)
unfolding plan_writes
plan_writes-IsPlanned rt items [] p d h = h
plan_writes-IsPlanned rt items ((id, value) ∷ rest) p d h =
    plan_writes-IsPlanned rt items rest _ d.1 (plan_write-IsPlanned rt items id value rest p d.0 h)

-- The items of the request that are registered and whose values can be encoded, by ItemID.
pub planned : Runtime → PersistentGroup → Assoc Value → List Sending
planned rt g values = (plan_writes rt g.items (sort_keys values) empty_plan).sending

-- The end of an operation: without an error nothing is left to send.
abbrev pub EndsOnce : List Sending → Writing × Option Error → Type 0
EndsOnce all (s, none) = IsOnce all [] s
EndsOnce all (s, some e) = (left : List Sending) × IsOnce all left s

-- For a map of values, whose keys are distinct, write sends a front of its plan, and the whole plan
-- unless it ends with an error; the plan names no item twice. An item of the plan that it has not
-- sent has the outcome ErrWriteNotAttempted, and an item with a nil outcome was sent. The plan names
-- every requested item that is registered and whose value can be encoded; the outcome of every other
-- one is ErrWriteNotAttempted joined with the reason, in whatever way the operation ends.
pub write_locked-EndsOnce :
    (rt : Runtime) (replies : ℕ → Reply WriteResponse) (g : PersistentGroup) (values : Assoc Value)
    → DistinctKeys values
    → DistinctSendings (planned rt g values)
      × EndsOnce (planned rt g values) (write_locked rt replies g values)
      × All
          (λ e.
            Treats
              (prepare rt g.items e.0 e.1)
              e.0
              (planned rt g values)
              (write_locked rt replies g values).0.result)
          values
unfolding write_locked write_batch planned
write_locked-EndsOnce rt replies g values d =
    (plan.distinct, ends _ run, write_locked-Treats rt replies g values d)
  where
    p : WritePlan
    p = plan_writes rt g.items (sort_keys values) empty_plan

    plan : IsPlanned [] p
    plan =
        plan_writes-IsPlanned rt g.items (sort_keys values) empty_plan
          (DistinctKeys-sort_keys values d)
          (record { unsent = tt; distinct = tt; new = tt; none_nil = λ id e. cc })

    start : IsOnce p.sending (concat (batches p.sending)) (record { result = p.result; sent = [] })
    start = rw (batches-cover p.sending).0 (record {
      split = refl;
      unsent = plan.unsent;
      distinct = plan.distinct;
      nil_means_sent = λ id e. absurd (plan.none_nil id e);
    })

    Stopped : Error → Writing → Type 0
    Stopped e s = (left : List Sending) × IsOnce p.sending left s

    any :
        (rest : List (List Sending)) (r : Writing × Option Error)
        → IsOnce p.sending (concat rest) r.0
        → Outcome (IsOnce p.sending (concat rest)) Stopped r
    any rest (s, none) h = h
    any rest (s, some e) h = (concat rest, h)

    run : Outcome (IsOnce p.sending []) Stopped (
        run_batches
          (write_batch replies)
          0
          (batches p.sending)
          (record { result = p.result; sent = [] }))
    run =
        run_batches_inv (write_batch replies) (λ bs. IsOnce p.sending (concat bs)) Stopped
          (λ k b bs s h.
            any bs (write_batch replies k b s)
              (settle-IsOnce p.sending b (concat bs) (replies k) s h))
          0 (batches p.sending) _ start

    ends :
        (r : Writing × Option Error)
        → Outcome (IsOnce p.sending []) Stopped r
        → EndsOnce p.sending r
    ends (s, none) h = h
    ends (s, some e) h = h
