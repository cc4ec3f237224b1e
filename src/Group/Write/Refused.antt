-- ===== src/Group/Write/Refused.antt =====
-- The items that write (batch.go) does not send: unregistered ones, and values that cannot be
-- encoded.
use gopcda.Prelude.{
  ℕ, ◌≡◌, refl, ◌∙◌, inl, inr, false, Option, none, some, List, [], ◌∷◌, ◌++◌, arith, All,
}
use gopcda.Prelude.Bytes.{Bytes, bytes_eq, bytes_eq_refl}
use gopcda.Prelude.Assoc.{Assoc, lookup, lookup-insert}
use gopcda.Errors.{Error, sentinel, joined, write_not_attempted}
use gopcda.Result.{Result, Result-cases, ok, err}
use gopcda.Values.Data.{Value}
use gopcda.Values.Runtime.{Runtime}
use gopcda.Group.Batches.{batches, batches-cover, concat, run_batches, run_batches_inv, Outcome}
use gopcda.Group.State.{RegisteredItem, PersistentGroup, Reply}
use gopcda.Group.Write.{
  WriteResponse, Outcomes, Sending, WritePlan, Writing, sort_keys, prepare, plan_write, plan_writes,
  write_batch, write_locked, empty_plan,
}
use gopcda.Group.Write.Keys.{
  IsNewKey, DistinctKeys, bytes_eq_symm, DistinctKeys-sort_keys, All-sort_keys,
}
use gopcda.Group.Write.Once.{WasSent, WasSent-left, lookup-insert_other, settle-other}

pub prepare-id :
    (rt : Runtime) (items : Assoc RegisteredItem) (id : Bytes) (value : Value) (x : Sending)
    → prepare rt items id value ≡ ok x
    → x.id ≡ id
unfolding prepare
prepare-id rt items id value x h = ground arith

-- What becomes of an item: with an error of its own it is not attempted, and its outcome is
-- ErrWriteNotAttempted joined with that error; otherwise the plan names it.
abbrev pub Treats : Result Sending → Bytes → List Sending → Outcomes → Type 0
Treats (err e) id all result =
    lookup id result ≡ some (some (joined (sentinel write_not_attempted) e))
Treats (ok x) id all result = WasSent id all

-- None of the items is this one.
abbrev pub IsAbsent : Bytes → List Sending → Type 0
IsAbsent k = All λ x. bytes_eq x.id k ≡ false

IsAbsent-append :
    (k : Bytes) (xs ys : List Sending) → IsAbsent k xs → IsAbsent k ys → IsAbsent k (xs ++ ys)
IsAbsent-append k [] ys h a = a
IsAbsent-append k (x ∷ xs) ys h a = (h.0, IsAbsent-append k xs ys (h.1) a)

-- A round for another key leaves the item alone.
record IsKept (k : Bytes) (p q : WritePlan) : Type 0 where
  outcome : lookup k q.result ≡ lookup k p.result
  sent : WasSent k p.sending → WasSent k q.sending
  absent : IsAbsent k p.sending → IsAbsent k q.sending

plan_write-IsKept :
    (rt : Runtime) (items : Assoc RegisteredItem) (id : Bytes) (value : Value) (k : Bytes)
    (p : WritePlan)
    → bytes_eq k id ≡ false
    → IsKept k p (plan_write rt items id value p)
unfolding plan_write
plan_write-IsKept rt items id value k p other =
    let apart = bytes_eq_symm k id other in
    elim (Result-cases (prepare rt items id value)) [
      | inl (e, bad) ↦
          rw (bad, plan_write)
            (record {
              outcome = lookup-insert_other id k _ p.result apart;
              sent = λ h. h;
              absent = λ h. h;
            })
      | inr (x, good) ↦
          rw (good, plan_write)
            (record {
              outcome = lookup-insert_other id k _ p.result apart;
              sent = λ h. WasSent-left k p.sending (x ∷ []) h;
              absent = λ h.
                  IsAbsent-append k p.sending (x ∷ []) h
                    (rw (prepare-id rt items id value x good) apart, tt);
            })
    ]

plan_writes-IsKept :
    (rt : Runtime) (items : Assoc RegisteredItem) (values : Assoc Value) (k : Bytes) (p : WritePlan)
    → IsNewKey k values
    → IsKept k p (plan_writes rt items values p)
unfolding plan_writes
plan_writes-IsKept rt items [] k p n = record { outcome = refl; sent = λ h. h; absent = λ h. h }
plan_writes-IsKept rt items ((id, value) ∷ rest) k p n =
    let one = plan_write-IsKept rt items id value k p (n.0) in
    let more = plan_writes-IsKept rt items rest k (plan_write rt items id value p) (n.1) in
    record {
      outcome = more.outcome ∙ one.outcome;
      sent = λ h. more.sent (one.sent h);
      absent = λ h. more.absent (one.absent h);
    }

-- An item that is refused is not in the plan either.
abbrev Plans : Result Sending → Bytes → WritePlan → Type 0
Plans (err e) id p = Treats (err e) id p.sending p.result × IsAbsent id p.sending
Plans (ok x) id p = WasSent id p.sending

WasSent-last :
    (id : Bytes) (xs : List Sending) (x : Sending) → x.id ≡ id → WasSent id (xs ++ x ∷ [])
WasSent-last id [] x e = inl e
WasSent-last id (y ∷ ys) x e = inr (WasSent-last id ys x e)

Plans-IsKept :
    (r : Result Sending) (id : Bytes) (p q : WritePlan)
    → IsKept id p q
    → Plans r id p
    → Plans r id q
Plans-IsKept (err e) id p q kept h = (kept.outcome ∙ h.0, kept.absent (h.1))
Plans-IsKept (ok x) id p q kept h = kept.sent h

plan_write-Plans :
    (rt : Runtime) (items : Assoc RegisteredItem) (id : Bytes) (value : Value) (p : WritePlan)
    → IsAbsent id p.sending
    → Plans (prepare rt items id value) id (plan_write rt items id value p)
unfolding plan_write
plan_write-Plans rt items id value p absent = elim (Result-cases (prepare rt items id value)) [
  | inl (e, bad) ↦
      rw (bad, plan_write) (lookup-insert id id _ p.result ∙ rw (bytes_eq_refl id), absent)
  | inr (x, good) ↦
      rw (good, plan_write) (WasSent-last id p.sending x (prepare-id rt items id value x good))
]

pub plan_writes-Plans :
    (rt : Runtime) (items : Assoc RegisteredItem) (values : Assoc Value) (p : WritePlan)
    → DistinctKeys values
    → All (λ e. IsAbsent e.0 p.sending) values
    → All (λ e. Plans (prepare rt items e.0 e.1) e.0 (plan_writes rt items values p)) values
unfolding plan_writes
plan_writes-Plans rt items [] p d a = tt
plan_writes-Plans rt items ((id, value) ∷ rest) p d a =
    let q = plan_write rt items id value p in
    (
      Plans-IsKept (prepare rt items id value) id q (plan_writes rt items rest q)
          (plan_writes-IsKept rt items rest id q (d.0))
          (plan_write-Plans rt items id value p (a.0)),
      plan_writes-Plans rt items rest q (d.1) (still_absent rest (d.0) (a.1)),
    )
  where
    still_absent :
        (more : Assoc Value)
        → IsNewKey id more
        → All (λ e. IsAbsent e.0 p.sending) more
        → All (λ e. IsAbsent e.0 (plan_write rt items id value p).sending) more
    still_absent [] n h = tt
    still_absent (e ∷ es) n h = (
      (plan_write-IsKept rt items id value e.0 p (bytes_eq_symm id e.0 (n.0))).absent (h.0),
      still_absent es (n.1) (h.1),
    )

IsAbsent-split :
    (k : Bytes) (xs ys : List Sending) → IsAbsent k (xs ++ ys) → IsAbsent k xs × IsAbsent k ys
IsAbsent-split k [] ys h = (tt, h)
IsAbsent-split k (x ∷ xs) ys h = let both = IsAbsent-split k xs ys (h.1) in ((h.0, both.0), both.1)

-- The batches leave the outcome of an item that the plan does not name.
outcome_stays :
    (replies : ℕ → Reply WriteResponse) (k : Bytes) (v : Option (Option Error))
    (bs : List (List Sending)) (s : Writing)
    → IsAbsent k (concat bs)
    → lookup k s.result ≡ v
    → Outcome
        (λ t. lookup k t.result ≡ v)
        (λ e t. lookup k t.result ≡ v)
        (run_batches (write_batch replies) 0 bs s)
unfolding write_batch
outcome_stays replies k v bs s absent before = forget (run_batches (write_batch replies) 0 bs s) (
    run_batches_inv (write_batch replies) (λ cs t. IsAbsent k (concat cs) × (lookup k t.result ≡ v))
      (λ e t. lookup k t.result ≡ v)
      (λ n b cs t h.
        let both = IsAbsent-split k b (concat cs) (h.0) in
        settled cs (write_batch replies n b t) (both.1)
          (settle-other (replies n) b t k (both.0) ∙ h.1))
      0 bs s (absent, before))
  where
    settled :
        (cs : List (List Sending)) (r : Writing × Option Error)
        → IsAbsent k (concat cs)
        → lookup k r.0.result ≡ v
        → Outcome
            (λ t. IsAbsent k (concat cs) × (lookup k t.result ≡ v))
            (λ e t. lookup k t.result ≡ v)
            r
    settled cs (t, none) a h = (a, h)
    settled cs (t, some e) a h = h

    forget :
        (r : Writing × Option Error)
        → Outcome
            (λ t. IsAbsent k (concat []) × (lookup k t.result ≡ v))
            (λ e t. lookup k t.result ≡ v)
            r
        → Outcome (λ t. lookup k t.result ≡ v) (λ e t. lookup k t.result ≡ v) r
    forget (t, none) h = h.1
    forget (t, some e) h = h

stays :
    (k : Bytes) (v : Option (Option Error)) (r : Writing × Option Error)
    → Outcome (λ t. lookup k t.result ≡ v) (λ e t. lookup k t.result ≡ v) r
    → lookup k r.0.result ≡ v
stays k v (t, none) h = h
stays k v (t, some e) h = h

module _ (rt : Runtime) (replies : ℕ → Reply WriteResponse) (g : PersistentGroup)
    (values : Assoc Value) where
  abbrev the_plan : WritePlan
  the_plan = plan_writes rt g.items (sort_keys values) empty_plan

  Treats-run :
      (r : Result Sending) (id : Bytes)
      → Plans r id the_plan
      → Treats r id the_plan.sending (write_locked rt replies g values).0.result
  unfolding write_locked
  Treats-run (err e) id h = stays id _ (write_locked rt replies g values) (
      outcome_stays replies id _ (batches the_plan.sending)
        (record { result = the_plan.result; sent = [] })
        (rw (batches-cover the_plan.sending).0 (h.1)) (h.0))
  Treats-run (ok x) id h = h

  Treats-entries :
      (entries : Assoc Value)
      → All (λ e. Plans (prepare rt g.items e.0 e.1) e.0 the_plan) entries
      → All
          (λ e.
            Treats
              (prepare rt g.items e.0 e.1)
              e.0
              the_plan.sending
              (write_locked rt replies g values).0.result)
          entries
  Treats-entries [] h = tt
  Treats-entries (e ∷ es) h =
      (Treats-run (prepare rt g.items e.0 e.1) e.0 (h.0), Treats-entries es (h.1))

none_planned : (values : Assoc Value) → All (λ e. IsAbsent e.0 empty_plan.sending) values
none_planned [] = tt
none_planned (e ∷ es) = (tt, none_planned es)

pub write_locked-Treats :
    (rt : Runtime) (replies : ℕ → Reply WriteResponse) (g : PersistentGroup) (values : Assoc Value)
    → DistinctKeys values
    → All
        (λ e.
          Treats
            (prepare rt g.items e.0 e.1)
            e.0
            (plan_writes rt g.items (sort_keys values) empty_plan).sending
            (write_locked rt replies g values).0.result)
        values
write_locked-Treats rt replies g values d = All-sort_keys _ values (
    Treats-entries rt replies g values (sort_keys values) (
      plan_writes-Plans rt g.items (sort_keys values) empty_plan (DistinctKeys-sort_keys values d)
        (none_planned (sort_keys values))))
