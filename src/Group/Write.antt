-- ===== src/Group/Write.antt =====
-- write of batch.go, and the response checks of batchWriteResponse.
pub mod Coverage
pub mod Keys
pub mod Refused
pub mod Sent
pub mod Once
use gopcda.Prelude.{
  ℕ, suc, Bool, true, false, not, Option, none, some, List, [], ◌∷◌, ◌++◌, map, length, ltb, ◌==◌,
  if◌then◌else◌,
}
use gopcda.Prelude.Int.{ℤ, is_negative}
use gopcda.Prelude.Bytes.{Bytes}
use gopcda.Prelude.Assoc.{Assoc, lookup, insert}
use gopcda.Errors.{
  Error, message, sentinel, joined, write_not_attempted, item_not_registered, hresult_error,
  unknown_write, unattempted_writes,
}
use gopcda.Result.{Result, ok, err, ◌>>=◌}
use gopcda.Values.Data.{Value, WireVariant}
use gopcda.Values.Runtime.{Runtime}
use gopcda.Values.Encode.{write_variant}
use gopcda.Group.Batches.{batches, run_batches}
use gopcda.Group.State.{RegisteredItem, PersistentGroup, Reply, failed, answered, admitted}

-- batchWriteResponse
pub record WriteResponse : Type 0 where
  pub errors : List ℤ
  pub hresult : ℤ

-- map[string]error: a nil error is an acknowledged write.
abbrev pub Outcomes : Type 0
Outcomes = Assoc (Option Error)

-- An entry of known, handles and variants.
pub record Sending : Type 0 where
  pub id : Bytes
  pub handle : ℕ
  pub variant : WireVariant

-- The locals of the first loop.
pub record WritePlan : Type 0 where
  pub result : Outcomes
  pub sending : List Sending

-- a < b for strings, by bytes.
unfoldable pub bytes_before : Bytes → Bytes → Bool
bytes_before [] [] = false
bytes_before [] (y ∷ ys) = true
bytes_before (x ∷ xs) [] = false
bytes_before (x ∷ xs) (y ∷ ys) =
    if ltb x y then true else if ltb y x then false else bytes_before xs ys

-- slices.Sort over the keys of the map, with their values.
unfoldable pub insert_key {ℓ} : {V : Type ℓ} → Bytes × V → Assoc V → Assoc V
unfolding bytes_before
insert_key e [] = e ∷ []
insert_key e (f ∷ fs) =
    let rest = insert_key e fs in if bytes_before f.0 e.0 then f ∷ rest else e ∷ f ∷ fs

unfoldable pub sort_keys {ℓ} : {V : Type ℓ} → Assoc V → Assoc V
unfolding insert_key
sort_keys [] = []
sort_keys (e ∷ es) = insert_key e (sort_keys es)

-- A registered item whose value can be encoded is sent; the error is joined below.
unfoldable pub prepare : Runtime → Assoc RegisteredItem → Bytes → Value → Result Sending
unfolding lookup write_variant
prepare rt items id value = elim (lookup id items) [
  | none ↦ err (sentinel item_not_registered)
  | some v ↦ write_variant rt value >>= λ variant.
      ok (record { id = id; handle = v.handle; variant = variant })
]

-- One round of the first loop.
unfoldable pub plan_write : Runtime → Assoc RegisteredItem → Bytes → Value → WritePlan → WritePlan
unfolding prepare insert
plan_write rt items id value p = elim (prepare rt items id value) [
  | err e ↦ record p {
    result = insert id (some (joined (sentinel write_not_attempted) e)) p.result;
  }
  | ok x ↦ record {
    result = insert id (some (sentinel write_not_attempted)) p.result;
    sending = p.sending ++ x ∷ [];
  }
]

unfoldable pub plan_writes : Runtime → Assoc RegisteredItem → Assoc Value → WritePlan → WritePlan
unfolding plan_write
plan_writes rt items [] p = p
plan_writes rt items ((id, value) ∷ rest) p =
    plan_writes rt items rest (plan_write rt items id value p)

-- for _, id := range known[start:end] { result[id] = e }
unfoldable pub mark_all : List Sending → Error → Outcomes → Outcomes
unfolding insert
mark_all [] e result = result
mark_all (x ∷ xs) e result = mark_all xs e (insert x.id (some e) result)

abbrev item_outcome : Bytes → ℤ → Option Error
item_outcome id code = if is_negative code then some (hresult_error "Write" id code) else none

unfoldable pub mark_results : List Sending → List ℤ → Outcomes → Outcomes
unfolding insert
mark_results (x ∷ xs) (code ∷ codes) result =
    mark_results xs codes (insert x.id (item_outcome x.id code) result)
mark_results _ _ result = result

-- The state of the second loop: the outcomes, and what has been sent so far.
pub record Writing : Type 0 where
  pub result : Outcomes
  pub sent : List Sending

-- The outcome of a batch that was sent and gave the reply.
unfoldable pub settle : Reply WriteResponse → List Sending → Writing → Writing × Option Error
unfolding mark_all mark_results
settle (failed e) chunk s = (
  record { result = mark_all chunk (unknown_write e) s.result; sent = s.sent ++ chunk },
  some (unknown_write e),
)
settle (answered r) chunk s =
    if is_negative r.hresult
    then (
      record {
        result = mark_all chunk (hresult_error "Write" [] r.hresult) s.result;
        sent = s.sent ++ chunk;
      },
      some (hresult_error "Write" [] r.hresult),
    )
    else if not (length r.errors == length chunk)
    then (
      record {
        result = mark_all chunk (unknown_write (message "Write: missing item results")) s.result;
        sent = s.sent ++ chunk;
      },
      some (unknown_write (message "Write: missing item results")),
    )
    else (record { result = mark_results chunk r.errors s.result; sent = s.sent ++ chunk }, none)

unfoldable pub write_batch :
    (ℕ → Reply WriteResponse) → ℕ → List Sending → Writing → Writing × Option Error
unfolding settle
write_batch replies k chunk s = settle (replies k) chunk s

abbrev pub empty_plan : WritePlan
empty_plan = record { result = []; sending = [] }

-- write on the group that it holds: the outcomes, what was sent, and the operation's error.
unfoldable pub write_locked :
    Runtime → (ℕ → Reply WriteResponse) → PersistentGroup → Assoc Value → Writing × Option Error
unfolding plan_writes sort_keys write_batch run_batches
write_locked rt replies g values =
    let p = plan_writes rt g.items (sort_keys values) empty_plan in
    run_batches (write_batch replies) 0 (batches p.sending)
      (record { result = p.result; sent = [] })

unfoldable pub write :
    Runtime
    → List (ℕ × PersistentGroup)
    → ℕ
    → Option Error
    → Option Error
    → (ℕ → Reply WriteResponse)
    → Assoc Value
    → Writing × Option Error
unfolding admitted write_locked unattempted_writes
write rt groups id context_error keepalive_error replies values =
    elim (admitted groups id context_error keepalive_error) [
      | err e ↦ (record { result = unattempted_writes values e; sent = [] }, some e)
      | ok g ↦ write_locked rt replies g values
    ]
