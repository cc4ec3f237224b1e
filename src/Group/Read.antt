-- ===== src/Group/Read.antt =====
-- Reads of registered items: readOneResponse.result (read_wire.go), batchReadResponse.results
-- (batch_wire.go), readLocked, read and readGroup (batch.go).
pub mod Observed
use gopcda.Prelude.{
  ℕ, zero, suc, ◌+◌, ◌*◌, ◌/◌, ◌^◌, Bool, true, false, not, ◌||◌, Option, none, some, List, [], ◌∷◌,
  ◌++◌, map, length, leb, ◌==◌, if◌then◌else◌,
}
use gopcda.Prelude.Int.{ℤ, sub_ℕ, to_signed, is_negative}
use gopcda.Prelude.Bytes.{Bytes}
use gopcda.Prelude.Assoc.{Assoc, lookup}
use gopcda.Errors.{Error, message, sentinel, item_not_registered, hresult_error}
use gopcda.Result.{Result, ok, err, ◌>>=◌}
use gopcda.Values.Data.{Value, WireVariant, null_variant, wire}
use gopcda.Values.Runtime.{Runtime}
use gopcda.Values.Decode.{scalar_value}
use gopcda.Group.Batches.{batches, run_batches}
use gopcda.Group.State.{RegisteredItem, PersistentGroup, Reply, failed, answered, admitted}

-- ReadResult (opcda.go)
pub record ReadResult : Type 0 where
  pub item_id : Bytes
  pub value : Value
  pub quality : ℤ
  pub timestamp_ms : ℤ
  pub error : Option Error

abbrev pub failed_read : Bytes → Error → ReadResult
failed_read id e = record {
  item_id = id;
  value = Value.nil;
  quality = ℤ.pos 0;
  timestamp_ms = ℤ.pos 0;
  error = some e;
}

-- The part of readOneResponse that comes from an OPCITEMSTATE.
pub record ItemState : Type 0 where
  pub time_low : ℕ
  pub time_high : ℕ
  pub quality : ℕ
  pub variant : WireVariant

-- batchReadResponse
pub record ReadResponse : Type 0 where
  pub states : List ItemState
  pub errors : List ℤ
  pub hresult : ℤ

-- A FILETIME in Unix milliseconds: int64(ticks/10000) - 11644473600000.
unfoldable pub unix_millis : ℕ → ℕ → ℤ
unix_millis low high = sub_ℕ ((low + high * 2 ^ 32) / 10000) 11644473600000

-- The result of an item with the value that its VARIANT holds.
unfoldable pub with_value : Bytes → ItemState → Value → ReadResult
unfolding unix_millis
with_value id s v = record {
  item_id = id;
  value = v;
  quality = to_signed (2 ^ 15) s.quality;
  timestamp_ms = unix_millis s.time_low s.time_high;
  error = none;
}

is_missing : WireVariant → Bool
is_missing null_variant = true
is_missing (wire size vt arm) = false

-- result(id) of an item whose state and HRESULT have arrived, the call's own HRESULT being good.
unfoldable pub item_result : Runtime → Bytes → ItemState → ℤ → Result ReadResult
unfolding scalar_value with_value is_missing
item_result rt id s code =
    if is_negative code
    then err (hresult_error "Read" id code)
    else if is_missing s.variant
    then err (message "Read: missing item state or VARIANT")
    else (scalar_value rt s.variant >>= λ v. ok (with_value id s v))

abbrev pub as_result : Bytes → Result ReadResult → ReadResult
as_result id (ok r) = r
as_result id (err e) = failed_read id e

-- One entry of results: a failure of the item stands in its own result.
unfoldable pub read_result : Runtime → Bytes → ItemState → ℤ → ReadResult
unfolding item_result
read_result rt id s code = as_result id (item_result rt id s code)

unfoldable pub read_results : Runtime → List Bytes → List ItemState → List ℤ → List ReadResult
unfolding read_result
read_results rt (id ∷ ids) (s ∷ states) (code ∷ codes) =
    read_result rt id s code ∷ read_results rt ids states codes
read_results rt _ _ _ = []

-- results(ids)
unfoldable pub batch_results : Runtime → List Bytes → ReadResponse → Result (List ReadResult)
unfolding read_results
batch_results rt ids r =
    if is_negative r.hresult
    then err (hresult_error "Read" [] r.hresult)
    else if not (length r.errors == length ids) || not (length r.states == length ids)
    then err (message "Read: missing result arrays")
    else ok (read_results rt ids r.states r.errors)

-- An entry of out with its entry of observed.
pub record Slot : Type 0 where
  pub result : ReadResult
  pub observed : Bool

-- An entry of known, positions and handles.
pub record Known : Type 0 where
  pub id : Bytes
  pub position : ℕ
  pub handle : ℕ

abbrev pub unregistered_slot : Bytes → Slot
unregistered_slot id = record {
  result = failed_read id (sentinel item_not_registered);
  observed = true;
}

abbrev pub waiting_slot : Bytes → Slot
waiting_slot id = record {
  result = failed_read id (sentinel item_not_registered);
  observed = false;
}

-- The first loop: the slots, and the registered items with their positions.
unfoldable pub plan_slots : Assoc RegisteredItem → List Bytes → List Slot
unfolding lookup
plan_slots items [] = []
plan_slots items (id ∷ ids) =
    (elim (lookup id items) [ none ↦ unregistered_slot id | some v ↦ waiting_slot id ])
    ∷ plan_slots items ids

unfoldable pub plan_known : Assoc RegisteredItem → ℕ → List Bytes → List Known
unfolding lookup
plan_known items i [] = []
plan_known items i (id ∷ ids) =
    let rest = plan_known items (suc i) ids in
    elim (lookup id items) [
      | none ↦ rest
      | some v ↦ record { id = id; position = i; handle = v.handle } ∷ rest
    ]

-- out[j] = v; observed[j] = true
unfoldable pub fill : ℕ → ReadResult → List Slot → List Slot
fill j v [] = []
fill zero v (x ∷ xs) = record { result = v; observed = true } ∷ xs
fill (suc j) v (x ∷ xs) = x ∷ fill j v xs

unfoldable pub fill_all : List Known → List ReadResult → List Slot → List Slot
unfolding fill
fill_all (k ∷ ks) (v ∷ vs) slots = fill_all ks vs (fill k.position v slots)
fill_all _ _ slots = slots

abbrev pub known_ids : List Known → List Bytes
known_ids = map λ k. k.id

abbrev pub take_values :
    List Known → List Slot → Result (List ReadResult) → List Slot × Option Error
take_values chunk slots (err e) = (slots, some e)
take_values chunk slots (ok values) = (fill_all chunk values slots, none)

-- One batch: what the reply says of the slots.
unfoldable pub take_reply :
    Runtime → List Known → List Slot → Reply ReadResponse → List Slot × Option Error
unfolding batch_results fill_all
take_reply rt chunk slots (failed e) = (slots, some e)
take_reply rt chunk slots (answered a) =
    take_values chunk slots (batch_results rt (known_ids chunk) a)

unfoldable pub read_batch :
    Runtime → (ℕ → Reply ReadResponse) → ℕ → List Known → List Slot → List Slot × Option Error
unfolding take_reply
read_batch rt replies n chunk slots = take_reply rt chunk slots (replies n)

-- partialResults()
unfoldable pub partial_results : List Slot → List ReadResult
partial_results [] = []
partial_results (s ∷ rest) =
    let others = partial_results rest in if s.observed then s.result ∷ others else others

abbrev pub results_of : List Slot × Option Error → List ReadResult × Option Error
results_of (slots, none) = (map (λ s. s.result) slots, none)
results_of (slots, some e) = (partial_results slots, some e)

-- readLocked
unfoldable pub read_locked :
    Runtime
    → (ℕ → Reply ReadResponse)
    → PersistentGroup
    → List Bytes
    → List ReadResult × Option Error
unfolding plan_slots plan_known read_batch run_batches partial_results
read_locked rt replies g ids = results_of (
    run_batches (read_batch rt replies) 0 (batches (plan_known g.items 0 ids))
      (plan_slots g.items ids))

-- read
unfoldable pub read :
    Runtime
    → List (ℕ × PersistentGroup)
    → ℕ
    → Option Error
    → Option Error
    → (ℕ → Reply ReadResponse)
    → List Bytes
    → List ReadResult × Option Error
unfolding admitted read_locked
read rt groups id context_error keepalive_error replies ids =
    elim (admitted groups id context_error keepalive_error) [
      | err e ↦ ([], some e)
      | ok g ↦ read_locked rt replies g ids
    ]

-- slices.SortFunc by the client handle, as an insertion sort: the handles are distinct, so that
-- there is one sorted order.
abbrev Entry : Type 0
Entry = Bytes × RegisteredItem

unfoldable pub insert_entry : Entry → List Entry → List Entry
insert_entry e [] = e ∷ []
insert_entry e (f ∷ fs) =
    let rest = insert_entry e fs in if leb e.1.client f.1.client then e ∷ f ∷ fs else f ∷ rest

unfoldable pub sort_entries : List Entry → List Entry
unfolding insert_entry
sort_entries [] = []
sort_entries (e ∷ es) = insert_entry e (sort_entries es)

unfoldable pub registration_order : Assoc RegisteredItem → List Bytes
unfolding sort_entries
registration_order items = map (λ e. e.0) (sort_entries items)

-- readGroup
unfoldable pub read_group :
    Runtime
    → List (ℕ × PersistentGroup)
    → ℕ
    → Option Error
    → Option Error
    → (ℕ → Reply ReadResponse)
    → List ReadResult × Option Error
unfolding admitted read_locked registration_order
read_group rt groups id context_error keepalive_error replies =
    elim (admitted groups id context_error keepalive_error) [
      | err e ↦ ([], some e)
      | ok g ↦ read_locked rt replies g (registration_order g.items)
    ]
