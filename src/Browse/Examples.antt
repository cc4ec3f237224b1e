-- ===== src/Browse/Examples.antt =====
-- The theorems on browsing at concrete inputs.
use gopcda.Prelude.{
  ℕ, suc, zero, ◌<◌, ◌≤◌, ◌≡◌, refl, ◌/◌, true, none, some, List, [], ◌∷◌, length, arith,
}
use gopcda.Prelude.Int.{ℤ}
use gopcda.Prelude.Bytes.{Bytes, bytes_eq}
use gopcda.Prelude.Assoc.{insert}
use gopcda.Prelude.Order.{contains, keys, sort, insert_sorted, bytes_lt, IsAscending}
use gopcda.Result.{Result, ok}
use gopcda.Group.State.{answered}
use gopcda.Browse.{
  Batch, Turn, mark, check_batch, after_mark, on_batch, on_reply, pass, collect, collect_item_ids,
}
use gopcda.Browse.Wire.{
  store, invalid_sizes, read_size, read_sizes, enum_next_response, read_sizes-IsBounded,
}
use gopcda.Browse.Complete.{received, Enumerated, collect_item_ids-IsAscending}
use gopcda.Browse.Progress.{enumerate, collect_item_ids-returns}
use gopcda.Browse.Objects.{
  Calls, browse_item_ids, server_browse, closing, releasing, decode_standard_reference,
}
use gopcda.Browse.Whole.{server_browse-IsWhole}

abbrev batch_of : ℕ → List Bytes → Batch
batch_of code values = record { values = values; fetched = length values; hresult = ℤ.pos code }

-- "b", "a" with S_OK, then "a", "c" with S_FALSE.
abbrev two_calls : ℕ → Turn
two_calls zero = record {
  context = none;
  reply = answered (some (batch_of 0 ((98 ∷ []) ∷ (97 ∷ []) ∷ [])));
}
two_calls (suc i) = record {
  context = none;
  reply = answered (some (batch_of 1 ((97 ∷ []) ∷ (99 ∷ []) ∷ [])));
}

abbrev abc : List Bytes
abc = (97 ∷ []) ∷ (98 ∷ []) ∷ (99 ∷ []) ∷ []

collected_abc : collect_item_ids 2 two_calls ≡ some (ok abc)
unfolding collect_item_ids collect pass on_reply on_batch check_batch after_mark mark insert keys
    sort insert_sorted bytes_lt bytes_eq
collected_abc = refl

collect_item_ids-IsAscending_example :
    IsAscending abc
    × ((n : ℕ) × (n < 2)
        × Enumerated n two_calls
        × ((id : Bytes) → contains id abc ≡ contains id (received (suc n) two_calls)))
collect_item_ids-IsAscending_example = collect_item_ids-IsAscending 2 two_calls abc collected_abc

abbrev last_batch : ℕ → Result Batch
last_batch i = ok (batch_of 1 ((97 ∷ []) ∷ []))

collect_item_ids-returns_example :
    (result : Result (List Bytes)) × (collect_item_ids 1 (enumerate (λ i. none) last_batch)
      ≡ some result)
unfolding received enumerate enum_next_response
collect_item_ids-returns_example = collect_item_ids-returns 1 (λ i. none) last_batch (omega arith)

-- Two strings of the 500 requested, 60 bytes being left.
read_sizes-IsBounded_example : (500 ≤ 500) × (◌≡◌ {A = ℕ} 0 0) × (2 ≤ 500) × (2 ≤ 60 / 4)
unfolding read_sizes read_size store invalid_sizes
read_sizes-IsBounded_example =
    read_sizes-IsBounded 500 500 0 2 72 68 60 []
      (record { requested = 500; max_count = 500; offset = 0; actual = 2; read = 3 }) refl

-- Everything succeeds, and two ItemIDs are collected.
abbrev calls : Calls
calls = record {
  begin = none;
  context = none;
  has_remote_unknown = true;
  bind_remote = none;
  remote_client = none;
  query =
      answered (record { count = 1; present = true; hresult = ℤ.pos 0; reference = some (21, 5) });
  bind_browse = none;
  browse = answered (record {
    pointer = some (
        ok (record {
          signature = 0x4d ∷ 0x45 ∷ 0x4f ∷ 0x57 ∷ [];
          flags = 1;
          iid = some 0x0000010100000000c000000000000046;
          value = some (some (record { oxid = 9; ipid = some 22; references = 5 }));
        }));
    hresult = ℤ.pos 0;
  });
  server_oxid = 9;
  bind_enum = none;
  collected = ok abc;
  close_enum = none;
  close_browse = none;
  release = λ refs. none;
  close_remote = none;
}

server_browse-IsWhole_example :
    (list : List Bytes) × (some abc ≡ some list)
    × (calls.collected ≡ ok list)
    × ((browse_item_ids calls).released ≡ (browse_item_ids calls).acquired)
    × (calls.release (browse_item_ids calls).acquired ≡ none)
    × (calls.close_remote ≡ none)
    × (calls.close_browse ≡ none)
    × (calls.close_enum ≡ none)
unfolding server_browse browse_item_ids closing releasing decode_standard_reference
server_browse-IsWhole_example = server_browse-IsWhole none calls (some abc) refl

-- Both references were handed out and released.
both_released : (browse_item_ids calls).released ≡ (21, 5) ∷ (22, 5) ∷ []
unfolding browse_item_ids closing decode_standard_reference
both_released = refl
