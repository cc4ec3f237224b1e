-- ===== src/Group/Add.antt =====
-- addItems of batch.go: the registration of items in a group.
pub mod Identity
pub mod Honest
pub mod Planned
pub mod Handles
pub mod Registry
use gopcda.Prelude.{
  ℕ, suc, ◌+◌, ◌-◌, ◌^◌, Bool, not, ◌||◌, Option, none, some, List, [], ◌∷◌, ◌++◌, length, ◌==◌,
  if◌then◌else◌,
}
use gopcda.Prelude.Int.{ℤ, is_negative}
use gopcda.Prelude.Bytes.{Bytes}
use gopcda.Prelude.Assoc.{Assoc, lookup, insert}
use gopcda.Errors.{Error, message, hresult_error}
use gopcda.Result.{Result, ok, err}
use gopcda.Text.{validate_item_id}
use gopcda.Group.Batches.{batches, run_batches}
use gopcda.Prelude.IntMap.{put}
use gopcda.Group.State.{RegisteredItem, PersistentGroup, Reply, failed, answered, admitted}

-- Item (group.go); the handles mean something only without an error.
pub record Item : Type 0 where
  pub error : Option Error
  pub item_id : Bytes
  pub client_handle : ℕ
  pub server_handle : ℕ

-- The part of addOneResponse that a batch uses.
pub record AddedItem : Type 0 where
  pub handle : ℕ
  pub canonical : ℕ
  pub rights : ℕ

-- batchAddResponse
pub record AddResponse : Type 0 where
  pub items : List AddedItem
  pub errors : List ℤ
  pub hresult : ℤ

unfoldable pub public_item : Bytes → RegisteredItem → Item
public_item id v = record {
  error = none;
  item_id = id;
  client_handle = v.client;
  server_handle = v.handle;
}

unfoldable pub unadded : Bytes → Error → Item
unadded id e = record { error = some e; item_id = id; client_handle = 0; server_handle = 0 }

-- The locals of the first loop.
pub record Scan : Type 0 where
  pub out : List Item
  pub pending : List Bytes
  pub positions : Assoc (List ℕ)

-- The positions at which an ItemID stands; a missing key reads as the nil slice.
unfoldable pub positions_of : Bytes → Assoc (List ℕ) → List ℕ
unfolding lookup
positions_of id positions = elim (lookup id positions) [ none ↦ [] | some js ↦ js ]

-- One round of the first loop, for ids[i] = id.
unfoldable pub scan_id : PersistentGroup → ℕ → Bytes → Scan → Scan
unfolding lookup insert positions_of public_item unadded validate_item_id
scan_id g i id s = elim (validate_item_id id) [
  | some e ↦ record s { out = s.out ++ unadded id e ∷ [] }
  | none ↦ elim (lookup id g.items) [
    | some v ↦ record s { out = s.out ++ public_item id v ∷ [] }
    | none ↦ record {
      out = s.out ++ unadded id (message "item not added") ∷ [];
      pending = elim (lookup id s.positions) [ none ↦ s.pending ++ id ∷ [] | some js ↦ s.pending ];
      positions = insert id (positions_of id s.positions ++ i ∷ []) s.positions;
    }
  ]
]

unfoldable pub scan_ids : PersistentGroup → ℕ → List Bytes → Scan → Scan
unfolding scan_id
scan_ids g i [] s = s
scan_ids g i (id ∷ ids) s = scan_ids g (suc i) ids (scan_id g i id s)

-- for _, j := range js { out[j] = f(out[j]) }
unfoldable pub modify_at : ℕ → (Item → Item) → List Item → List Item
modify_at j f [] = []
modify_at ℕ.zero f (x ∷ xs) = f x ∷ xs
modify_at (suc j) f (x ∷ xs) = x ∷ modify_at j f xs

unfoldable pub modify_all : List ℕ → (Item → Item) → List Item → List Item
unfolding modify_at
modify_all [] f out = out
modify_all (j ∷ js) f out = modify_all js f (modify_at j f out)

-- The state of the second loop: the group and the results.
pub record Adding : Type 0 where
  pub group : PersistentGroup
  pub out : List Item

-- The client handles of a batch; the counter keeps what it has given out when the range ends.
unfoldable pub allocate : ℕ → ℕ → ℕ × Option (List ℕ)
allocate ℕ.zero next = (next, some [])
allocate (suc n) next =
    let (last, rest) = allocate n (suc next) in
    if next == 2 ^ 32 - 1
    then (next, none)
    else (last, elim rest [ none ↦ none | some clients ↦ some (suc next ∷ clients) ])

-- One item of an answered batch.
unfoldable pub add_result : Assoc (List ℕ) → Bytes → ℕ → AddedItem → ℤ → Adding → Adding
unfolding modify_all positions_of public_item insert
add_result positions id client added code s =
    let js = positions_of id positions in
    let v : RegisteredItem = record {
      handle = added.handle;
      client = client;
      rights = added.rights;
      canonical = added.canonical;
    } in
    if is_negative code
    then record s {
      out =
          modify_all js (λ it. record it { error = some (hresult_error "AddItems" id code) }) s.out;
    }
    else record {
      group = record s.group { items = insert id v s.group.items };
      out = modify_all js (λ _. public_item id v) s.out;
    }

unfoldable pub add_results :
    Assoc (List ℕ) → List Bytes → List ℕ → List AddedItem → List ℤ → Adding → Adding
unfolding add_result
add_results positions (id ∷ ids) (client ∷ clients) (added ∷ more) (code ∷ codes) s =
    add_results positions ids clients more codes (add_result positions id client added code s)
add_results positions _ _ _ _ s = s

-- An answered batch: the HRESULT, the lengths of the arrays, then the items.
unfoldable pub take_answer :
    Assoc (List ℕ) → List Bytes → List ℕ → Reply AddResponse → Adding → Adding × Option Error
unfolding add_results
take_answer positions chunk clients (failed e) s = (s, some e)
take_answer positions chunk clients (answered r) s =
    if is_negative r.hresult
    then (s, some (hresult_error "AddItems" [] r.hresult))
    else if not (length r.items == length chunk) || not (length r.errors == length chunk)
    then (s, some (message "AddItems: missing result arrays"))
    else (add_results positions chunk clients r.items r.errors s, none)

unfoldable pub add_batch :
    (ℕ → Reply AddResponse) → Assoc (List ℕ) → ℕ → List Bytes → Adding → Adding × Option Error
unfolding allocate take_answer
add_batch replies positions k chunk s =
    let (last, clients) = allocate (length chunk) s.group.next_client_handle in
    let s' : Adding = record s { group = record s.group { next_client_handle = last } } in
    elim clients [
      | none ↦ (s', some (message "client handle range exhausted"))
      | some cs ↦ take_answer positions chunk cs (replies k) s'
    ]

abbrev pub empty_scan : Scan
empty_scan = record { out = []; pending = []; positions = [] }

-- addItems on the group that it holds.
unfoldable pub add_locked :
    (ℕ → Reply AddResponse) → PersistentGroup → List Bytes → Adding × Option Error
unfolding scan_ids add_batch run_batches
add_locked replies g ids =
    let s = scan_ids g 0 ids empty_scan in
    run_batches (add_batch replies s.positions) 0 (batches s.pending)
      (record { group = g; out = s.out })

-- addItems: the groups after the call, the items and the error.
unfoldable pub add_items :
    List (ℕ × PersistentGroup)
    → ℕ
    → Option Error
    → Option Error
    → (ℕ → Reply AddResponse)
    → List Bytes
    → List (ℕ × PersistentGroup) × List Item × Option Error
unfolding admitted add_locked put
add_items groups id context_error keepalive_error replies ids =
    elim (admitted groups id context_error keepalive_error) [
      | err e ↦ (groups, [], some e)
      | ok g ↦ let (s, e) = add_locked replies g ids in (put id s.group groups, s.out, e)
    ]
