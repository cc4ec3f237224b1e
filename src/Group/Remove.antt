-- ===== src/Group/Remove.antt =====
-- remove.go: removeItems and removalErrors.
pub mod Ids
pub mod Planned
pub mod Confirmed
use gopcda.Prelude.{
  ℕ, suc, not, ◌||◌, Option, none, some, List, [], ◌∷◌, ◌++◌, map, length, ◌==◌, if◌then◌else◌,
}
use gopcda.Prelude.Int.{ℤ, is_negative}
use gopcda.Prelude.Bytes.{Bytes}
use gopcda.Prelude.Assoc.{Assoc, lookup, insert, delete}
use gopcda.Errors.{Error, message, wrapped, hresult_error}
use gopcda.Result.{ok, err}
use gopcda.Group.Batches.{max_batch_items, batches, run_batches, concat}
use gopcda.Prelude.IntMap.{put}
use gopcda.Group.State.{PersistentGroup, Reply, failed, answered, admitted}

-- batchRemoveResponse
pub record RemoveResponse : Type 0 where
  pub errors : List ℤ
  pub hresult : ℤ

abbrev pub Removals : Type 0
Removals = Assoc (Option Error)

-- removalErrors
unfoldable pub removal_errors : List Bytes → Error → Removals → Removals
unfolding insert
removal_errors [] cause out = out
removal_errors (id ∷ ids) cause out = removal_errors ids cause (insert id (some cause) out)

-- The locals of the first loop.
pub record RemovePlan : Type 0 where
  pub out : Removals
  pub pending : List Bytes

unfoldable pub plan_removal : PersistentGroup → Bytes → RemovePlan → RemovePlan
unfolding lookup insert
plan_removal g id p = elim (lookup id p.out) [
  | some e ↦ p
  | none ↦ record {
    out = insert id none p.out;
    pending = elim (lookup id g.items) [ none ↦ p.pending | some v ↦ p.pending ++ id ∷ [] ];
  }
]

unfoldable pub plan_removals : PersistentGroup → List Bytes → RemovePlan → RemovePlan
unfolding plan_removal
plan_removals g [] p = p
plan_removals g (id ∷ ids) p = plan_removals g ids (plan_removal g id p)

-- The state of the second loop: the group, the results, and pending[start:].
pub record Removing : Type 0 where
  pub group : PersistentGroup
  pub out : Removals
  pub left : List Bytes

-- The batch's error, if it has one: Invoke, the HRESULT, then the length of the array.
unfoldable pub removal_error : Reply RemoveResponse → ℕ → Option Error
removal_error (failed e) count = some e
removal_error (answered r) count =
    if is_negative r.hresult
    then some (hresult_error "RemoveItems" [] r.hresult)
    else if not (length r.errors == count)
    then some (message "RemoveItems: missing result array")
    else none

-- for _, id := range pending[start:] { out[id] = ... }
unfoldable pub unconfirmed : List Bytes → Error → Removals → Removals
unfolding insert
unconfirmed [] e out = out
unconfirmed (id ∷ ids) e out =
    unconfirmed ids e (insert id (some (wrapped "removal not confirmed" e)) out)

-- The items of an answered batch; what an error leaves registered stays.
unfoldable pub confirm : List Bytes → List ℤ → Removing → Removing
unfolding insert delete
confirm (id ∷ ids) (code ∷ codes) s = confirm ids codes (
    if is_negative code
    then record s { out = insert id (some (hresult_error "RemoveItems" id code)) s.out }
    else record s {
      group = record s.group { items = delete id s.group.items };
      out = insert id none s.out;
    })
confirm _ _ s = s

abbrev pub codes_of : Reply RemoveResponse → List ℤ
codes_of (failed e) = []
codes_of (answered r) = r.errors

abbrev pub after : List Bytes → List Bytes → List Bytes
after [] xs = xs
after (c ∷ cs) [] = []
after (c ∷ cs) (x ∷ xs) = after cs xs

unfoldable pub remove_batch :
    (ℕ → Reply RemoveResponse) → ℕ → List Bytes → Removing → Removing × Option Error
unfolding removal_error unconfirmed confirm
remove_batch replies k chunk s = elim (removal_error (replies k) (length chunk)) [
  | some e ↦ (record s { out = unconfirmed s.left e s.out }, some e)
  | none ↦ (confirm chunk (codes_of (replies k)) (record s { left = after chunk s.left }), none)
]

abbrev pub empty_removal : RemovePlan
empty_removal = record { out = []; pending = [] }

unfoldable pub remove_locked :
    (ℕ → Reply RemoveResponse) → PersistentGroup → List Bytes → Removing × Option Error
unfolding plan_removals remove_batch run_batches
remove_locked replies g ids =
    let p = plan_removals g ids empty_removal in
    run_batches (remove_batch replies) 0 (batches p.pending)
      (record { group = g; out = p.out; left = p.pending })

-- removeItems: the groups after the call, the results and the error.
unfoldable pub remove_items :
    List (ℕ × PersistentGroup)
    → ℕ
    → Option Error
    → Option Error
    → (ℕ → Reply RemoveResponse)
    → List Bytes
    → List (ℕ × PersistentGroup) × Removals × Option Error
unfolding admitted remove_locked put removal_errors
remove_items groups id context_error keepalive_error replies ids =
    elim (admitted groups id context_error keepalive_error) [
      | err e ↦ (groups, removal_errors ids e [], some e)
      | ok g ↦ let (s, e) = remove_locked replies g ids in (put id s.group groups, s.out, e)
    ]
