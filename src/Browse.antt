-- ===== src/Browse.antt =====
-- browse.go: collectItemIDs, the loop over IEnumString::Next that gathers the ItemIDs of a server.
-- The server is a function from the number of the call to what the call gives.
pub mod Wire
pub mod Complete
pub mod Progress
pub mod Objects
pub mod Release
pub mod Whole
pub mod Examples
use gopcda.Prelude.{
  ℕ, zero, suc, Bool, true, false, not, ◌&&◌, Option, none, some, List, [], ◌∷◌, ◌++◌, length, ◌==◌,
  ◌%◌, ◌^◌, if◌then◌else◌,
}
use gopcda.Prelude.Int.{ℤ}
use gopcda.Prelude.Bytes.{Bytes}
use gopcda.Prelude.Assoc.{Assoc, insert}
use gopcda.Prelude.Order.{sort, keys}
use gopcda.Errors.{Error, message, hresult_error}
use gopcda.Result.{Result, ok, err, refuse, ◌>>=◌, ◌>>◌}
use gopcda.Group.State.{Reply, failed, answered}

-- enumNextResponse without the requested count, which the loop does not read.
pub record Batch : Type 0 where
  pub values : List Bytes
  pub fetched : ℕ
  pub hresult : ℤ

-- ctx.Err() before a call, and what the call returns; the response may be nil.
pub record Turn : Type 0 where
  pub context : Option Error
  pub reply : Reply (Option Batch)

abbrev pub Seen : Type 0
Seen = Assoc (Unit {0})

abbrev pub is_code : ℕ → ℤ → Bool
is_code n (ℤ.pos m) = m == n
is_code n (ℤ.negsuc m) = false

-- What one pass of the loop does: return, or go on with the strings seen so far.
pub data Pass : Type 0 where
  return : Result (List Bytes) → Pass
  continue : Seen → Pass

-- The loop over batch.values.
unfoldable pub mark : List Bytes → Seen → Result Seen
mark [] seen = ok seen
mark ([] ∷ ids) seen = err (message "IEnumString: empty ItemID")
mark ((b ∷ r) ∷ ids) seen = mark ids (insert (b ∷ r) tt seen)

-- The two checks of a response that is not nil.
unfoldable pub check_batch : Batch → Result (Unit {0})
check_batch batch = do
  refuse (not (is_code 0 batch.hresult) && not (is_code 1 batch.hresult))
      (hresult_error "IEnumString" [] batch.hresult)
  refuse (not (batch.fetched == length batch.values % 2 ^ 32))
      (message "IEnumString: inconsistent fetched count")

unfoldable pub after_mark : Batch → Result Seen → Pass
after_mark batch (err e) = return (err e)
after_mark batch (ok seen) =
    if is_code 1 batch.hresult
    then return (ok (sort (keys seen)))
    else if batch.fetched == 0
    then return (err (message "IEnumString: enumeration made no progress"))
    else continue seen

unfoldable pub on_batch : Batch → Seen → Result (Unit {0}) → Pass
unfolding after_mark mark
on_batch batch seen (err e) = return (err e)
on_batch batch seen (ok passed) = after_mark batch (mark batch.values seen)

unfoldable pub on_reply : Reply (Option Batch) → Seen → Pass
unfolding on_batch check_batch
on_reply (failed e) seen = return (err e)
on_reply (answered none) seen = return (err (message "IEnumString: missing response"))
on_reply (answered (some batch)) seen = on_batch batch seen (check_batch batch)

-- The body of the loop.
unfoldable pub pass : Turn → Seen → Pass
unfolding on_reply
pass turn seen = elim turn.context [ some e ↦ return (err e) | none ↦ on_reply turn.reply seen ]

-- The loop in at most `fuel` passes; none while it has not returned.
unfoldable pub collect : ℕ → (ℕ → Turn) → Seen → Option (Result (List Bytes))
unfolding pass
collect zero next seen = none
collect (suc fuel) next seen = elim (pass (next 0) seen) [
  | return result ↦ some result
  | continue more ↦ collect fuel (λ i. next (suc i)) more
]

-- collectItemIDs
unfoldable pub collect_item_ids : ℕ → (ℕ → Turn) → Option (Result (List Bytes))
unfolding collect
collect_item_ids fuel next = collect fuel next []
