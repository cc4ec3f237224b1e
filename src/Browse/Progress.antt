-- ===== src/Browse/Progress.antt =====
-- Why collectItemIDs (browse.go) returns when it is called by browseItemIDs: the checks of
-- browse_wire.go let an S_OK through only with a full batch of 500.
use gopcda.Prelude.{
  ℕ, zero, suc, ◌*◌, ◌<◌, ◌≤◌, ◌≡◌, refl, sym, subst, ◌∙◌, true, Option, none, some, List, [],
  length, length-append, arith, Option-cases, inl, inr,
}
use gopcda.Errors.{Error}
use gopcda.Result.{Result, ok, err}
use gopcda.Group.State.{Reply, failed, answered}
use gopcda.Prelude.Bytes.{Bytes}
use gopcda.Browse.{Batch, Turn, Seen, is_code, pass, collect, collect_item_ids}
use gopcda.Browse.Wire.{enum_next_response, enum_next_response-full}
use gopcda.Browse.Complete.{
  received, reply_values, Brought, Pass-cases, Passed, pass-Passed, collect-return,
  collect-continue,
}

abbrev batch_size : ℕ
batch_size = 500

abbrev reply_of : Result Batch → Reply (Option Batch)
reply_of (err e) = failed e
reply_of (ok batch) = answered (some batch)

-- The closure that browseItemIDs passes to collectItemIDs: what the decoder gives of the response
-- is checked against the requested count; the context before each call is an argument.
unfoldable pub enumerate : (ℕ → Option Error) → (ℕ → Result Batch) → ℕ → Turn
unfolding enum_next_response
enumerate contexts decoded i = record {
  context = contexts i;
  reply = reply_of (enum_next_response batch_size (decoded i));
}

answered_injective : (b c : Batch) → answered (some b) ≡ answered (some c) → b ≡ c
answered_injective b c h = cc

reply_of-full :
    (decoded : Result Batch) (checked : Result Batch) (batch : Batch)
    → enum_next_response 500 decoded ≡ checked
    → reply_of checked ≡ answered (some batch)
    → is_code 0 batch.hresult ≡ true
    → 500 ≤ length (reply_values (reply_of checked))
reply_of-full decoded (err e) batch h r k = cc
reply_of-full decoded (ok b) batch h r k =
    enum_next_response-full 500 decoded b h
      (subst (λ c. is_code 0 c.hresult ≡ true) (sym (answered_injective b batch r)) k)

-- Every call is one of `enumerate`.
abbrev IsEnumerated : (ℕ → Turn) → Type 0
IsEnumerated next =
    (i : ℕ)
    → (decoded : Result Batch) × ((next i).reply ≡ reply_of (enum_next_response 500 decoded))

turn-full :
    (turn : Turn) (decoded : Result Batch)
    → turn.reply ≡ reply_of (enum_next_response 500 decoded)
    → Brought 0 turn
    → 500 ≤ length (reply_values turn.reply)
turn-full turn decoded e brought =
    subst (λ r. 500 ≤ length (reply_values r)) (sym e)
      (reply_of-full decoded (enum_next_response 500 decoded) (brought.0) refl (sym e ∙ brought.2)
        (brought.3))

returned_running : {r : Result (List Bytes)} → some r ≡ none → ⊥
returned_running h = cc

collect-running :
    (fuel : ℕ) (next : ℕ → Turn) (seen : Seen)
    → IsEnumerated next
    → collect fuel next seen ≡ none
    → fuel * 500 ≤ length (received fuel next)
unfolding received
collect-running zero next seen all h = omega arith
collect-running (suc fuel) next seen all h = elim (Pass-cases (pass (next 0) seen)) [
  | inl (e, p) ↦ absurd (returned_running (sym (collect-return fuel next seen (err e) p) ∙ h))
  | inr (inl (ids, p)) ↦
      absurd (returned_running (sym (collect-return fuel next seen (ok ids) p) ∙ h))
  | inr (inr (more, p)) ↦
      let went = subst (Passed (next 0) seen) p (pass-Passed (next 0) seen) in
      omega (
        arith,
        turn-full (next 0) ((all 0).0) ((all 0).1) (went.0),
        collect-running fuel (λ i. next (suc i)) more (λ i. all (suc i))
            (sym (collect-continue fuel next seen more p) ∙ h),
        length-append (reply_values (next 0).reply) (received fuel (λ i. next (suc i))),
      )
]

-- When the first calls, `fuel` of them, bring fewer than 500 ItemIDs each on average, browsing has
-- returned after at most that many calls, with a list or an error.
pub collect_item_ids-returns :
    (fuel : ℕ) (contexts : ℕ → Option Error) (decoded : ℕ → Result Batch)
    → length (received fuel (enumerate contexts decoded)) < fuel * 500
    → (result : Result (List Bytes)) × (collect_item_ids fuel (enumerate contexts decoded)
        ≡ some result)
unfolding collect_item_ids enumerate
collect_item_ids-returns fuel contexts decoded h =
    elim (Option-cases (collect fuel (enumerate contexts decoded) [])) [
      | inr found ↦ found
      | inl e ↦ absurd (
          omega (
            arith,
            h,
            collect-running fuel (enumerate contexts decoded) [] (λ i. (decoded i, refl)) e,
          ))
    ]
