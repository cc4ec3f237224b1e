-- ===== src/Browse/Whole.antt =====
-- What a list of ItemIDs says that Server.BrowseItemIDs (browse.go) returns without an error.
use gopcda.Prelude.{
  String, ◌≡◌, refl, sym, ap, ◌∙◌, inl, inr, ℕ, not, ◌||◌, Option, none, some, List, [], ◌∷◌, ◌==◌,
  Bool-cases, Option-cases,
}
use gopcda.Prelude.Bytes.{Bytes}
use gopcda.Errors.{Error, join}
use gopcda.Result.{Result, ok, err}
use gopcda.Group.State.{Reply, failed, answered}
use gopcda.Browse.{is_code}
use gopcda.Browse.Objects.{
  in_text, returned, answer, enum_string_iid, Reference, QueryAnswer, BrowseResponse, Calls,
  Outcome, closing, releasing, acquiring, on_enumerator, on_reference, on_browse, on_interface,
  on_query, on_remote, browse_item_ids, server_browse, decode_standard_reference,
}
use gopcda.Browse.Release.{IsReleased, browse_item_ids-IsReleased}

some_none {ℓ} : {A : Type ℓ} {B : Type 0} {a : A} → some a ≡ none → B
some_none h = cc

join-none : (a b : Option Error) → join a b ≡ none → (a ≡ none) × (b ≡ none)
join-none none b h = (refl, h)
join-none (some e) none h = some_none h
join-none (some e) (some f) h = some_none h

in_text-none : (text : String) (e : Option Error) → in_text text e ≡ none → e ≡ none
in_text-none text none h = refl
in_text-none text (some e) h = some_none h

-- An outcome without an error has the collected ItemIDs, and `Q` holds of what it released.
abbrev IsWhole : Calls → (List Reference → Type 0) → Outcome → Type 0
IsWhole x Q o =
    o.error ≡ none → (ids : List Bytes) × (o.ids ≡ some ids) × (x.collected ≡ ok ids) × Q o.released

closing-IsWhole :
    (x : Calls) (Q : List Reference → Type 0) (c : Option Error) (o : Outcome)
    → IsWhole x Q o
    → IsWhole x (λ rs. (c ≡ none) × Q rs) (closing c o)
unfolding closing
closing-IsWhole x Q c o whole h =
    let both = join-none o.error c h in let w = whole (both.0) in (w.0, w.1, w.2, (both.1, w.3))

acquiring-IsWhole :
    (x : Calls) (Q : List Reference → Type 0) (refs : List Reference) (o : Outcome)
    → IsWhole x Q o
    → IsWhole x Q (acquiring refs o)
unfolding acquiring
acquiring-IsWhole x Q refs o whole = whole

returned-IsWhole :
    (x : Calls) (collected : Result (List Bytes)) (refs : List Reference)
    → x.collected ≡ collected
    → IsWhole x (λ rs. Unit {0}) (returned collected refs)
returned-IsWhole x (err e) refs c h = some_none h
returned-IsWhole x (ok ids) refs c h = (ids, refl, c, tt)

abbrev Enumerated : Calls → Type 0
Enumerated x = (x.close_enum ≡ none) × Unit {0}

abbrev Browsed : Calls → Type 0
Browsed x = (x.close_browse ≡ none) × Enumerated x

on_enumerator-IsWhole :
    (x : Calls) (refs : List Reference) → IsWhole x (λ rs. Enumerated x) (on_enumerator x refs)
unfolding on_enumerator
on_enumerator-IsWhole x refs = elim (Option-cases x.bind_enum) [
  | inr (e, h) ↦ rw (h, on_enumerator) (λ h. some_none h)
  | inl h ↦
      rw (h, on_enumerator)
        (closing-IsWhole x (λ rs. Unit {0}) x.close_enum (returned x.collected refs)
          (returned-IsWhole x x.collected refs refl))
]

on_reference-IsWhole :
    (x : Calls) (q : Reference) (r : Result (Reference × ℕ))
    → IsWhole x (λ rs. Enumerated x) (on_reference x q r)
unfolding on_reference
on_reference-IsWhole x q (err e) = λ h. some_none h
on_reference-IsWhole x q (ok (r, oxid)) = elim (Bool-cases (oxid == x.server_oxid)) [
  | inl h ↦
      rw (h, on_reference)
        (acquiring-IsWhole x (λ rs. Enumerated x) (r ∷ []) (on_enumerator x (q ∷ r ∷ []))
          (on_enumerator-IsWhole x (q ∷ r ∷ [])))
  | inr h ↦ rw (h, on_reference) (λ h. some_none h)
]

on_browse-IsWhole :
    (x : Calls) (q : Reference) (r : Reply BrowseResponse)
    → IsWhole x (λ rs. Enumerated x) (on_browse x q r)
unfolding on_browse
on_browse-IsWhole x q (failed e) = λ h. some_none h
on_browse-IsWhole x q (answered r) = elim (Bool-cases (is_code 0 r.hresult)) [
  | inl h ↦
      rw (h, on_browse)
        (on_reference-IsWhole x q (decode_standard_reference r.pointer enum_string_iid))
  | inr h ↦ rw (h, on_browse) (λ h. some_none h)
]

on_interface-IsWhole : (x : Calls) (q : Reference) → IsWhole x (λ rs. Browsed x) (on_interface x q)
unfolding on_interface
on_interface-IsWhole x q = elim (Option-cases x.bind_browse) [
  | inr (e, h) ↦ rw (h, on_interface) (λ h. some_none h)
  | inl h ↦
      rw (h, on_interface)
        (closing-IsWhole x (λ rs. Enumerated x) x.close_browse (on_browse x q x.browse)
          (on_browse-IsWhole x q x.browse))
]

-- The references were released without an error.
abbrev Released : Calls → List Reference → Type 0
Released x refs = (x.release refs ≡ none) × Browsed x

releasing-IsWhole :
    (x : Calls) (o : Outcome)
    → IsWhole x (λ rs. Browsed x) o
    → IsWhole x (Released x) (releasing x.release o)
unfolding releasing
releasing-IsWhole x o whole h =
    let both = join-none o.error (in_text "release browse references" (x.release o.refs)) h in
    let w = whole (both.0) in
    let released = in_text-none "release browse references" (x.release o.refs) (both.1) in
    (w.0, rw released (w.1), w.2, (released, w.3))

on_query-IsWhole : (x : Calls) (r : Reply QueryAnswer) → IsWhole x (Released x) (on_query x r)
unfolding on_query
on_query-IsWhole x (failed e) = λ h. some_none h
on_query-IsWhole x (answered a) = elim (Bool-cases (not (a.count == 1) || not a.present)) [
  | inl h ↦ rw (h, on_query) (λ h. some_none h)
  | inr h ↦ elim (Bool-cases (is_code 0 a.hresult)) [
    | inr k ↦ rw (h, k, on_query) (λ h. some_none h)
    | inl k ↦ elim (Option-cases a.reference) [
      | inl l ↦ rw (h, k, l, on_query) (λ h. some_none h)
      | inr (q, l) ↦
          rw (h, k, l, on_query)
            (acquiring-IsWhole x (Released x) (q ∷ []) (releasing x.release (on_interface x q))
              (releasing-IsWhole x (on_interface x q) (on_interface-IsWhole x q)))
    ]
  ]
]

on_remote-IsWhole : (x : Calls) → IsWhole x (Released x) (on_remote x)
unfolding on_remote
on_remote-IsWhole x = elim (Option-cases x.remote_client) [
  | inr (e, h) ↦ rw (h, on_remote) (λ h. some_none h)
  | inl h ↦ rw (h, on_remote) (on_query-IsWhole x x.query)
]

abbrev Closed : Calls → List Reference → Type 0
Closed x refs = (x.close_remote ≡ none) × Released x refs

browse_item_ids-IsWhole : (x : Calls) → IsWhole x (Closed x) (browse_item_ids x)
unfolding browse_item_ids
browse_item_ids-IsWhole x = elim (Option-cases x.begin) [
  | inr (e, h) ↦ rw (h, browse_item_ids) (λ h. some_none h)
  | inl h ↦ elim (Option-cases x.context) [
    | inr (e, k) ↦ rw (h, k, browse_item_ids) (λ h. some_none h)
    | inl k ↦ elim (Bool-cases x.has_remote_unknown) [
      | inr l ↦ rw (h, k, l, browse_item_ids) (λ h. some_none h)
      | inl l ↦ elim (Option-cases x.bind_remote) [
        | inr (e, m) ↦ rw (h, k, l, m, browse_item_ids) (λ h. some_none h)
        | inl m ↦
            rw (h, k, l, m, browse_item_ids)
              (closing-IsWhole x (Released x) x.close_remote (on_remote x) (on_remote-IsWhole x))
      ]
    ]
  ]
]

err_ok : {e : Error} {ids : Option (List Bytes)} → err e ≡ ok ids → ⊥
err_ok h = cc

ok_injective : (a b : Option (List Bytes)) → ok a ≡ ok b → a ≡ b
ok_injective a b h = cc

answer-ok :
    (o : Outcome) (ids : Option (List Bytes)) → answer o ≡ ok ids → (o.error ≡ none) × (o.ids ≡ ids)
answer-ok o ids h = elim (Option-cases o.error) [
  | inr (e, k) ↦ absurd (err_ok (rw k at h))
  | inl k ↦ (k, ok_injective o.ids ids (rw k at h))
]

all_released : (o : Outcome) → IsReleased o → o.error ≡ none → o.released ≡ o.acquired
all_released o (inl h) n = h
all_released o (inr (q, r, e, h, k, f)) n = some_none (sym f ∙ n)

-- When Server.BrowseItemIDs returns without an error, it returns the list that collectItemIDs
-- collected; the references that it asked the server to release are exactly those that the server's
-- answers handed to it, and their release and the closing of all three connections were without an
-- error.
pub server_browse-IsWhole :
    (closed : Option Error) (x : Calls) (ids : Option (List Bytes))
    → server_browse closed x ≡ ok ids
    → (list : List Bytes) × (ids ≡ some list)
      × (x.collected ≡ ok list)
      × ((browse_item_ids x).released ≡ (browse_item_ids x).acquired)
      × (x.release (browse_item_ids x).acquired ≡ none)
      × (x.close_remote ≡ none)
      × (x.close_browse ≡ none)
      × (x.close_enum ≡ none)
unfolding server_browse
server_browse-IsWhole (some e) x ids h = cc
server_browse-IsWhole none x ids h =
    let said = answer-ok (browse_item_ids x) ids h in
    let whole = browse_item_ids-IsWhole x (said.0) in
    let all = all_released (browse_item_ids x) (browse_item_ids-IsReleased x) (said.0) in
    (
      whole.0,
      sym (said.1) ∙ whole.1,
      whole.2,
      all,
      ap x.release (sym all) ∙ whole.3.1.0,
      whole.3.0,
      whole.3.1.1.0,
      whole.3.1.1.1.0,
    )
