-- ===== src/Browse/Release.antt =====
-- What becomes of the remote references that browseItemIDs (browse.go) acquires, and what a
-- successful Server.BrowseItemIDs says.
use gopcda.Prelude.{
  ◌≡◌, refl, sym, ap, ◌∙◌, ◌⊎◌, inl, inr, ℕ, not, ◌||◌, Option, none, some, List, [], ◌∷◌, ◌==◌,
  Bool-cases, Option-cases,
}
use gopcda.Prelude.Bytes.{Bytes}
use gopcda.Errors.{Error, join}
use gopcda.Result.{Result, ok, err}
use gopcda.Group.State.{Reply, failed, answered}
use gopcda.Browse.{is_code}
use gopcda.Browse.Objects.{
  Reference, QueryAnswer, BrowseResponse, Calls, Outcome, closing, releasing, acquiring,
  on_enumerator, in_text, returned, on_reference, on_browse, on_interface, on_query, on_remote,
  browse_item_ids,
}

-- With q the references are all in `refs`, or the enumerator is one of another exporter.
abbrev IsHeld : Reference → Outcome → Type 0
IsHeld q o =
    (o.refs ≡ q ∷ o.acquired)
    ⊎ ((r : Reference) × (e : Error) × (o.refs ≡ q ∷ [])
        × (o.acquired ≡ r ∷ [])
        × (o.error ≡ some e))

join-some : (e : Error) (c : Option Error) → (f : Error) × (join (some e) c ≡ some f)
join-some e none = (e, refl)
join-some e (some f) = (_, refl)

closing-IsHeld :
    (q : Reference) (c : Option Error) (o : Outcome) → IsHeld q o → IsHeld q (closing c o)
unfolding closing
closing-IsHeld q c o (inl h) = inl h
closing-IsHeld q c o (inr (r, e, h, k, f)) =
    let joined = join-some e c in inr (r, joined.0, h, k, rw f (joined.1))

returned-refs :
    (collected : Result (List Bytes)) (refs : List Reference)
    → ((returned collected refs).refs ≡ refs) × ((returned collected refs).acquired ≡ [])
returned-refs (err e) refs = (refl, refl)
returned-refs (ok ids) refs = (refl, refl)

on_enumerator-refs :
    (x : Calls) (refs : List Reference)
    → ((on_enumerator x refs).refs ≡ refs) × ((on_enumerator x refs).acquired ≡ [])
unfolding on_enumerator closing
on_enumerator-refs x refs = elim (Option-cases x.bind_enum) [
  | inr (e, h) ↦ rw (h, on_enumerator) (refl, refl)
  | inl h ↦ rw (h, on_enumerator) (returned-refs x.collected refs)
]

on_reference-IsHeld :
    (x : Calls) (q : Reference) (r : Result (Reference × ℕ)) → IsHeld q (on_reference x q r)
unfolding on_reference acquiring
on_reference-IsHeld x q (err e) = inl refl
on_reference-IsHeld x q (ok (r, oxid)) = elim (Bool-cases (oxid == x.server_oxid)) [
  | inl h ↦
      let held = on_enumerator-refs x (q ∷ r ∷ []) in
      rw (h, on_reference) (inl (held.0 ∙ sym (ap (λ rs. q ∷ r ∷ rs) (held.1))))
  | inr h ↦ rw (h, on_reference) (inr (r, _, refl, refl, refl))
]

on_browse-IsHeld :
    (x : Calls) (q : Reference) (r : Reply BrowseResponse) → IsHeld q (on_browse x q r)
unfolding on_browse
on_browse-IsHeld x q (failed e) = inl refl
on_browse-IsHeld x q (answered r) = elim (Bool-cases (is_code 0 r.hresult)) [
  | inl h ↦ rw (h, on_browse) (on_reference-IsHeld x q _)
  | inr h ↦ rw (h, on_browse) (inl refl)
]

on_interface-IsHeld : (x : Calls) (q : Reference) → IsHeld q (on_interface x q)
unfolding on_interface
on_interface-IsHeld x q = elim (Option-cases x.bind_browse) [
  | inr (e, h) ↦ rw (h, on_interface) (inl refl)
  | inl h ↦
      rw (h, on_interface)
        (closing-IsHeld q x.close_browse (on_browse x q x.browse) (on_browse-IsHeld x q x.browse))
]

-- What was acquired is released, but for an enumerator of another exporter.
abbrev pub IsReleased : Outcome → Type 0
IsReleased o =
    (o.released ≡ o.acquired)
    ⊎ ((q : Reference) × (r : Reference) × (e : Error) × (o.released ≡ q ∷ [])
        × (o.acquired ≡ q ∷ r ∷ [])
        × (o.error ≡ some e))

releasing-IsReleased :
    (q : Reference) (release : List Reference → Option Error) (o : Outcome)
    → IsHeld q o
    → IsReleased (acquiring (q ∷ []) (releasing release o))
unfolding releasing acquiring
releasing-IsReleased q release o (inl h) = inl h
releasing-IsReleased q release o (inr (r, e, h, k, f)) =
    let joined = join-some e (in_text "release browse references" (release o.refs)) in
    inr (q, r, joined.0, h, ap (λ rs. q ∷ rs) k, rw f (joined.1))

on_query-IsReleased : (x : Calls) (r : Reply QueryAnswer) → IsReleased (on_query x r)
unfolding on_query
on_query-IsReleased x (failed e) = inl refl
on_query-IsReleased x (answered a) = elim (Bool-cases (not (a.count == 1) || not a.present)) [
  | inl h ↦ rw (h, on_query) (inl refl)
  | inr h ↦ elim (Bool-cases (is_code 0 a.hresult)) [
    | inr k ↦ rw (h, k, on_query) (inl refl)
    | inl k ↦ elim (Option-cases a.reference) [
      | inl l ↦ rw (h, k, l, on_query) (inl refl)
      | inr (q, l) ↦
          rw (h, k, l, on_query)
            (releasing-IsReleased q x.release (on_interface x q) (on_interface-IsHeld x q))
    ]
  ]
]

closing-IsReleased : (c : Option Error) (o : Outcome) → IsReleased o → IsReleased (closing c o)
unfolding closing
closing-IsReleased c o (inl h) = inl h
closing-IsReleased c o (inr (q, r, e, h, k, f)) =
    let joined = join-some e c in inr (q, r, joined.0, h, k, rw f (joined.1))

on_remote-IsReleased : (x : Calls) → IsReleased (on_remote x)
unfolding on_remote
on_remote-IsReleased x = elim (Option-cases x.remote_client) [
  | inr (e, h) ↦ rw (h, on_remote) (inl refl)
  | inl h ↦ rw (h, on_remote) (on_query-IsReleased x x.query)
]

pub browse_item_ids-IsReleased : (x : Calls) → IsReleased (browse_item_ids x)
unfolding browse_item_ids
browse_item_ids-IsReleased x = elim (Option-cases x.begin) [
  | inr (e, h) ↦ rw (h, browse_item_ids) (inl refl)
  | inl h ↦ elim (Option-cases x.context) [
    | inr (e, k) ↦ rw (h, k, browse_item_ids) (inl refl)
    | inl k ↦ elim (Bool-cases x.has_remote_unknown) [
      | inr l ↦ rw (h, k, l, browse_item_ids) (inl refl)
      | inl l ↦ elim (Option-cases x.bind_remote) [
        | inr (e, m) ↦ rw (h, k, l, m, browse_item_ids) (inl refl)
        | inl m ↦
            rw (h, k, l, m, browse_item_ids)
              (closing-IsReleased x.close_remote (on_remote x) (on_remote-IsReleased x))
      ]
    ]
  ]
]
