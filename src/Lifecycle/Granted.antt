-- ===== src/Lifecycle/Granted.antt =====
-- What openPersistentGroup (group_dcom.go) notes in its own variables of what the server's answers
-- gave it: the references in g.refs, the handle in g.handle and the variable `created`.
use mathlib.Core.List.{append-nil, append_assoc}
use gopcda.Prelude.{
  ℕ, ◌≡◌, refl, sym, ap, ◌∙◌, inl, inr, true, Option, none, some, List, [], ◌∷◌, ◌++◌, length, ◌==◌,
  Bool-cases, Option-cases,
}
use gopcda.Prelude.Int.{is_negative}
use gopcda.Errors.{Error, message}
use gopcda.Result.{Result, ok, err}
use gopcda.Group.State.{Reply, failed, answered}
use gopcda.Browse.{is_code}
use gopcda.Browse.Objects.{Reference}
use gopcda.Keepalive.{Pinger, retain_object}
use gopcda.Lifecycle.{
  OpenGroup, Opening, Setup, GroupReference, Interface, AddGroupResponse, new_group, stop, retained,
  bind_group, granted_by, handed_out, unavailable, on_interfaces, on_query, on_reference, on_group,
  open_group, granting, making,
}
use gopcda.Lifecycle.Disposed.{handles_of}

-- From the creation of the group on: its handle stands, and g.refs has what was handed out since.
abbrev IsRecorded : OpenGroup → Opening → Type 0
IsRecorded g o =
    (o.created ≡ true)
    × (o.made ≡ [])
    × (o.group.registry.handle ≡ g.registry.handle)
    × (o.group.refs ≡ g.refs ++ o.granted)

stop-IsRecorded : (g : OpenGroup) (e : Error) (p : Pinger) → IsRecorded g (stop g true e p)
stop-IsRecorded g e p = (refl, refl, refl, sym (append-nil g.refs))

retained-IsRecorded :
    (g : OpenGroup) (flags : ℕ) (r : Pinger × Option Error) → IsRecorded g (retained g flags r)
unfolding retained
retained-IsRecorded g flags (p, some e) = (refl, refl, refl, sym (append-nil g.refs))
retained-IsRecorded g flags (p, none) = (refl, refl, refl, sym (append-nil g.refs))

bind_group-IsRecorded :
    (s : Setup) (g : OpenGroup) (flags : ℕ) (p : Pinger) → IsRecorded g (bind_group s g flags p)
unfolding bind_group
bind_group-IsRecorded s g flags p = elim (Option-cases s.bind_item) [
  | inr (e, a) ↦ rw (a, bind_group) (stop-IsRecorded g e p)
  | inl a ↦ elim (Option-cases s.bind_sync) [
    | inr (e, b) ↦ rw (a, b, bind_group) (stop-IsRecorded (record g { item_connection = true }) e p)
    | inl b ↦ elim (Option-cases s.bind_state) [
      | inr (e, c) ↦
          rw (a, b, c, bind_group)
            (stop-IsRecorded (record g { item_connection = true; sync_connection = true }) e p)
      | inl c ↦
          rw (a, b, c, bind_group)
            (retained-IsRecorded
              (record g { item_connection = true; sync_connection = true; state_connection = true })
              flags (retain_object s.waiting s.context s.ping g.registry.oid flags p))
    ]
  ]
]

-- The loop of the code keeps every reference of the answer.
granted_by-handed_out : (rs : List (Option Interface)) → granted_by rs ≡ handed_out rs
unfolding granted_by handed_out
granted_by-handed_out [] = refl
granted_by-handed_out (none ∷ rs) = granted_by-handed_out rs
granted_by-handed_out (some q ∷ rs) = elim (Bool-cases (is_code 0 q.hresult)) [
  | inr a ↦ simp (a, granted_by, handed_out) (granted_by-handed_out rs)
  | inl a ↦ elim (Option-cases q.reference) [
    | inl b ↦ simp (a, b, granted_by, handed_out) (granted_by-handed_out rs)
    | inr (r, b) ↦
        simp (a, b, granted_by, handed_out) (ap (λ xs. r ∷ xs) (granted_by-handed_out rs))
  ]
]

-- With references noted, of which the group has taken hold.
granting-IsRecorded :
    (refs : List Reference) (g h : OpenGroup) (o : Opening)
    → h.registry.handle ≡ g.registry.handle
    → h.refs ≡ g.refs ++ refs
    → IsRecorded h o
    → IsRecorded g (granting refs o)
unfolding granting
granting-IsRecorded refs g h o same taken k = (
  k.0,
  k.1,
  k.2 ∙ same,
  k.3 ∙ (ap (λ xs. xs ++ o.granted) taken ∙ append_assoc g.refs refs o.granted),
)

on_interfaces-IsRecorded :
    (s : Setup) (g : OpenGroup) (flags : ℕ) (rs : List (Option Interface)) (p : Pinger)
    → IsRecorded g (on_interfaces s g flags rs p)
unfolding on_interfaces
on_interfaces-IsRecorded s g flags rs p =
    let joined : OpenGroup = record g { refs = g.refs ++ granted_by rs } in
    let kept = ap (λ xs. g.refs ++ xs) (granted_by-handed_out rs) in
    elim (Option-cases (unavailable rs)) [
      | inr (e, a) ↦
          rw (a, on_interfaces)
            (granting-IsRecorded (handed_out rs) g joined (stop joined true e p) refl kept
              (stop-IsRecorded joined e p))
      | inl a ↦
          rw (a, on_interfaces)
            (granting-IsRecorded (handed_out rs) g joined (bind_group s joined flags p) refl kept
              (bind_group-IsRecorded s joined flags p))
    ]

on_query-IsRecorded :
    (s : Setup) (g : OpenGroup) (flags : ℕ) (r : Reply (List (Option Interface))) (p : Pinger)
    → IsRecorded g (on_query s g flags r p)
unfolding on_query
on_query-IsRecorded s g flags (failed e) p = stop-IsRecorded g e p
on_query-IsRecorded s g flags (answered rs) p = elim (Bool-cases (length rs == 2)) [
  | inl a ↦ rw (a, on_query) (on_interfaces-IsRecorded s g flags rs p)
  | inr a ↦ rw (a, on_query) (stop-IsRecorded g (message "missing group interface results") p)
]

on_reference-IsRecorded :
    (s : Setup) (g : OpenGroup) (r : Result GroupReference) (p : Pinger)
    → g.refs ≡ []
    → IsRecorded g (on_reference s g r p)
unfolding on_reference
on_reference-IsRecorded s g (err e) p empty = stop-IsRecorded g e p
on_reference-IsRecorded s g (ok r) p empty =
    let referred : OpenGroup = record g {
      refs = r.reference ∷ [];
      registry = record g.registry { oid = r.oid };
    } in
    let kept = sym (ap (λ xs. xs ++ (r.reference ∷ [])) empty) in
    elim (Bool-cases (r.oxid == s.server_oxid)) [
      | inl a ↦
          rw (a, on_reference)
            (granting-IsRecorded (r.reference ∷ []) g referred
              (on_query s referred r.flags s.query p) refl kept
              (on_query-IsRecorded s referred r.flags s.query p))
      | inr a ↦
          rw (a, on_reference)
            (granting-IsRecorded (r.reference ∷ []) g referred
              (stop referred true (message "group belongs to another object exporter") p) refl kept
              (stop-IsRecorded referred (message "group belongs to another object exporter") p))
    ]

-- The variables are what the answers say: the group is created exactly if the server made one, with
-- the handle of the answer, and its references are all that were handed out.
abbrev pub IsFaithful : Opening → Type 0
IsFaithful o = (o.made ≡ handles_of o.created o.group) × (o.group.refs ≡ o.granted)

making-IsFaithful :
    (g : OpenGroup) (o : Opening)
    → g.refs ≡ []
    → IsRecorded g o
    → IsFaithful (making g.registry.handle o)
unfolding making
making-IsFaithful g o empty k = (rw (k.0, k.1, k.2) refl, k.3 ∙ ap (λ xs. xs ++ o.granted) empty)

on_group-IsFaithful :
    (s : Setup) (g : OpenGroup) (r : Reply AddGroupResponse) (p : Pinger)
    → g.refs ≡ []
    → IsFaithful (on_group s g r p)
unfolding on_group
on_group-IsFaithful s g (failed e) p empty = (refl, empty)
on_group-IsFaithful s g (answered r) p empty = elim (Bool-cases (is_negative r.hresult)) [
  | inl a ↦ rw (a, on_group) (refl, empty)
  | inr a ↦
      let h : OpenGroup = record g {
        registry = record g.registry { handle = r.handle; rate = r.rate };
      } in
      rw (a, on_group)
        (making-IsFaithful h (on_reference s h r.reference p) empty
          (on_reference-IsRecorded s h r.reference p empty))
]

pub open_group-IsFaithful : (s : Setup) (p : Pinger) → IsFaithful (open_group s p)
unfolding open_group
open_group-IsFaithful s p = elim (Bool-cases s.has_remote_unknown) [
  | inr a ↦ rw (a, open_group) (refl, refl)
  | inl a ↦ elim (Option-cases s.bind_remote) [
    | inr (e, b) ↦ rw (a, b, open_group) (refl, refl)
    | inl b ↦ elim (Option-cases s.remote_client) [
      | inr (e, c) ↦ rw (a, b, c, open_group) (refl, refl)
      | inl c ↦
          rw (a, b, c, open_group)
            (on_group-IsFaithful s
              (record new_group { remote_connection = true; remote_client = true }) s.add_group p
              refl)
    ]
  ]
]
