-- ===== src/Lifecycle/Opened.antt =====
-- What openPersistentGroup (group_dcom.go) has reached where it returns, before its cleanup.
use gopcda.Prelude.{
  ℕ, ◌+◌, ◌/◌, ◌%◌, ◌≤◌, ◌≡◌, refl, sym, ap, subst, ◌⊎◌, inl, inr, Bool, true, false, ◌&&◌, Option,
  none, some, List, [], ◌∷◌, ◌++◌, length, ◌==◌, arith, if◌then◌else◌, Bool-cases, Option-cases,
}
use gopcda.Prelude.Int.{is_negative}
use gopcda.Errors.{Error}
use gopcda.Result.{Result, ok, err}
use gopcda.Group.State.{Reply, failed, answered}
use gopcda.Keepalive.{Pinger, count_of, add, retain_object}
use gopcda.Keepalive.Calls.{adding, run_call, owned_after}
use gopcda.Keepalive.Tracking.{run_call-count}
use gopcda.Lifecycle.{
  OpenGroup, Opening, Setup, GroupReference, Interface, AddGroupResponse, new_group, stop, retained,
  bind_group, granted_by, unavailable, on_interfaces, on_query, on_reference, on_group, open_group,
  granting, making,
}

-- The group's own entry in the pinger's count of the object.
unfoldable pub pings : ℕ → OpenGroup → ℕ
pings oid g = if g.registry.pinged && g.registry.oid == oid then 1 else 0

-- The group is open, and there is a client to release the references with.
abbrev pub IsReleasable : OpenGroup → Type 0
IsReleasable g = (g.registry.closed ≡ false) × ((g.remote_client ≡ true) ⊎ (g.refs ≡ []))

abbrev IsIdle : OpenGroup → Type 0
IsIdle g = (g.registry.pinged ≡ false) × IsReleasable g

abbrev pub IsOpened : Pinger → Opening → Type 0
IsOpened p o =
    (o.error ≡ none → o.created ≡ true)
    × IsReleasable o.group
    × ((oid : ℕ) → count_of oid p.objects + pings oid o.group ≤ count_of oid o.pinger.objects)

none_some : {e : Error} → none ≡ some e → ⊥
none_some h = cc

stop-IsOpened :
    (g : OpenGroup) (created : Bool) (e : Error) (p : Pinger)
    → IsIdle g
    → IsOpened p (stop g created e p)
unfolding pings
stop-IsOpened g created e p h = ((λ k. cc), h.1, λ oid. ground (arith, h.0))

add-count :
    (waiting context : Option Error) (ping : Reply ℕ) (oid : ℕ) (p q : Pinger) (object : ℕ)
    → add waiting context ping oid p ≡ (q, none)
    → count_of object q.objects
      ≡ (if oid == object then count_of object p.objects + 1 else count_of object p.objects)
unfolding run_call owned_after
add-count waiting context ping oid p q object h =
    subst
      (λ after.
        count_of object after.0.objects
        ≡ owned_after (adding waiting context ping oid) after.1 object (count_of object p.objects))
      h (run_call-count (adding waiting context ping oid) p object)

abbrev without_error : Pinger → Pinger × Option Error
without_error p = (p, none)

pinger_injective : (p q : Pinger) → without_error p ≡ without_error q → p ≡ q
pinger_injective p q h = ap (λ r. r.0) h

retained-count :
    (noted : Bool) (waiting context : Option Error) (ping : Reply ℕ) (oid : ℕ) (p q : Pinger)
    (object : ℕ)
    → (if noted then add waiting context ping oid p else (p, none)) ≡ (q, none)
    → count_of object p.objects + (if noted && oid == object then 1 else 0)
      ≤ count_of object q.objects
retained-count true waiting context ping oid p q object h =
    ground (arith, add-count waiting context ping oid p q object h)
retained-count false waiting context ping oid p q object h =
    rw (pinger_injective p q h) (omega arith)

unchanged :
    (noted : Bool) (waiting context : Option Error) (ping : Reply ℕ) (oid : ℕ) (p q : Pinger)
    (e : Error) (object : ℕ)
    → (if noted then add waiting context ping oid p else (p, none)) ≡ (q, some e)
    → count_of object p.objects ≡ count_of object q.objects
unfolding run_call owned_after
unchanged true waiting context ping oid p q e object h = sym (
    subst
      (λ after.
        count_of object after.0.objects
        ≡ owned_after (adding waiting context ping oid) after.1 object (count_of object p.objects))
      h (run_call-count (adding waiting context ping oid) p object))
unchanged false waiting context ping oid p q e object h = absurd (none_some (ap (λ r. r.1) h))

after_retained :
    (s : Setup) (g : OpenGroup) (flags : ℕ) (p : Pinger) (after : Pinger × Option Error)
    → IsIdle g
    → retain_object s.waiting s.context s.ping g.registry.oid flags p ≡ after
    → IsOpened p (retained g flags after)
unfolding retained retain_object pings
after_retained s g flags p (q, some e) h k = (
  (λ k. cc),
  h.1,
  λ oid. ground (
    arith,
    h.0,
    unchanged (flags / 0x1000 % 2 == 0) s.waiting s.context s.ping g.registry.oid p q e oid k,
  ),
)
after_retained s g flags p (q, none) h k = (
  (λ k. refl),
  h.1,
  λ oid.
      retained-count (flags / 0x1000 % 2 == 0) s.waiting s.context s.ping g.registry.oid p q oid k,
)

bind_group-IsOpened :
    (s : Setup) (g : OpenGroup) (flags : ℕ) (p : Pinger)
    → IsIdle g
    → IsOpened p (bind_group s g flags p)
unfolding bind_group
bind_group-IsOpened s g flags p h = elim (Option-cases s.bind_item) [
  | inr (e, a) ↦ rw (a, bind_group) (stop-IsOpened g true e p h)
  | inl a ↦ elim (Option-cases s.bind_sync) [
    | inr (e, b) ↦
        rw (a, b, bind_group) (stop-IsOpened (record g { item_connection = true }) true e p h)
    | inl b ↦ elim (Option-cases s.bind_state) [
      | inr (e, c) ↦
          rw (a, b, c, bind_group)
            (stop-IsOpened (record g { item_connection = true; sync_connection = true }) true e p h)
      | inl c ↦
          rw (a, b, c, bind_group)
            (after_retained s
              (record g { item_connection = true; sync_connection = true; state_connection = true })
              flags p _ h refl)
    ]
  ]
]

-- A group that has a client and is not in the ping set yet.
abbrev IsReady : OpenGroup → Type 0
IsReady g = (g.registry.pinged ≡ false) × (g.remote_client ≡ true) × (g.registry.closed ≡ false)

on_interfaces-IsOpened :
    (s : Setup) (g : OpenGroup) (flags : ℕ) (rs : List (Option Interface)) (p : Pinger)
    → IsReady g
    → IsOpened p (on_interfaces s g flags rs p)
unfolding on_interfaces granting
on_interfaces-IsOpened s g flags rs p h =
    let joined : OpenGroup = record g { refs = g.refs ++ granted_by rs } in
    elim (Option-cases (unavailable rs)) [
      | inr (e, a) ↦ rw (a, on_interfaces) (stop-IsOpened joined true e p (h.0, (h.2, inl (h.1))))
      | inl a ↦ rw (a, on_interfaces) (bind_group-IsOpened s joined flags p (h.0, (h.2, inl (h.1))))
    ]

on_query-IsOpened :
    (s : Setup) (g : OpenGroup) (flags : ℕ) (r : Reply (List (Option Interface))) (p : Pinger)
    → IsReady g
    → IsOpened p (on_query s g flags r p)
unfolding on_query
on_query-IsOpened s g flags (failed e) p h = stop-IsOpened g true e p (h.0, (h.2, inl (h.1)))
on_query-IsOpened s g flags (answered rs) p h = elim (Bool-cases (length rs == 2)) [
  | inl a ↦ rw (a, on_query) (on_interfaces-IsOpened s g flags rs p h)
  | inr a ↦ rw (a, on_query) (stop-IsOpened g true _ p (h.0, (h.2, inl (h.1))))
]

on_reference-IsOpened :
    (s : Setup) (g : OpenGroup) (r : Result GroupReference) (p : Pinger)
    → IsReady g
    → IsOpened p (on_reference s g r p)
unfolding on_reference granting
on_reference-IsOpened s g (err e) p h = stop-IsOpened g true e p (h.0, (h.2, inl (h.1)))
on_reference-IsOpened s g (ok r) p h =
    let referred : OpenGroup = record g {
      refs = r.reference ∷ [];
      registry = record g.registry { oid = r.oid };
    } in
    elim (Bool-cases (r.oxid == s.server_oxid)) [
      | inl a ↦ rw (a, on_reference) (on_query-IsOpened s referred r.flags s.query p h)
      | inr a ↦ rw (a, on_reference) (stop-IsOpened referred true _ p (h.0, (h.2, inl (h.1))))
    ]

on_group-IsOpened :
    (s : Setup) (g : OpenGroup) (r : Reply AddGroupResponse) (p : Pinger)
    → IsReady g
    → IsOpened p (on_group s g r p)
unfolding on_group making
on_group-IsOpened s g (failed e) p h = stop-IsOpened g false e p (h.0, (h.2, inl (h.1)))
on_group-IsOpened s g (answered r) p h = elim (Bool-cases (is_negative r.hresult)) [
  | inl a ↦ rw (a, on_group) (stop-IsOpened g false _ p (h.0, (h.2, inl (h.1))))
  | inr a ↦
      rw (a, on_group)
        (on_reference-IsOpened s
          (record g { registry = record g.registry { handle = r.handle; rate = r.rate } })
          r.reference p h)
]

-- Where openPersistentGroup returns, a group without an error was created, its references can be
-- released, and the pinger counts its object if it is to be pinged.
pub open_group-IsOpened : (s : Setup) (p : Pinger) → IsOpened p (open_group s p)
unfolding open_group
open_group-IsOpened s p = elim (Bool-cases s.has_remote_unknown) [
  | inr a ↦ rw (a, open_group) (stop-IsOpened new_group false _ p (refl, (refl, inr refl)))
  | inl a ↦ elim (Option-cases s.bind_remote) [
    | inr (e, b) ↦
        rw (a, b, open_group) (stop-IsOpened new_group false e p (refl, (refl, inr refl)))
    | inl b ↦ elim (Option-cases s.remote_client) [
      | inr (e, c) ↦
          rw (a, b, c, open_group)
            (stop-IsOpened (record new_group { remote_connection = true }) false e p
              (refl, (refl, inr refl)))
      | inl c ↦
          rw (a, b, c, open_group)
            (on_group-IsOpened s
              (record new_group { remote_connection = true; remote_client = true }) s.add_group p
              (refl, refl, refl))
    ]
  ]
]
