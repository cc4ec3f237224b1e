-- ===== src/Properties/Released.antt =====
-- properties.go: itemProperties, which borrows the server's IOPCItemProperties interface for one
-- call, and Server.ItemProperties. What each call outside the client gives is a field of Calls.
use gopcda.Prelude.{
  ℕ, ◌≡◌, refl, sym, ap, ◌∙◌, Bool, not, ◌||◌, Option, none, some, List, [], ◌∷◌, ◌==◌,
  if◌then◌else◌, Bool-cases, Option-cases, inl, inr,
}
use gopcda.Prelude.Int.{ℤ, is_negative}
use gopcda.Prelude.Bytes.{Bytes}
use gopcda.Errors.{Error, message, wrapped, join, hresult_error}
use gopcda.Result.{Result, ok, err}
use gopcda.Text.{validate_item_id}
use gopcda.Group.State.{Reply, failed, answered}
use gopcda.Browse.Objects.{Reference}
use gopcda.Properties.{ItemProperty}

-- The results of RemoteQueryInterface: their number (0 also for no response), and of the first one
-- whether it is nil, its HRESULT, and its reference with its exporter if it has an IPID.
pub record QueryAnswer : Type 0 where
  pub count : ℕ
  pub present : Bool
  pub hresult : ℤ
  pub reference : Option (Reference × ℕ)

pub record Calls : Type 0 where
  pub begin : Option Error
  pub context : Option Error
  pub has_remote_unknown : Bool
  pub bind_remote : Option Error
  pub remote_client : Option Error
  pub query : Reply QueryAnswer
  pub server_oxid : ℕ
  pub bind_interface : Option Error
  pub read : Result (List ItemProperty)
  pub close_interface : Option Error
  pub release : Reply (Option ℤ)
  pub close_remote : Option Error

-- The results, and beside them the reference that the server handed out and those that it was asked
-- to release.
pub record Outcome : Type 0 where
  pub properties : Option (List ItemProperty)
  pub error : Option Error
  pub acquired : List Reference
  pub released : List Reference

abbrev stop : Error → List Reference → Outcome
stop e acquired = record { properties = none; error = some e; acquired = acquired; released = [] }

abbrev returned : Result (List ItemProperty) → List Reference → Outcome
returned (err e) acquired = stop e acquired
returned (ok ps) acquired = record {
  properties = some ps;
  error = none;
  acquired = acquired;
  released = [];
}

-- defer func() { retErr = errors.Join(retErr, closing) }()
unfoldable pub closing : Option Error → Outcome → Outcome
closing c o = record o { error = join o.error c }

-- The error of the deferred release.
unfoldable pub release_error : Bytes → Reply (Option ℤ) → Option Error
release_error item (failed e) = some (wrapped "release IOPCItemProperties" e)
release_error item (answered none) = none
release_error item (answered (some code)) =
    if is_negative code
    then some (
        wrapped "release IOPCItemProperties" (hresult_error "release IOPCItemProperties" item code))
    else none

unfoldable pub releasing : Bytes → Calls → Reference → Outcome → Outcome
unfolding release_error
releasing item x r o = record o {
  error = join o.error (release_error item x.release);
  released = r ∷ o.released;
}

unfoldable pub on_interface : Calls → Reference → ℕ → Outcome
unfolding closing
on_interface x r oxid =
    if not (oxid == x.server_oxid)
    then stop (message "IOPCItemProperties uses a different object exporter") (r ∷ [])
    else elim x.bind_interface [
      | some e ↦ stop (wrapped "bind IOPCItemProperties" e) (r ∷ [])
      | none ↦ closing x.close_interface (returned x.read (r ∷ []))
    ]

unfoldable pub on_query : Bytes → Calls → Reply QueryAnswer → Outcome
unfolding on_interface releasing
on_query item x (failed e) = stop (wrapped "QueryInterface IOPCItemProperties" e) []
on_query item x (answered a) =
    if not (a.count == 1) || not a.present
    then stop (message "IOPCItemProperties: missing QueryInterface result") []
    else if is_negative a.hresult
    then stop (hresult_error "IOPCItemProperties unavailable" item a.hresult) []
    else elim a.reference [
      | none ↦ stop (message "IOPCItemProperties: missing object reference") []
      | some (r, oxid) ↦ releasing item x r (on_interface x r oxid)
    ]

unfoldable pub on_remote : Bytes → Calls → Outcome
unfolding on_query
on_remote item x = elim x.remote_client [ some e ↦ stop e [] | none ↦ on_query item x x.query ]

-- itemProperties
unfoldable pub item_properties : Bytes → Calls → Outcome
unfolding on_remote
item_properties item x = elim x.begin [
  | some e ↦ stop e []
  | none ↦ elim x.context [
    | some e ↦ stop e []
    | none ↦
        if not x.has_remote_unknown
        then stop (message "activation omitted IRemUnknown") []
        else elim x.bind_remote [
          | some e ↦ stop (wrapped "bind IRemUnknown" e) []
          | none ↦ closing x.close_remote (on_remote item x)
        ]
  ]
]

abbrev answer : Outcome → Result (Option (List ItemProperty))
answer o = elim o.error [ some e ↦ err (wrapped "opcda: properties %q" e) | none ↦ ok o.properties ]

-- Server.ItemProperties, with what operationError gives.
unfoldable pub server_properties :
    Option Error → Bytes → Calls → Result (Option (List ItemProperty))
unfolding validate_item_id item_properties
server_properties closed item x = elim (validate_item_id item) [
  | some e ↦ err e
  | none ↦ elim closed [ some e ↦ err e | none ↦ answer (item_properties item x) ]
]

returned-acquired :
    (read : Result (List ItemProperty)) (acquired : List Reference)
    → ((returned read acquired).acquired ≡ acquired) × ((returned read acquired).released ≡ [])
returned-acquired (err e) acquired = (refl, refl)
returned-acquired (ok ps) acquired = (refl, refl)

on_interface-acquired :
    (x : Calls) (r : Reference) (oxid : ℕ)
    → ((on_interface x r oxid).acquired ≡ r ∷ []) × ((on_interface x r oxid).released ≡ [])
unfolding on_interface closing
on_interface-acquired x r oxid = elim (Bool-cases (oxid == x.server_oxid)) [
  | inr a ↦ rw (a, on_interface) (refl, refl)
  | inl a ↦ elim (Option-cases x.bind_interface) [
    | inr (e, b) ↦ rw (a, b, on_interface) (refl, refl)
    | inl b ↦ rw (a, b, on_interface) (returned-acquired x.read (r ∷ []))
  ]
]

abbrev IsReleased : Outcome → Type 0
IsReleased o = o.released ≡ o.acquired

on_query-IsReleased :
    (item : Bytes) (x : Calls) (r : Reply QueryAnswer) → IsReleased (on_query item x r)
unfolding on_query releasing
on_query-IsReleased item x (failed e) = refl
on_query-IsReleased item x (answered a) = elim (Bool-cases (not (a.count == 1) || not a.present)) [
  | inl h ↦ rw (h, on_query) refl
  | inr h ↦ elim (Bool-cases (is_negative a.hresult)) [
    | inl k ↦ rw (h, k, on_query) refl
    | inr k ↦ elim (Option-cases a.reference) [
      | inl l ↦ rw (h, k, l, on_query) refl
      | inr ((q, oxid), l) ↦
          let held = on_interface-acquired x q oxid in
          rw (h, k, l, on_query) (ap (λ rs. q ∷ rs) (held.1) ∙ sym (held.0))
    ]
  ]
]

-- However itemProperties ends, it asks the server to release exactly the reference that the server
-- handed out, once, also when the interface belongs to another object exporter.
pub item_properties-IsReleased :
    (item : Bytes) (x : Calls)
    → (item_properties item x).released ≡ (item_properties item x).acquired
unfolding item_properties on_remote closing
item_properties-IsReleased item x = elim (Option-cases x.begin) [
  | inr (e, h) ↦ rw (h, item_properties) refl
  | inl h ↦ elim (Option-cases x.context) [
    | inr (e, k) ↦ rw (h, k, item_properties) refl
    | inl k ↦ elim (Bool-cases x.has_remote_unknown) [
      | inr l ↦ rw (h, k, l, item_properties) refl
      | inl l ↦ elim (Option-cases x.bind_remote) [
        | inr (e, m) ↦ rw (h, k, l, m, item_properties) refl
        | inl m ↦ elim (Option-cases x.remote_client) [
          | inr (e, n) ↦ rw (h, k, l, m, n, item_properties) refl
          | inl n ↦ rw (h, k, l, m, n, item_properties) (on_query-IsReleased item x x.query)
        ]
      ]
    ]
  ]
]
