-- ===== src/Lifecycle.antt =====
-- group_dcom.go, openPersistentGroup: how a group is created on the server and bound. What each
-- call outside the client gives is a field of Setup; the pinger is the keepalive's own.
pub mod Handles
pub mod Dispose
pub mod Client
pub mod Opened
pub mod Disposed
pub mod Granted
pub mod Examples
use gopcda.Prelude.{
  ℕ, ◌/◌, ◌%◌, Bool, true, false, not, ◌&&◌, Option, none, some, List, [], ◌∷◌, ◌++◌, length, ◌==◌,
  if◌then◌else◌,
}
use gopcda.Prelude.Int.{ℤ, is_negative}
use gopcda.Errors.{Error, message, wrapped, hresult_error}
use gopcda.Result.{Result, ok, err}
use gopcda.Group.State.{PersistentGroup, Reply, failed, answered}
use gopcda.Browse.{is_code}
use gopcda.Browse.Objects.{Reference}
use gopcda.Keepalive.{Pinger, retain_object}

-- The decoded reference of IOPCItemMgt: IPID and public references, OID, OXID, flags.
pub record GroupReference : Type 0 where
  pub reference : Reference
  pub oid : ℕ
  pub oxid : ℕ
  pub flags : ℕ

-- One result of RemoteQueryInterface: its HRESULT, and its reference if it has one with an IPID.
pub record Interface : Type 0 where
  pub hresult : ℤ
  pub reference : Option Reference

pub record AddGroupResponse : Type 0 where
  pub hresult : ℤ
  pub handle : ℕ
  pub rate : ℕ
  pub reference : Result GroupReference

-- The outcome of each call, in the order of the calls; `waiting`, `context` and `ping` are those of
-- retainObject.
pub record Setup : Type 0 where
  pub has_remote_unknown : Bool
  pub bind_remote : Option Error
  pub remote_client : Option Error
  pub add_group : Reply AddGroupResponse
  pub server_oxid : ℕ
  pub query : Reply (List (Option Interface))
  pub bind_item : Option Error
  pub bind_sync : Option Error
  pub bind_state : Option Error
  pub waiting : Option Error
  pub context : Option Error
  pub ping : Reply ℕ

-- persistentGroup: its registry, and which of its connections there are.
pub record OpenGroup : Type 0 where
  pub registry : PersistentGroup
  pub refs : List Reference
  pub remote_connection : Bool
  pub remote_client : Bool
  pub item_connection : Bool
  pub sync_connection : Bool
  pub state_connection : Bool

-- newPersistentGroup
abbrev pub new_group : OpenGroup
new_group = record {
  registry = record {
    closed = false;
    handle = 0;
    next_client_handle = 0;
    items = [];
    oid = 0;
    pinged = false;
    rate = 0;
  };
  refs = [];
  remote_connection = false;
  remote_client = false;
  item_connection = false;
  sync_connection = false;
  state_connection = false;
}

-- The named results and the variable `created` where the function returns, with the pinger. Beside
-- them what the server's answers say, noted where an answer is read and not taken from the client's
-- variables: the references that they handed out, and the handles of the groups that they made.
pub record Opening : Type 0 where
  pub group : OpenGroup
  pub created : Bool
  pub error : Option Error
  pub pinger : Pinger
  pub granted : List Reference
  pub made : List ℕ

abbrev pub stop : OpenGroup → Bool → Error → Pinger → Opening
stop g created e p = record {
  group = g;
  created = created;
  error = some e;
  pinger = p;
  granted = [];
  made = [];
}

-- An answer has handed out the references, or made the group, whatever the client goes on to do.
unfoldable pub granting : List Reference → Opening → Opening
granting refs o = record o { granted = refs ++ o.granted }

unfoldable pub making : ℕ → Opening → Opening
making handle o = record o { made = handle ∷ o.made }

-- g.pinged = ref.Flags&0x1000 == 0, unless retainObject failed.
unfoldable pub retained : OpenGroup → ℕ → Pinger × Option Error → Opening
retained g flags (p, some e) = stop g true (wrapped "group keepalive" e) p
retained g flags (p, none) = record {
  group = record g { registry = record g.registry { pinged = flags / 0x1000 % 2 == 0 } };
  created = true;
  error = none;
  pinger = p;
  granted = [];
  made = [];
}

-- The three binds and the keepalive.
unfoldable pub bind_group : Setup → OpenGroup → ℕ → Pinger → Opening
unfolding retained retain_object
bind_group s g flags p = elim s.bind_item [
  | some e ↦ stop g true e p
  | none ↦
      let h : OpenGroup = record g { item_connection = true } in
      elim s.bind_sync [
        | some e ↦ stop h true e p
        | none ↦
            let i : OpenGroup = record h { sync_connection = true } in
            elim s.bind_state [
              | some e ↦ stop i true e p
              | none ↦
                  retained (record i { state_connection = true }) flags
                    (retain_object s.waiting s.context s.ping g.registry.oid flags p)
            ]
      ]
]

-- The first loop over the query's results: the references to give back later.
unfoldable pub granted_by : List (Option Interface) → List Reference
granted_by [] = []
granted_by (none ∷ rs) = granted_by rs
granted_by (some q ∷ rs) =
    let rest = granted_by rs in
    if is_code 0 q.hresult then elim q.reference [ none ↦ rest | some r ↦ r ∷ rest ] else rest

-- The second loop: the error it returns.
unfoldable pub unavailable : List (Option Interface) → Option Error
unavailable [] = none
unavailable (none ∷ rs) = some (message "IOPCSyncIO or IOPCGroupStateMgt unavailable")
unavailable (some q ∷ rs) =
    let rest = unavailable rs in
    if not (is_code 0 q.hresult)
    then some (hresult_error "QueryInterface group" [] q.hresult)
    else elim q.reference [
      | none ↦ some (message "IOPCSyncIO or IOPCGroupStateMgt unavailable")
      | some r ↦ rest
    ]

-- The references in the answer to RemoteQueryInterface: one for each result with S_OK that has one.
abbrev given_by : Option Interface → List Reference
given_by none = []
given_by (some q) =
    if is_code 0 q.hresult then elim q.reference [ none ↦ [] | some r ↦ r ∷ [] ] else []

unfoldable pub handed_out : List (Option Interface) → List Reference
handed_out [] = []
handed_out (q ∷ rs) = given_by q ++ handed_out rs

unfoldable pub on_interfaces : Setup → OpenGroup → ℕ → List (Option Interface) → Pinger → Opening
unfolding granted_by unavailable bind_group handed_out granting
on_interfaces s g flags rs p =
    let h : OpenGroup = record g { refs = g.refs ++ granted_by rs } in
    granting (handed_out rs)
      (elim (unavailable rs) [ some e ↦ stop h true e p | none ↦ bind_group s h flags p ])

unfoldable pub on_query : Setup → OpenGroup → ℕ → Reply (List (Option Interface)) → Pinger → Opening
unfolding on_interfaces
on_query s g flags (failed e) p = stop g true e p
on_query s g flags (answered rs) p =
    if not (length rs == 2)
    then stop g true (message "missing group interface results") p
    else on_interfaces s g flags rs p

unfoldable pub on_reference : Setup → OpenGroup → Result GroupReference → Pinger → Opening
unfolding on_query granting
on_reference s g (err e) p = stop g true e p
on_reference s g (ok r) p =
    let h : OpenGroup = record g {
      refs = r.reference ∷ [];
      registry = record g.registry { oid = r.oid };
    } in
    granting (r.reference ∷ []) (
      if not (r.oxid == s.server_oxid)
      then stop h true (message "group belongs to another object exporter") p
      else on_query s h r.flags s.query p)

unfoldable pub on_group : Setup → OpenGroup → Reply AddGroupResponse → Pinger → Opening
unfolding on_reference making
on_group s g (failed e) p = stop g false e p
on_group s g (answered r) p =
    if is_negative r.hresult
    then stop g false (hresult_error "AddGroup" [] r.hresult) p
    else making r.handle (
        on_reference s
          (record g { registry = record g.registry { handle = r.handle; rate = r.rate } })
          r.reference p)

-- openPersistentGroup, before its deferred cleanup.
unfoldable pub open_group : Setup → Pinger → Opening
unfolding on_group
open_group s p =
    if not s.has_remote_unknown
    then stop new_group false (message "activation omitted IRemUnknown") p
    else elim s.bind_remote [
      | some e ↦ stop new_group false e p
      | none ↦
          let g : OpenGroup = record new_group { remote_connection = true } in
          elim s.remote_client [
            | some e ↦ stop g false e p
            | none ↦ on_group s (record g { remote_client = true }) s.add_group p
          ]
    ]
