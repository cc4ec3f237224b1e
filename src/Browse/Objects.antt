-- ===== src/Browse/Objects.antt =====
-- browse.go: browseItemIDs, which reaches the enumerator through two remote objects and gives their
-- references back, decodeStandardReference, and Server.BrowseItemIDs. What each call outside the
-- client gives is a field of Calls; a GUID is a number, the nil GUID being 0.
use gopcda.Prelude.{
  ℕ, Bool, true, false, not, ◌||◌, Option, none, some, List, [], ◌∷◌, ◌++◌, String, ◌==◌,
  if◌then◌else◌,
}
use gopcda.Prelude.Int.{ℤ}
use gopcda.Prelude.Bytes.{Bytes, bytes_eq}
use gopcda.Errors.{Error, message, wrapped, join, hresult_error}
use gopcda.Result.{Result, ok, err, refuse, ◌>>=◌, ◌>>◌}
use gopcda.Group.State.{Reply, failed, answered}
use gopcda.Browse.{is_code}

-- dcom.StdObjectReference: OXID, IPID (nil or a GUID), and the public references.
pub record StandardReference : Type 0 where
  pub oxid : ℕ
  pub ipid : Option ℕ
  pub references : ℕ

-- dcom.ObjectReference: the value is nil, or another kind than the standard one, or standard.
pub record ObjectReference : Type 0 where
  pub signature : Bytes
  pub flags : ℕ
  pub iid : Option ℕ
  pub value : Option (Option StandardReference)

-- dcom.RemoteInterfaceReference
abbrev pub Reference : Type 0
Reference = ℕ × ℕ

abbrev meow : Bytes
meow = 0x4d ∷ 0x45 ∷ 0x4f ∷ 0x57 ∷ []

abbrev is_some_of : ℕ → Option ℕ → Bool
is_some_of n none = false
is_some_of n (some m) = m == n

abbrev no_value : Option (Option StandardReference) → Bool
no_value none = true
no_value (some v) = false

abbrev standard_of : Option (Option StandardReference) → Result (Reference × ℕ)
standard_of (some (some r)) = elim r.ipid [
  | none ↦ err (message "missing standard IPID")
  | some ipid ↦
      if ipid == 0 then err (message "missing standard IPID") else ok ((ipid, r.references), r.oxid)
]
standard_of v = err (message "missing standard IPID")

-- decodeStandardReference, where ndr.Unmarshal gives the argument of a pointer that is not nil: the
-- reference to give back, and the exporter of the object.
unfoldable pub decode_standard_reference :
    Option (Result ObjectReference) → ℕ → Result (Reference × ℕ)
unfolding bytes_eq
decode_standard_reference none iid = err (message "null interface pointer")
decode_standard_reference (some unmarshalled) iid = do
  obj ← unmarshalled
  refuse
      (not (bytes_eq obj.signature meow)
        || (not (obj.flags == 1) || (not (is_some_of iid obj.iid) || no_value obj.value)))
      (message "unexpected OBJREF signature, type or IID")
  standard_of obj.value

-- The results of RemoteQueryInterface: their number, and of the first one whether it is nil, its
-- HRESULT and its reference, if there is one with an IPID.
pub record QueryAnswer : Type 0 where
  pub count : ℕ
  pub present : Bool
  pub hresult : ℤ
  pub reference : Option Reference

-- browseIDsResponse, its pointer unmarshalled.
pub record BrowseResponse : Type 0 where
  pub pointer : Option (Result ObjectReference)
  pub hresult : ℤ

pub record Calls : Type 0 where
  pub begin : Option Error
  pub context : Option Error
  pub has_remote_unknown : Bool
  pub bind_remote : Option Error
  pub remote_client : Option Error
  pub query : Reply QueryAnswer
  pub bind_browse : Option Error
  pub browse : Reply BrowseResponse
  pub server_oxid : ℕ
  pub bind_enum : Option Error
  pub collected : Result (List Bytes)
  pub close_enum : Option Error
  pub close_browse : Option Error
  pub release : List Reference → Option Error
  pub close_remote : Option Error

-- The results `ids` and `retErr`, the variable `refs`, and beside them what the answers of the
-- server handed to the client (`acquiring` notes it where an answer is read) and what the client
-- has asked the server to release (`remote_release` notes it).
pub record Outcome : Type 0 where
  pub ids : Option (List Bytes)
  pub error : Option Error
  pub refs : List Reference
  pub acquired : List Reference
  pub released : List Reference

abbrev pub enum_string_iid : ℕ
enum_string_iid = 0x0000010100000000c000000000000046

-- `return nil, cause`, with these references held.
abbrev stop : Error → List Reference → Outcome
stop cause refs = record {
  ids = none;
  error = some cause;
  refs = refs;
  acquired = [];
  released = [];
}

abbrev pub returned : Result (List Bytes) → List Reference → Outcome
returned (err e) refs = stop e refs
returned (ok ids) refs = record {
  ids = some ids;
  error = none;
  refs = refs;
  acquired = [];
  released = [];
}

-- An answer of the server has handed out the references, whatever the client goes on to do.
unfoldable pub acquiring : List Reference → Outcome → Outcome
acquiring refs o = record o { acquired = refs ++ o.acquired }

-- defer func() { retErr = errors.Join(retErr, closing) }()
unfoldable pub closing : Option Error → Outcome → Outcome
closing c o = record o { error = join o.error c }

abbrev forget : Option Error → Option (List Bytes) → Option (List Bytes)
forget none ids = ids
forget (some e) ids = none

abbrev pub in_text : String → Option Error → Option Error
in_text text none = none
in_text text (some e) = some (wrapped text e)

-- RemoteRelease of a list: what the server was asked to release, and the error.
abbrev remote_release :
    (List Reference → Option Error) → List Reference → List Reference × Option Error
remote_release release refs = (refs, release refs)

-- The deferred release of `refs`, on whose failure no ItemIDs are returned.
unfoldable pub releasing : (List Reference → Option Error) → Outcome → Outcome
releasing release o =
    let call = remote_release release o.refs in
    record o {
      ids = forget (call.1) o.ids;
      error = join o.error (in_text "release browse references" (call.1));
      released = call.0;
    }

-- From the binding of IEnumString on.
unfoldable pub on_enumerator : Calls → List Reference → Outcome
unfolding closing
on_enumerator x refs = elim x.bind_enum [
  | some e ↦ stop (wrapped "bind IEnumString" e) refs
  | none ↦ closing x.close_enum (returned x.collected refs)
]

-- The enumerator's reference, which is held only if the object belongs to this exporter.
unfoldable pub on_reference : Calls → Reference → Result (Reference × ℕ) → Outcome
unfolding on_enumerator acquiring
on_reference x q (err e) = stop (wrapped "browse enumerator" e) (q ∷ [])
on_reference x q (ok (r, oxid)) = acquiring (r ∷ []) (
    if not (oxid == x.server_oxid)
    then stop (message "enumerator belongs to another object exporter") (q ∷ [])
    else on_enumerator x (q ∷ r ∷ []))

unfoldable pub on_browse : Calls → Reference → Reply BrowseResponse → Outcome
unfolding on_reference
on_browse x q (failed e) = stop (wrapped "BrowseOPCItemIDs" e) (q ∷ [])
on_browse x q (answered r) =
    if not (is_code 0 r.hresult)
    then stop (hresult_error "BrowseOPCItemIDs" [] r.hresult) (q ∷ [])
    else on_reference x q (decode_standard_reference r.pointer enum_string_iid)

-- With the interface for browsing.
unfoldable pub on_interface : Calls → Reference → Outcome
unfolding on_browse
on_interface x q = elim x.bind_browse [
  | some e ↦ stop (wrapped "bind DA2 browse" e) (q ∷ [])
  | none ↦ closing x.close_browse (on_browse x q x.browse)
]

unfoldable pub on_query : Calls → Reply QueryAnswer → Outcome
unfolding on_interface releasing acquiring
on_query x (failed e) = stop (wrapped "QueryInterface DA2 browse" e) []
on_query x (answered a) =
    if not (a.count == 1) || not a.present
    then stop (message "QueryInterface DA2 browse: missing result") []
    else if not (is_code 0 a.hresult)
    then stop (hresult_error "DA2 browse unavailable" [] a.hresult) []
    else elim a.reference [
      | none ↦ stop (message "DA2 browse: missing object reference") []
      | some q ↦ acquiring (q ∷ []) (releasing x.release (on_interface x q))
    ]

unfoldable pub on_remote : Calls → Outcome
unfolding on_query
on_remote x = elim x.remote_client [ some e ↦ stop e [] | none ↦ on_query x x.query ]

-- browseItemIDs
unfoldable pub browse_item_ids : Calls → Outcome
unfolding on_remote
browse_item_ids x = elim x.begin [
  | some e ↦ stop e []
  | none ↦ elim x.context [
    | some e ↦ stop e []
    | none ↦
        if not x.has_remote_unknown
        then stop (message "activation omitted IRemUnknown IPID") []
        else elim x.bind_remote [
          | some e ↦ stop (wrapped "bind IRemUnknown" e) []
          | none ↦ closing x.close_remote (on_remote x)
        ]
  ]
]

abbrev pub answer : Outcome → Result (Option (List Bytes))
answer o = elim o.error [ some e ↦ err (wrapped "opcda: browse ItemIDs" e) | none ↦ ok o.ids ]

-- Server.BrowseItemIDs, with what operationError gives.
unfoldable pub server_browse : Option Error → Calls → Result (Option (List Bytes))
unfolding browse_item_ids
server_browse (some e) x = err e
server_browse none x = answer (browse_item_ids x)
