-- ===== src/Single.antt =====
-- Operations on one item through a temporary group: withSingleItem (read.go), writeItem and
-- writeSingleValue (write.go), addOneResponse.check (read_wire.go), writeOneResponse.check
-- (write_wire.go). What each call outside the client gives is a field of Exchange.
pub mod Outcome
use gopcda.Prelude.{String, ℕ, Bool, true, false, not, Option, none, some, [], if◌then◌else◌, ◌==◌}
use gopcda.Prelude.Int.{ℤ, is_negative}
use gopcda.Errors.{
  Error, message, wrapped, sentinel, joined, join, write_acknowledged, hresult_error, unknown_write,
}
use gopcda.Result.{Result, ok, err}
use gopcda.Values.Data.{Value}
use gopcda.Values.Runtime.{Runtime}
use gopcda.Values.Encode.{write_variant}
use gopcda.Group.State.{Reply, failed, answered}

-- addOneResponse and writeOneResponse, of which only the first may hold a result.
pub record OneResponse : Type 0 where
  pub has_result : Bool
  pub has_error : Bool
  pub item_error : ℤ
  pub hresult : ℤ

-- The one result of RemoteQueryInterface: its HRESULT, and whether it has an IPID.
pub record QueryResult : Type 0 where
  pub has_entry : Bool
  pub hresult : ℤ
  pub has_ipid : Bool

-- The outcome of each call, in the order of the calls; none is success.
pub record Exchange : Type 0 where
  pub begin : Option Error
  pub context : Option Error
  pub has_remote_unknown : Bool
  pub bind_remote : Option Error
  pub remote_client : Option Error
  pub add_group : Reply ℤ
  pub decode_reference : Option Error
  pub same_exporter : Bool
  pub bind_items : Option Error
  pub add_items : Reply OneResponse
  pub query : Reply QueryResult
  pub bind_sync : Option Error
  pub close_sync : Option Error
  pub close_items : Option Error
  pub release : Option Error
  pub remove_group : Reply ℤ
  pub close_remote : Option Error

-- addOneResponse.check
unfoldable pub check_added : OneResponse → Option Error
check_added r =
    if is_negative r.hresult
    then some (hresult_error "AddItems" [] r.hresult)
    else if not r.has_error
    then some (message "AddItems: missing item HRESULT")
    else if is_negative r.item_error
    then some (hresult_error "AddItems" [] r.item_error)
    else if not r.has_result
    then some (message "AddItems: missing result")
    else none

-- writeOneResponse.check
unfoldable pub check_written : OneResponse → Option Error
check_written r =
    if is_negative r.hresult
    then some (hresult_error "Write" [] r.hresult)
    else if not r.has_error
    then some (unknown_write (message "Write: missing item HRESULT"))
    else if is_negative r.item_error
    then some (hresult_error "Write" [] r.item_error)
    else none

abbrev in_text : String → Option Error → Option Error
in_text text none = none
in_text text (some e) = some (wrapped text e)

abbrev checked {ℓ} : {A : Type ℓ} → String → (A → Option Error) → Reply A → Option Error
checked text check (failed e) = some (wrapped text e)
checked text check (answered a) = check a

abbrev is_nonzero : ℤ → Bool
is_nonzero (ℤ.pos n) = not (n == 0)
is_nonzero (ℤ.negsuc n) = true

abbrev query_error : QueryResult → Option Error
query_error q =
    if not q.has_entry
    then some (message "missing IOPCSyncIO result")
    else if is_nonzero q.hresult
    then some (hresult_error "IOPCSyncIO" [] q.hresult)
    else if not q.has_ipid
    then some (message "missing IOPCSyncIO IPID")
    else none

-- removeErr of the cleanup: the RPC's error, or an HRESULT other than S_OK.
unfoldable pub removal : Reply ℤ → Option Error
removal (failed e) = some (wrapped "remove temporary item group" e)
removal (answered code) =
    if is_nonzero code
    then some (wrapped "remove temporary item group" (hresult_error "RemoveGroup" [] code))
    else none

module _ {S : Type 0} (idle : S) (action : S × Option Error) where
  -- `if err != nil { return err }`, the action not being reached.
  unfoldable pub unless_error : Option Error → S × Option Error → S × Option Error
  unless_error none rest = rest
  unless_error (some e) rest = (idle, some e)

  -- defer func() { retErr = errors.Join(retErr, closing) }()
  unfoldable pub deferred : Option Error → S × Option Error → S × Option Error
  deferred closing (s, e) = (s, join e closing)

  -- From the binding of IOPCItemMgt to the action.
  unfoldable pub with_item : Exchange → S × Option Error
  unfolding check_added
  with_item x = unless_error (in_text "bind IOPCItemMgt" x.bind_items) (
      deferred x.close_items (
        unless_error (checked "AddItems" check_added x.add_items) (
          unless_error (checked "QueryInterface IOPCSyncIO" query_error x.query)
            (unless_error (in_text "bind IOPCSyncIO" x.bind_sync) (deferred x.close_sync action)))))

  -- The temporary group with its cleanup: its references are released if there are any.
  unfoldable pub with_group : Exchange → S × Option Error
  unfolding with_item removal
  with_group x = elim x.decode_reference [
    | some e ↦ deferred (removal x.remove_group) (idle, some (wrapped "AddGroup interface" e))
    | none ↦
        if not x.same_exporter
        then deferred (removal x.remove_group)
            (idle, some (message "group uses a different object exporter"))
        else deferred (join (in_text "release item interfaces" x.release) (removal x.remove_group))
            (with_item x)
  ]

  abbrev group_error : ℤ → Option Error
  group_error code = if is_negative code then some (hresult_error "AddGroup" [] code) else none

  -- The connection to IRemUnknown around the temporary group.
  unfoldable pub with_remote : Exchange → S × Option Error
  unfolding with_group
  with_remote x =
      if not x.has_remote_unknown
      then (idle, some (message "activation omitted IRemUnknown"))
      else unless_error (in_text "bind IRemUnknown" x.bind_remote) (
          deferred x.close_remote (
            unless_error x.remote_client
              (unless_error (checked "AddGroup" group_error x.add_group) (with_group x))))

  -- withSingleItem: what the action gives, and the error after the deferred calls.
  unfoldable pub with_single_item : Exchange → S × Option Error
  unfolding with_remote
  with_single_item x = unless_error x.begin (unless_error x.context (with_remote x))

-- What became of the write request on the server.
pub data Stage : Type 0 where
  unsent refused unconfirmed confirmed : Stage

unfoldable pub stage_of : Reply OneResponse → Stage
stage_of (failed e) = unconfirmed
stage_of (answered r) =
    if is_negative r.hresult
    then refused
    else if not r.has_error
    then unconfirmed
    else if is_negative r.item_error
    then refused
    else confirmed

-- The variable `acknowledged` of writeItem, beside the stage of the request.
pub record Progress : Type 0 where
  pub acknowledged : Bool
  pub stage : Stage

abbrev pub not_sent : Progress
not_sent = record { acknowledged = false; stage = unsent }

-- writeSingleValue
unfoldable pub write_single_value : Reply OneResponse → Option Error
unfolding check_written
write_single_value (failed e) = some (unknown_write e)
write_single_value (answered r) = check_written r

abbrev is_nil : Option Error → Bool
is_nil none = true
is_nil (some e) = false

-- The closure that writeItem passes.
unfoldable pub write_action : Reply OneResponse → Progress × Option Error
unfolding write_single_value stage_of
write_action reply = (
  record { acknowledged = is_nil (write_single_value reply); stage = stage_of reply },
  write_single_value reply,
)

abbrev pub after_write : Progress × Option Error → Progress × Option Error
after_write (p, none) = (p, none)
after_write (p, some e) =
    (p, if p.acknowledged then some (joined (sentinel write_acknowledged) e) else some e)

-- writeItem of the session.
unfoldable pub write_item : Runtime → Exchange → Reply OneResponse → Value → Progress × Option Error
unfolding write_variant with_single_item write_action
write_item rt x reply value = elim (write_variant rt value) [
  | err e ↦ (not_sent, some e)
  | ok v ↦ after_write (with_single_item not_sent (write_action reply) x)
]
