-- ===== src/Lifecycle/Dispose.antt =====
-- group_dcom.go: removeRemoteGroup, disposeGroup, and openPersistentGroup with its deferred cleanup.
use gopcda.Prelude.{
  ℕ, Bool, true, false, not, ◌&&◌, Option, none, some, List, [], ◌∷◌, ◌++◌, if◌then◌else◌,
}
use gopcda.Prelude.Int.{ℤ}
use gopcda.Prelude.IntMap.{put, remove}
use gopcda.Errors.{Error, join, join_all, hresult_error}
use gopcda.Group.State.{Reply, failed, answered}
use gopcda.Browse.{is_code}
use gopcda.Browse.Objects.{Reference}
use gopcda.Keepalive.{Pinger, release_object}
use gopcda.Lifecycle.{OpenGroup, Opening, Setup, open_group}

-- The outcome of each call of disposeGroup; `waiting`, `context` and `ping` are those of
-- releaseObject.
pub record Cleanup : Type 0 where
  pub close_state : Option Error
  pub close_sync : Option Error
  pub close_item : Option Error
  pub release : Option Error
  pub remove_group : Reply ℤ
  pub waiting : Option Error
  pub context : Option Error
  pub ping : Reply ℕ
  pub close_remote : Option Error

-- The part of dcomConn that concerns the server's resources: its pinger and pendingRemovals. Beside
-- them what has happened so far. From the server's answers: the references that they handed out, the
-- groups that they made, and `alive`, the groups that were made and whose removal no answer has
-- confirmed since. From the client's requests: the references it asked to be released and the groups
-- it asked to be removed, of which `retried` are requests that closeContext repeated.
pub record Remote : Type 0 where
  pub pinger : Pinger
  pub pending : List (ℕ × Bool)
  pub taken : List Reference
  pub released : List Reference
  pub created : List ℕ
  pub removed : List ℕ
  pub retried : List ℕ
  pub alive : List (ℕ × Bool)

-- The server has removed the group if RemoveGroup was answered with S_OK.
abbrev pub confirms : Reply ℤ → Bool
confirms (failed e) = false
confirms (answered code) = is_code 0 code

unfoldable pub after_answer : ℕ → Reply ℤ → List (ℕ × Bool) → List (ℕ × Bool)
unfolding remove
after_answer handle reply alive = if confirms reply then remove handle alive else alive

-- removeRemoteGroup: its error.
unfoldable pub remove_remote_group : Reply ℤ → Option Error
remove_remote_group (failed e) = some e
remove_remote_group (answered code) =
    if is_code 0 code then none else some (hresult_error "RemoveGroup" [] code)

abbrev when {ℓ} : {A : Type ℓ} → Bool → Option A → Option A
when true a = a
when false a = none

-- The three connections of the group, and the one to IRemUnknown.
unfoldable pub close_connections : Cleanup → OpenGroup → Option Error
close_connections c g =
    join (when g.state_connection c.close_state)
      (join (when g.sync_connection c.close_sync) (when g.item_connection c.close_item))

abbrev pub is_empty : List Reference → Bool
is_empty [] = true
is_empty (r ∷ rs) = false

unfoldable pub release_references : Cleanup → OpenGroup → Remote → Remote × Option Error
release_references c g r =
    if not (is_empty g.refs) && g.remote_client
    then (record r { released = g.refs ++ r.released }, c.release)
    else (r, none)

-- c.pendingRemovals after RemoveGroup.
unfoldable pub settle : ℕ → Option Error → List (ℕ × Bool) → List (ℕ × Bool)
unfolding put remove
settle handle none pending = remove handle pending
settle handle (some e) pending = put handle true pending

unfoldable pub remove_created : Cleanup → Bool → OpenGroup → Remote → Remote × Option Error
unfolding settle remove_remote_group after_answer
remove_created c false g r = (r, none)
remove_created c true g r = (
  record r {
    removed = g.registry.handle ∷ r.removed;
    pending = settle g.registry.handle (remove_remote_group c.remove_group) r.pending;
    alive = after_answer g.registry.handle c.remove_group r.alive;
  },
  remove_remote_group c.remove_group,
)

unfoldable pub release_pinged : Cleanup → OpenGroup → Remote → Remote × Option Error
unfolding release_object
release_pinged c g r =
    let after : Pinger × Option Error =
      release_object c.waiting c.context c.ping g.registry.oid r.pinger in
    if g.registry.pinged then (record r { pinger = after.0 }, after.1) else (r, none)

-- disposeGroup
unfoldable pub dispose_group : Cleanup → Bool → OpenGroup → Remote → Remote × Option Error
unfolding close_connections release_references remove_created release_pinged
dispose_group c created g r =
    let released = release_references c g r in
    let removed = remove_created c created g (released.0) in
    let unpinged = release_pinged c g (removed.0) in
    (
      unpinged.0,
      join_all (
          close_connections c g
          ∷ released.1
          ∷ removed.1
          ∷ unpinged.1
          ∷ when g.remote_connection c.close_remote
          ∷ []),
    )

unfoldable pub made_alive : List ℕ → List (ℕ × Bool) → List (ℕ × Bool)
unfolding put
made_alive [] alive = alive
made_alive (h ∷ hs) alive = put h true (made_alive hs alive)

-- What the opening of a group leaves behind.
unfoldable pub after_opening : Opening → Remote → Remote
unfolding made_alive
after_opening o r = record r {
  pinger = o.pinger;
  taken = o.granted ++ r.taken;
  created = o.made ++ r.created;
  alive = made_alive o.made r.alive;
}

unfoldable pub finish_opening : Cleanup → Opening → Remote → Remote × (OpenGroup × Option Error)
unfolding dispose_group
finish_opening c o r = elim o.error [
  | none ↦ (r, (o.group, none))
  | some e ↦
      let disposed = dispose_group c o.created o.group r in
      (disposed.0, (o.group, join (some e) (disposed.1)))
]

-- openPersistentGroup
unfoldable pub open_persistent_group :
    Setup → Cleanup → Remote → Remote × (OpenGroup × Option Error)
unfolding open_group after_opening finish_opening
open_persistent_group s c r =
    let o = open_group s r.pinger in finish_opening c o (after_opening o r)
