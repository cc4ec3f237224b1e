-- ===== src/Lifecycle/Client.antt =====
-- The groups of a connection over their whole life: addGroup, removeGroup and setGroupActive of
-- group_dcom.go, and closeContext of keepalive.go.
pub mod Total
pub mod Balance
pub mod Accounts
pub mod Life
pub mod Empty
pub mod Gone
pub mod Cleared
use gopcda.Prelude.{
  ℕ, ◌+◌, ◌^◌, Bool, true, false, not, ◌&&◌, ◌||◌, Option, none, some, List, [], ◌∷◌, ◌==◌, leb,
  if◌then◌else◌,
}
use gopcda.Prelude.Int.{ℤ, is_negative}
use gopcda.Prelude.Bytes.{Bytes, contains_byte}
use gopcda.Prelude.IntMap.{find, put, remove}
use gopcda.Errors.{
  Error, sentinel, message, wrapped, closed, group_closed, join, join_all, hresult_error,
}
use gopcda.Result.{Result, ok, err, ◌>>=◌}
use gopcda.Text.{valid_utf8}
use gopcda.Group.State.{Reply, failed, answered, acquire}
use gopcda.Session.{max_int}
use gopcda.Lifecycle.{OpenGroup, Setup}
use gopcda.Lifecycle.Dispose.{
  Cleanup, Remote, dispose_group, open_persistent_group, remove_remote_group, after_answer,
}

-- dcomConn as far as it concerns groups.
pub record Client : Type 0 where
  pub closed : Bool
  pub next_group_id : ℕ
  pub groups : List (ℕ × OpenGroup)
  pub remote : Remote

-- The arguments of addGroup; of the deadband, a float32, only whether it is NaN, below 0 or above
-- 100.
pub record AddArguments : Type 0 where
  pub name : Bytes
  pub rate : ℤ
  pub bad_deadband : Bool

abbrev pub bad_rate : ℤ → Bool
bad_rate (ℤ.pos n) = n == 0 || leb (2 ^ 32) n
bad_rate (ℤ.negsuc n) = true

unfoldable pub check_arguments : AddArguments → Option Error
unfolding contains_byte valid_utf8
check_arguments a =
    if bad_rate a.rate || (a.bad_deadband || (contains_byte 0 a.name || not (valid_utf8 a.name)))
    then some (message "invalid group name, update rate or deadband")
    else none

-- registerGroup
unfoldable pub register_opened : OpenGroup → Client → Client × Result ℕ
unfolding put
register_opened g c =
    if c.closed
    then (c, err (sentinel closed))
    else if c.next_group_id == max_int
    then (c, err (message "group identity range exhausted"))
    else (
      record c {
        next_group_id = c.next_group_id + 1;
        groups = put (c.next_group_id + 1) g c.groups;
      },
      ok (c.next_group_id + 1),
    )

abbrev give_up : Cleanup → OpenGroup → Error → Client → Client × Result ℕ
give_up cleanup g e c =
    let disposed = dispose_group cleanup true g c.remote in
    (
      record c { remote = disposed.0 },
      elim (disposed.1) [ none ↦ err e | some f ↦ err (Error.joined e f) ],
    )

unfoldable pub on_registered : Cleanup → OpenGroup → Client × Result ℕ → Client × Result ℕ
unfolding dispose_group
on_registered cleanup g (c, ok id) = (c, ok id)
on_registered cleanup g (c, err e) = give_up cleanup g e c

-- addGroup from openPersistentGroup's return on; `late` is the context's error after it, and
-- `meanwhile` says whether closeContext has set c.closed since addGroup read it.
unfoldable pub on_opened :
    Cleanup → Option Error → Bool → Client → Remote × (OpenGroup × Option Error) → Client × Result ℕ
unfolding on_registered register_opened
on_opened cleanup late meanwhile c (r, (g, some e)) =
    (record c { remote = r; closed = c.closed || meanwhile }, err e)
on_opened cleanup late meanwhile c (r, (g, none)) =
    let d : Client = record c { remote = r; closed = c.closed || meanwhile } in
    elim late [
      | some e ↦ give_up cleanup g e d
      | none ↦ on_registered cleanup g (register_opened g d)
    ]

-- What an addGroup meets: the context's error before and after, and the outcome of each call.
pub record Addition : Type 0 where
  pub arguments : AddArguments
  pub context : Option Error
  pub keepalive : Option Error
  pub setup : Setup
  pub cleanup : Cleanup
  pub late : Option Error
  pub closed_meanwhile : Bool

-- addGroup
unfoldable pub add_group : Addition → Client → Client × Result ℕ
unfolding check_arguments open_persistent_group on_opened
add_group a c = elim a.context [
  | some e ↦ (c, err e)
  | none ↦ elim a.keepalive [
    | some e ↦ (c, err e)
    | none ↦ elim (check_arguments a.arguments) [
      | some e ↦ (c, err e)
      | none ↦
          if c.closed
          then (c, err (sentinel closed))
          else on_opened a.cleanup a.late a.closed_meanwhile c
              (open_persistent_group a.setup a.cleanup c.remote)
    ]
  ]
]

-- `if g == nil`
abbrev pub or_closed : Option OpenGroup → Result OpenGroup
or_closed none = err (wrapped "" (sentinel group_closed))
or_closed (some g) = ok g

-- getGroup and acquire.
unfoldable pub hold : Option Error → ℕ → Client → Result OpenGroup
unfolding find acquire
hold context id c = do
  g ← or_closed (find id c.groups)
  held ← acquire context g.registry
  ok (record g { registry = held })

-- removeGroupInternal
unfoldable pub remove_internal : Option Error → Cleanup → ℕ → Client → Client × Option Error
unfolding hold dispose_group remove
remove_internal context cleanup id c = elim (hold context id c) [
  | err e ↦ (c, some e)
  | ok g ↦
      let disposed = dispose_group cleanup true g c.remote in
      (record c { groups = remove id c.groups; remote = disposed.0 }, disposed.1)
]

-- removeGroup
unfoldable pub remove_group : Option Error → Cleanup → ℕ → Client → Client × Option Error
unfolding remove_internal
remove_group context cleanup id c =
    if c.closed then (c, some (sentinel closed)) else remove_internal context cleanup id c

-- setGroupActive, whose reply is an HRESULT: the client's state stays as it is.
unfoldable pub set_group_active : Option Error → Option Error → Reply ℤ → ℕ → Client → Option Error
unfolding hold
set_group_active context keepalive reply id c = elim (hold context id c) [
  | err e ↦ some e
  | ok g ↦ elim keepalive [
    | some e ↦ some e
    | none ↦ elim reply [
      | failed e ↦ some e
      | answered code ↦ if is_negative code then some (hresult_error "SetState" [] code) else none
    ]
  ]
]

-- activeHandles[h]
unfoldable pub is_active : ℕ → List (ℕ × OpenGroup) → Bool
is_active h [] = false
is_active h ((id, g) ∷ groups) = g.registry.handle == h || is_active h groups

-- The handles of pendingRemovals that no group holds.
unfoldable pub orphans : List (ℕ × Bool) → List (ℕ × OpenGroup) → List ℕ
unfolding is_active
orphans [] groups = []
orphans ((h, t) ∷ pending) groups =
    let rest = orphans pending groups in if is_active h groups then rest else h ∷ rest

unfoldable pub ids_of : List (ℕ × OpenGroup) → List ℕ
ids_of [] = []
ids_of ((id, g) ∷ groups) = id ∷ ids_of groups

-- The loop over the pending removals.
unfoldable pub retry_removals : (ℕ → Reply ℤ) → List ℕ → Remote → Remote × List (Option Error)
unfolding remove_remote_group after_answer
retry_removals replies [] r = (r, [])
retry_removals replies (h ∷ hs) r =
    let rest = retry_removals replies hs (record r {
      removed = h ∷ r.removed;
      retried = h ∷ r.retried;
      alive = after_answer h (replies h) r.alive;
    }) in
    (rest.0, remove_remote_group (replies h) ∷ rest.1)

-- The loop over the groups.
unfoldable pub remove_all :
    (ℕ → Option Error) → (ℕ → Cleanup) → List ℕ → Client → Client × List (Option Error)
unfolding remove_internal
remove_all contexts cleanups [] c = (c, [])
remove_all contexts cleanups (id ∷ ids) c =
    let removed = remove_internal (contexts id) (cleanups id) id c in
    let rest = remove_all contexts cleanups ids (removed.0) in (rest.0, removed.1 ∷ rest.1)

-- What closeContext meets: the context's error, if it ends before the running operations do, the
-- outcomes for each handle and group, and the errors of releaseServerReference, stopKeepalive and
-- the closing of the connection.
pub record Closing : Type 0 where
  pub context : Option Error
  pub replies : ℕ → Reply ℤ
  pub contexts : ℕ → Option Error
  pub cleanups : ℕ → Cleanup
  pub release_server : Option Error
  pub stop_keepalive : Option Error
  pub close_server : Option Error

unfoldable pub close_groups : Closing → Client → Client × Option Error
unfolding retry_removals remove_all orphans ids_of
close_groups x c =
    let retried = retry_removals x.replies (orphans c.remote.pending c.groups) c.remote in
    let removed =
      remove_all x.contexts x.cleanups (ids_of c.groups) (record c { remote = retried.0 }) in
    (
      removed.0,
      join (join_all (retried.1)) (
          join (join_all (removed.1))
            (join x.release_server (join x.stop_keepalive x.close_server))),
    )

-- closeContext
unfoldable pub close_context : Closing → Client → Client × Option Error
unfolding close_groups
close_context x c = if c.closed then (c, none) else elim x.context [
  | some e ↦ (record c { closed = true }, some e)
  | none ↦ close_groups x (record c { closed = true })
]
