-- ===== src/Session.antt =====
-- The groups of a session (group_dcom.go): registerGroup, removeGroup and the group's identity.
pub mod Identity
use gopcda.Prelude.{
  ℕ, ◌+◌, ◌-◌, ◌^◌, Bool, true, false, Option, none, some, List, [], ◌∷◌, ◌==◌, if◌then◌else◌,
}
use gopcda.Prelude.IntMap.{find, put, remove}
use gopcda.Errors.{Error, sentinel, closed, message}
use gopcda.Result.{Result, ok, err}
use gopcda.Group.State.{PersistentGroup, get_group, acquire}

-- The part of dcomConn that concerns groups.
pub record Session : Type 0 where
  pub closed : Bool
  pub next_group_id : ℕ
  pub groups : List (ℕ × PersistentGroup)

abbrev pub new_session : Session
new_session = record { closed = false; next_group_id = 0; groups = [] }

-- math.MaxInt, on a 64-bit machine
abbrev pub max_int : ℕ
max_int = 2 ^ 63 - 1

-- registerGroup: the id of the Group that it returns.
unfoldable pub register_group : PersistentGroup → Session → Session × Result ℕ
unfolding put
register_group g s =
    if s.closed
    then (s, err (sentinel closed))
    else if s.next_group_id == max_int
    then (s, err (message "group identity range exhausted"))
    else (
      record s {
        next_group_id = s.next_group_id + 1;
        groups = put (s.next_group_id + 1) g s.groups;
      },
      ok (s.next_group_id + 1),
    )

-- removeGroupInternal: the group goes before its remote resources are released; `dispose` is the
-- error of disposeGroup.
unfoldable pub remove_group_internal :
    Option Error → Option Error → ℕ → Session → Session × Option Error
unfolding get_group acquire remove
remove_group_internal context dispose id s = elim (get_group s.groups id) [
  | err e ↦ (s, some e)
  | ok g ↦ elim (acquire context g) [
    | err e ↦ (s, some e)
    | ok h ↦ (record s { groups = remove id s.groups }, dispose)
  ]
]

-- removeGroup
unfoldable pub remove_group : Option Error → Option Error → ℕ → Session → Session × Option Error
unfolding remove_group_internal
remove_group context dispose id s =
    if s.closed then (s, some (sentinel closed)) else remove_group_internal context dispose id s
