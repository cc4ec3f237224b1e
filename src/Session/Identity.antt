-- ===== src/Session/Identity.antt =====
-- The steps of a session, and what becomes of the identity of a group that is removed.
use gopcda.Prelude.{false, ℕ, ◌+◌, ◌≤◌, ◌<◌, ◌≡◌, ◌≢◌, refl, Option, none, some, List, arith}
use gopcda.Prelude.IntMap.{find, put, find-put, find-remove}
use gopcda.Errors.{Error, sentinel, wrapped, group_closed}
use gopcda.Result.{ok, err}
use gopcda.Group.State.{PersistentGroup, get_group, acquire}
use gopcda.Session.{Session, new_session, register_group, remove_group, remove_group_internal}

-- A step of a session: a registration, a removal, or an item operation that leaves its group
-- with another state.
pub data Step : Session → Session → Type 0 where
  registering : {s : Session} (g : PersistentGroup) → Step s (register_group g s).0
  removing :
      {s : Session} (context dispose : Option Error) (id : ℕ)
      → Step s (remove_group context dispose id s).0
  operating :
      {s : Session} (id : ℕ) (g h : PersistentGroup)
      → get_group s.groups id ≡ ok g
      → Step s (record s { groups = put id h s.groups })

pub data Reaches : Session → Session → Type 0 where
  here : {s : Session} → Reaches s s
  next : {s t u : Session} → Step s t → Reaches t u → Reaches s u

-- The identity was given out and its group is gone.
abbrev pub IsRetired : ℕ → Session → Type 0
IsRetired id s = (id ≤ s.next_group_id) × (find id s.groups ≡ none)

get_group-find :
    (groups : List (ℕ × PersistentGroup)) (id : ℕ) (g : PersistentGroup)
    → get_group groups id ≡ ok g
    → find id groups ≡ some g
unfolding get_group
get_group-find groups id g h = ground arith

Step-IsRetired : {s t : Session} (id : ℕ) → Step s t → IsRetired id s → IsRetired id t
unfolding register_group remove_group remove_group_internal
Step-IsRetired {s} id (registering g) h =
    ground (arith, find-put (s.next_group_id + 1) id g s.groups)
Step-IsRetired {s} id (removing context dispose j) h = ground (arith, find-remove j id s.groups)
Step-IsRetired {s} id (operating j k g e) h =
    ground (arith, get_group-find s.groups j k e, find-put j id g s.groups)

Reaches-IsRetired : {s t : Session} (id : ℕ) → Reaches s t → IsRetired id s → IsRetired id t
Reaches-IsRetired id here h = h
Reaches-IsRetired id (next a r) h = Reaches-IsRetired id r (Step-IsRetired id a h)

-- The groups of the session have identities that it has given out.
abbrev IsIssued : ℕ → Session → Type 0
IsIssued id s = s.next_group_id < id → find id s.groups ≡ none

Step-IsIssued : {s t : Session} (id : ℕ) → Step s t → IsIssued id s → IsIssued id t
unfolding register_group remove_group remove_group_internal
Step-IsIssued {s} id (registering g) h =
    ground (arith, find-put (s.next_group_id + 1) id g s.groups)
Step-IsIssued {s} id (removing context dispose j) h = ground (arith, find-remove j id s.groups)
Step-IsIssued {s} id (operating j k g e) h =
    ground (arith, get_group-find s.groups j k e, find-put j id g s.groups)

Reaches-IsIssued : {s t : Session} (id : ℕ) → Reaches s t → IsIssued id s → IsIssued id t
Reaches-IsIssued id here h = h
Reaches-IsIssued id (next a r) h = Reaches-IsIssued id r (Step-IsIssued id a h)

remove_group-IsRetired :
    (context dispose : Option Error) (id : ℕ) (s : Session) (g h : PersistentGroup)
    → s.closed ≡ false
    → get_group s.groups id ≡ ok g
    → acquire context g ≡ ok h
    → IsIssued id s
    → IsRetired id (remove_group context dispose id s).0
unfolding remove_group remove_group_internal
remove_group-IsRetired context dispose id s g h c e a i =
    ground (arith, get_group-find s.groups id g e, find-remove id id s.groups)

refused :
    (groups : List (ℕ × PersistentGroup)) (id : ℕ)
    → find id groups ≡ none
    → get_group groups id ≡ err (wrapped "" (sentinel group_closed))
unfolding get_group
refused groups id h = rw (h, get_group)

fresh :
    (id : ℕ) (g : PersistentGroup) (s : Session)
    → id ≤ s.next_group_id
    → (register_group g s).1 ≢ ok id
unfolding register_group
fresh id g s l = ground arith

-- Once removeGroup has got hold of a group of an open session, whether or not the release of its
-- remote resources fails, its identity resolves to no group ever after: getGroup reports that the
-- group is closed, and registerGroup does not give the identity out again.
pub removed_group-IsRetired :
    (s t : Session) (context dispose : Option Error) (id : ℕ) (g h new : PersistentGroup)
    → Reaches new_session s
    → s.closed ≡ false
    → get_group s.groups id ≡ ok g
    → acquire context g ≡ ok h
    → Reaches (remove_group context dispose id s).0 t
    → (get_group t.groups id ≡ err (wrapped "" (sentinel group_closed)))
      × ((register_group new t).1 ≢ ok id)
unfolding find
removed_group-IsRetired s t context dispose id g h new before c e a after =
    (refused t.groups id retired.1, fresh id new t retired.0)
  where
    retired : IsRetired id t
    retired = Reaches-IsRetired id after (
        remove_group-IsRetired context dispose id s g h c e a
          (Reaches-IsIssued id before (λ l. refl)))
