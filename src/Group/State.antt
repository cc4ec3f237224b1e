-- ===== src/Group/State.antt =====
-- group_dcom.go: the state of a persistent group and of the session that holds it, and how an
-- operation reaches its group (getGroup, acquire).
use gopcda.Prelude.{ℕ, Bool, Option, none, some, List, if◌then◌else◌}
use gopcda.Prelude.Assoc.{Assoc}
use gopcda.Prelude.IntMap.{find}
use gopcda.Errors.{Error, sentinel, wrapped, group_closed}
use gopcda.Result.{Result, ok, err, ◌>>=◌}

-- registeredItem
pub record RegisteredItem : Type 0 where
  pub handle : ℕ
  pub client : ℕ
  pub rights : ℕ
  pub canonical : ℕ

-- persistentGroup without its connections.
pub record PersistentGroup : Type 0 where
  pub closed : Bool
  pub handle : ℕ
  pub next_client_handle : ℕ
  pub items : Assoc RegisteredItem
  pub oid : ℕ
  pub pinged : Bool
  pub rate : ℕ

-- What an RPC gives: the error of Invoke, or the decoded response.
pub data Reply {ℓ} (A : Type ℓ) : Type ℓ where
  failed : Error → Reply A
  answered : A → Reply A

-- c.getGroup(id)
unfoldable pub get_group : List (ℕ × PersistentGroup) → ℕ → Result PersistentGroup
unfolding find
get_group groups id = elim (find id groups) [
  | none ↦ err (wrapped "" (sentinel group_closed))
  | some g ↦ ok g
]

-- g.acquire(ctx): the context's error, if it ends before the gate is held, then the closed flag.
unfoldable pub acquire : Option Error → PersistentGroup → Result PersistentGroup
acquire (some e) g = err e
acquire none g = if g.closed then err (sentinel group_closed) else ok g

-- The opening lines of each operation on a group: getGroup, acquire, keepaliveError.
unfoldable pub admitted :
    List (ℕ × PersistentGroup) → ℕ → Option Error → Option Error → Result PersistentGroup
unfolding get_group acquire
admitted groups id context_error keepalive_error = do
  g ← get_group groups id
  held ← acquire context_error g
  elim keepalive_error [ none ↦ ok held | some e ↦ err e ]
