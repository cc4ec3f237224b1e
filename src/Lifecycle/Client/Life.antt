-- ===== src/Lifecycle/Client/Life.antt =====
-- The life of a connection (group_dcom.go, keepalive.go): any sequence of addGroup, removeGroup and
-- closeContext, and what holds after it.
use gopcda.Prelude.{
  ℕ, ◌≤◌, refl, true, false, Option, List, [], ◌∷◌, Bool, arith, Bool-cases, Option-cases, inl, inr,
}
use gopcda.Prelude.Int.{ℤ}
use gopcda.Prelude.IntMap.{find}
use gopcda.Errors.{Error}
use gopcda.Group.State.{Reply}
use gopcda.Keepalive.{Pinger}
use gopcda.Lifecycle.{OpenGroup}
use gopcda.Lifecycle.Handles.{mark, mark-remove}
use gopcda.Lifecycle.Dispose.{Cleanup, Remote, confirms, after_answer}
use gopcda.Lifecycle.Client.{
  Client, Addition, Closing, add_group, remove_internal, remove_group, retry_removals, remove_all,
  close_groups, close_context, orphans, ids_of,
}
use gopcda.Lifecycle.Client.Total.{total, weigh}
use gopcda.Lifecycle.Client.Balance.{IsBalanced}
use gopcda.Lifecycle.Client.Accounts.{
  IsAccounted, add_group-IsAccounted, remove_internal-IsAccounted,
}

-- A connection without groups, whose pinger may already count the server's object.
abbrev pub new_client : Pinger → Client
new_client p = record {
  closed = false;
  next_group_id = 0;
  groups = [];
  remote = record {
    pinger = p;
    pending = [];
    taken = [];
    released = [];
    created = [];
    removed = [];
    retried = [];
    alive = [];
  };
}

-- One operation. `finishing` is the rest of a closeContext that had to wait for running operations
-- after it had marked the connection closed.
pub data Step : Client → Client → Type 0 where
  adding : (a : Addition) (c : Client) → Step c (add_group a c).0
  removing :
      (context : Option Error) (cleanup : Cleanup) (id : ℕ) (c : Client)
      → Step c (remove_group context cleanup id c).0
  closing : (x : Closing) (c : Client) → Step c (close_context x c).0
  finishing : (x : Closing) (c : Client) → Step c (close_groups x c).0

pub data Lives : Client → Client → Type 0 where
  here : {c : Client} → Lives c c
  next : {c d e : Client} → Step c d → Lives d e → Lives c e

-- An answer adds no group.
pub after_answer-le :
    (h k : ℕ) (reply : Reply ℤ) (alive : List (ℕ × Bool))
    → mark h (after_answer k reply alive) ≤ mark h alive
unfolding after_answer
after_answer-le h k reply alive = elim (Bool-cases (confirms reply)) [
  | inl e ↦ rw (e, after_answer) (ground (arith, mark-remove k h alive))
  | inr e ↦ rw (e, after_answer) (omega arith)
]

retry_removals-IsBalanced :
    (replies : ℕ → Reply ℤ) (handles : List ℕ) (r : Remote) (held : (OpenGroup → ℕ) → ℕ)
    → IsBalanced r held
    → IsBalanced (retry_removals replies handles r).0 held
unfolding retry_removals total
retry_removals-IsBalanced replies [] r held b = b
retry_removals-IsBalanced replies (h ∷ hs) r held b =
    retry_removals-IsBalanced replies hs
      (record r {
        removed = h ∷ r.removed;
        retried = h ∷ r.retried;
        alive = after_answer h (replies h) r.alive;
      })
      held
      (
        b.0,
        (λ w. omega (arith, b.1 w)),
        b.2,
        λ k. omega (arith, b.3 k, after_answer-le k h (replies h) r.alive),
      )

remove_all-IsAccounted :
    (contexts : ℕ → Option Error) (cleanups : ℕ → Cleanup) (ids : List ℕ) (c : Client)
    → IsAccounted c
    → IsAccounted (remove_all contexts cleanups ids c).0
unfolding remove_all
remove_all-IsAccounted contexts cleanups [] c h = h
remove_all-IsAccounted contexts cleanups (id ∷ ids) c h =
    remove_all-IsAccounted contexts cleanups ids
      (remove_internal (contexts id) (cleanups id) id c).0
      (remove_internal-IsAccounted (contexts id) (cleanups id) id c h)

close_groups-IsAccounted :
    (x : Closing) (c : Client) → IsAccounted c → IsAccounted (close_groups x c).0
unfolding close_groups
close_groups-IsAccounted x c h =
    let handles = orphans c.remote.pending c.groups in
    remove_all-IsAccounted x.contexts x.cleanups (ids_of c.groups)
      (record c { remote = (retry_removals x.replies handles c.remote).0 })
      (
        h.0,
        h.1,
        h.2,
        retry_removals-IsBalanced x.replies handles c.remote (λ w. weigh w c.groups) (h.3),
      )

pub Step-IsAccounted : {c d : Client} → Step c d → IsAccounted c → IsAccounted d
unfolding remove_group close_context
Step-IsAccounted (adding a c) h = add_group-IsAccounted a c h
Step-IsAccounted (removing context cleanup id c) h = elim (Bool-cases c.closed) [
  | inl e ↦ simp (e, remove_group) h
  | inr e ↦ simp (e, remove_group) (remove_internal-IsAccounted context cleanup id c h)
]
Step-IsAccounted (closing x c) h = elim (Bool-cases c.closed) [
  | inl e ↦ simp (e, close_context) h
  | inr e ↦ elim (Option-cases x.context) [
    | inr (f, k) ↦ simp (e, k, close_context) h
    | inl k ↦ simp (e, k, close_context) (close_groups-IsAccounted x (record c { closed = true }) h)
  ]
]
Step-IsAccounted (finishing x c) h = close_groups-IsAccounted x c h

pub Lives-IsAccounted : {c d : Client} → Lives c d → IsAccounted c → IsAccounted d
Lives-IsAccounted here h = h
Lives-IsAccounted (next s l) h = Lives-IsAccounted l (Step-IsAccounted s h)

pub new_client-IsAccounted : (p : Pinger) → IsAccounted (new_client p)
unfolding find weigh total mark
new_client-IsAccounted p = (
  tt,
  (λ id l. refl),
  (λ id g e. cc),
  ((λ w. omega arith), (λ w. omega arith), (λ oid. omega arith), λ h. omega arith),
)
