-- ===== src/Lifecycle/Client/Empty.antt =====
-- closeContext (keepalive.go) removes every group.
use gopcda.Prelude.{ℕ, ◌≡◌, refl, ◌∙◌, true, false, Option, none, some, List, [], ◌∷◌, arith}
use gopcda.Prelude.IntMap.{find, remove}
use gopcda.Errors.{Error}
use gopcda.Result.{ok}
use gopcda.Group.State.{acquire}
use gopcda.Lifecycle.{OpenGroup}
use gopcda.Lifecycle.Dispose.{Cleanup}
use gopcda.Lifecycle.Opened.{IsReleasable}
use gopcda.Lifecycle.Client.{
  Client, Closing, hold, remove_internal, remove_all, close_groups, close_context, orphans, ids_of,
  retry_removals,
}
use gopcda.Lifecycle.Client.Total.{IsUnique, remove-absent}
use gopcda.Lifecycle.Client.Accounts.{IsAccounted}

pub hold-open :
    (context : Option Error) (id : ℕ) (c : Client) (g : OpenGroup)
    → context ≡ none
    → find id c.groups ≡ some g
    → g.registry.closed ≡ false
    → hold context id c ≡ ok g
unfolding hold acquire
hold-open context id c g n f o = rw (f, n) (simp o refl)

pub remove_internal-groups :
    (context : Option Error) (cleanup : Cleanup) (id : ℕ) (c : Client) (g : OpenGroup)
    → hold context id c ≡ ok g
    → (remove_internal context cleanup id c).0.groups ≡ remove id c.groups
unfolding remove_internal
remove_internal-groups context cleanup id c g h = rw (h, remove_internal) refl

remove_all-clears :
    (contexts : ℕ → Option Error) (cleanups : ℕ → Cleanup) (m : List (ℕ × OpenGroup)) (c : Client)
    → ((id : ℕ) → contexts id ≡ none)
    → c.groups ≡ m
    → IsUnique m
    → ((id : ℕ) (g : OpenGroup) → find id m ≡ some g → IsReleasable g)
    → (remove_all contexts cleanups (ids_of m) c).0.groups ≡ []
unfolding remove_all ids_of find remove
remove_all-clears contexts cleanups [] c n e u r = e
remove_all-clears contexts cleanups ((id, g) ∷ m) c n e u r =
    let first = r id g (ground arith) in
    let held = hold-open (contexts id) id c g (n id) (rw e (ground arith)) (first.0) in
    remove_all-clears contexts cleanups m (remove_internal (contexts id) (cleanups id) id c).0 n
      (remove_internal-groups (contexts id) (cleanups id) id c g held
        ∙ rw e (ground (arith, remove-absent id m (u.0))))
      (u.1) (λ k h f. r k h (ground (arith, f, u.0)))

close_groups-clears :
    (x : Closing) (c : Client)
    → ((id : ℕ) → x.contexts id ≡ none)
    → IsAccounted c
    → (close_groups x c).0.groups ≡ []
unfolding close_groups
close_groups-clears x c n h =
    remove_all-clears x.contexts x.cleanups c.groups
      (record c {
        remote = (retry_removals x.replies (orphans c.remote.pending c.groups) c.remote).0;
      })
      n refl (h.0) (h.2)

pub close_context-clears :
    (x : Closing) (c : Client)
    → ((id : ℕ) → x.contexts id ≡ none)
    → x.context ≡ none
    → c.closed ≡ false
    → IsAccounted c
    → (close_context x c).0.groups ≡ []
unfolding close_context
close_context-clears x c n k e h =
    simp (e, k, close_context) (close_groups-clears x (record c { closed = true }) n h)
