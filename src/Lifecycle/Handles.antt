-- ===== src/Lifecycle/Handles.antt =====
-- Sets of group handles (pendingRemovals of group_dcom.go, and the groups that the server has), with
-- the number of times, 0 or 1, that a handle stands in one.
use gopcda.Prelude.{ℕ, ◌≤◌, ◌≡◌, Bool, none, some, List, ◌==◌, arith, if◌then◌else◌}
use gopcda.Prelude.IntMap.{find, put, remove, find-put, find-remove}

unfoldable pub mark : ℕ → List (ℕ × Bool) → ℕ
unfolding find
mark h handles = elim (find h handles) [ none ↦ 0 | some t ↦ 1 ]

pub mark_le : (h : ℕ) (handles : List (ℕ × Bool)) → mark h handles ≤ 1
unfolding mark
mark_le h handles = ground arith

pub mark-put :
    (k h : ℕ) (t : Bool) (m : List (ℕ × Bool))
    → mark h (put k t m) ≡ (if k == h then 1 else mark h m)
unfolding mark
mark-put k h t m = ground (arith, find-put k h t m)

pub mark-remove :
    (k h : ℕ) (m : List (ℕ × Bool)) → mark h (remove k m) ≡ (if k == h then 0 else mark h m)
unfolding mark
mark-remove k h m = ground (arith, find-remove k h m)
