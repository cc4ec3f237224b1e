-- ===== src/Lifecycle/Client/Gone.antt =====
-- Which groups the server still has after closeContext (keepalive.go).
use gopcda.Prelude.{
  ℕ, ◌≤◌, ◌≡◌, ◌⊎◌, refl, sym, ap, subst, ◌∙◌, inl, inr, Bool, true, false, ◌||◌, Option, none,
  some, List, [], ◌∷◌, ◌==◌, arith, Bool-cases,
}
use gopcda.Prelude.Int.{ℤ}
use gopcda.Prelude.IntMap.{find, remove}
use gopcda.Errors.{Error}
use gopcda.Result.{ok, Result-cases}
use gopcda.Group.State.{Reply}
use gopcda.Lifecycle.{OpenGroup}
use gopcda.Lifecycle.Handles.{mark, mark_le, mark-remove}
use gopcda.Lifecycle.Dispose.{Cleanup, Remote, confirms, after_answer}
use gopcda.Lifecycle.Disposed.{carries, dispose_group-alive}
use gopcda.Lifecycle.Opened.{IsReleasable}
use gopcda.Lifecycle.Client.{
  Client, Closing, hold, remove_internal, remove_all, close_groups, close_context, is_active,
  orphans, ids_of, retry_removals,
}
use gopcda.Lifecycle.Client.Total.{weigh, IsUnique, remove-absent}
use gopcda.Lifecycle.Client.Accounts.{IsAccounted}
use gopcda.Lifecycle.Client.Life.{after_answer-le}
use gopcda.Lifecycle.Client.Empty.{hold-open, remove_internal-groups}

after_answer-gone :
    (h : ℕ) (reply : Reply ℤ) (alive : List (ℕ × Bool))
    → confirms reply ≡ true
    → mark h (after_answer h reply alive) ≡ 0
unfolding after_answer
after_answer-gone h reply alive e = rw (e, after_answer) (ground (arith, mark-remove h h alive))

equal_handles : (k h : ℕ) → (k == h) ≡ true → k ≡ h
equal_handles k h e = ground (arith, e)

-- The repeated removals.
retry_removals-le :
    (replies : ℕ → Reply ℤ) (handles : List ℕ) (r : Remote) (h : ℕ)
    → mark h (retry_removals replies handles r).0.alive ≤ mark h r.alive
unfolding retry_removals
retry_removals-le replies [] r h = omega arith
retry_removals-le replies (k ∷ ks) r h = omega (
  arith,
  after_answer-le h k (replies k) r.alive,
  retry_removals-le replies ks
      (record r {
        removed = k ∷ r.removed;
        retried = k ∷ r.retried;
        alive = after_answer k (replies k) r.alive;
      })
      h,
)

unfoldable pub member : ℕ → List ℕ → Bool
member h [] = false
member h (k ∷ ks) = k == h || member h ks

retry_removals-gone :
    (replies : ℕ → Reply ℤ) (handles : List ℕ) (r : Remote) (h : ℕ)
    → member h handles ≡ true
    → confirms (replies h) ≡ true
    → mark h (retry_removals replies handles r).0.alive ≡ 0
unfolding retry_removals member
retry_removals-gone replies [] r h m e = cc
retry_removals-gone replies (k ∷ ks) r h m e =
    let s : Remote = record r {
      removed = k ∷ r.removed;
      retried = k ∷ r.retried;
      alive = after_answer k (replies k) r.alive;
    } in
    elim (Bool-cases (k == h)) [
      | inl same ↦
          let gone : mark h s.alive ≡ 0 =
            subst (λ (j : ℕ). mark h (after_answer j (replies j) r.alive) ≡ 0)
              (sym (equal_handles k h same)) (after_answer-gone h (replies h) r.alive e) in
          omega (arith, gone, retry_removals-le replies ks s h)
      | inr other ↦ retry_removals-gone replies ks s h (ground (arith, m, other)) e
    ]

-- A pending handle that no registered group has is an orphan.
member-orphans :
    (h : ℕ) (pending : List (ℕ × Bool)) (groups : List (ℕ × OpenGroup))
    → 1 ≤ mark h pending
    → is_active h groups ≡ false
    → member h (orphans pending groups) ≡ true
unfolding member orphans mark find
member-orphans h [] groups l idle = absurd (omega (arith, l))
member-orphans h ((k, t) ∷ pending) groups l idle = elim (Bool-cases (k == h)) [
  | inl e ↦ ground (arith, e, idle, ap (λ j. is_active j groups) (equal_handles k h e))
  | inr e ↦ ground (arith, e, l, member-orphans h pending groups)
]

weigh-idle :
    (h : ℕ) (groups : List (ℕ × OpenGroup))
    → is_active h groups ≡ false
    → weigh (carries h) groups ≡ 0
unfolding weigh is_active
weigh-idle h [] idle = refl
weigh-idle h ((id, g) ∷ groups) idle = ground (arith, idle, weigh-idle h groups)

-- The removals of the groups.
remove_internal-le :
    (context : Option Error) (cleanup : Cleanup) (id : ℕ) (c : Client) (h : ℕ)
    → mark h (remove_internal context cleanup id c).0.remote.alive ≤ mark h c.remote.alive
unfolding remove_internal
remove_internal-le context cleanup id c h = elim (Result-cases (hold context id c)) [
  | inl (e, a) ↦ rw (a, remove_internal) (omega arith)
  | inr (g, a) ↦
      rw (a, remove_internal, dispose_group-alive cleanup g c.remote)
        (after_answer-le h g.registry.handle cleanup.remove_group c.remote.alive)
]

remove_internal-gone :
    (context : Option Error) (cleanup : Cleanup) (id : ℕ) (c : Client) (g : OpenGroup)
    → hold context id c ≡ ok g
    → confirms cleanup.remove_group ≡ true
    → mark g.registry.handle (remove_internal context cleanup id c).0.remote.alive ≡ 0
unfolding remove_internal
remove_internal-gone context cleanup id c g a e =
    rw (a, remove_internal, dispose_group-alive cleanup g c.remote)
      (after_answer-gone g.registry.handle cleanup.remove_group c.remote.alive e)

remove_all-le :
    (contexts : ℕ → Option Error) (cleanups : ℕ → Cleanup) (ids : List ℕ) (c : Client) (h : ℕ)
    → mark h (remove_all contexts cleanups ids c).0.remote.alive ≤ mark h c.remote.alive
unfolding remove_all
remove_all-le contexts cleanups [] c h = omega arith
remove_all-le contexts cleanups (id ∷ ids) c h = omega (
  arith,
  remove_internal-le (contexts id) (cleanups id) id c h,
  remove_all-le contexts cleanups ids (remove_internal (contexts id) (cleanups id) id c).0 h,
)

-- A registered group with the handle whose removal was not confirmed.
abbrev pub IsRefused : (ℕ → Cleanup) → List (ℕ × OpenGroup) → ℕ → Type 0
IsRefused cleanups groups h =
    (id : ℕ) × (g : OpenGroup) × (find id groups ≡ some g)
    × (g.registry.handle ≡ h)
    × (confirms (cleanups id).remove_group ≡ false)

remove_all-gone :
    (contexts : ℕ → Option Error) (cleanups : ℕ → Cleanup) (m : List (ℕ × OpenGroup)) (c : Client)
    (h : ℕ)
    → ((id : ℕ) → contexts id ≡ none)
    → c.groups ≡ m
    → IsUnique m
    → ((id : ℕ) (g : OpenGroup) → find id m ≡ some g → IsReleasable g)
    → is_active h m ≡ true
    → (mark h (remove_all contexts cleanups (ids_of m) c).0.remote.alive ≡ 0)
      ⊎ IsRefused cleanups m h
unfolding remove_all ids_of find remove is_active
remove_all-gone contexts cleanups [] c h n e u r active = cc
remove_all-gone contexts cleanups ((id, g) ∷ m) c h n e u r active =
    let first = r id g (ground arith) in
    let held = hold-open (contexts id) id c g (n id) (rw e (ground arith)) (first.0) in
    let d = (remove_internal (contexts id) (cleanups id) id c).0 in
    elim (Bool-cases (g.registry.handle == h)) [
      | inl same ↦ elim (Bool-cases (confirms (cleanups id).remove_group)) [
        | inr unconfirmed ↦
            inr (id, g, ground arith, equal_handles g.registry.handle h same, unconfirmed)
        | inl confirmed ↦
            let gone : mark h d.remote.alive ≡ 0 =
              subst (λ (j : ℕ). mark j d.remote.alive ≡ 0) (equal_handles g.registry.handle h same)
                (remove_internal-gone (contexts id) (cleanups id) id c g held confirmed) in
            inl (omega (arith, gone, remove_all-le contexts cleanups (ids_of m) d h))
      ]
      | inr other ↦
          elim (remove_all-gone contexts cleanups m d h n
            (remove_internal-groups (contexts id) (cleanups id) id c g held
              ∙ rw e (ground (arith, remove-absent id m (u.0))))
            (u.1) (λ k v f. r k v (ground (arith, f, u.0))) (ground (arith, active, other))) [
              | inl gone ↦ inl gone
              | inr (k, v, f, same, unconfirmed) ↦
                  inr (k, v, ground (arith, f, u.0), same, unconfirmed)
            ]
    ]

-- closeContext asked for the removal of the handle and got no confirmation: it repeated the request
-- for a pending handle that no group had, or it disposed of a registered group with the handle.
abbrev pub IsUnconfirmed : Closing → Client → ℕ → Type 0
IsUnconfirmed x c h =
    ((is_active h c.groups ≡ false)
      × (mark h c.remote.pending ≡ 1)
      × (confirms (x.replies h) ≡ false))
    ⊎ IsRefused x.cleanups c.groups h

close_groups-gone :
    (x : Closing) (c : Client)
    → ((id : ℕ) → x.contexts id ≡ none)
    → IsAccounted c
    → (h : ℕ)
    → (mark h (close_groups x c).0.remote.alive ≡ 0)
      ⊎ ((mark h c.remote.alive ≡ 1) × IsUnconfirmed x c h)
unfolding close_groups
close_groups-gone x c n acc h =
    let handles = orphans c.remote.pending c.groups in
    let r = (retry_removals x.replies handles c.remote).0 in
    let d : Client = record c { remote = r } in
    let retried = retry_removals-le x.replies handles c.remote h in
    let removed = remove_all-le x.contexts x.cleanups (ids_of c.groups) d h in
    let known = acc.3.3 h in
    elim (Bool-cases (mark h c.remote.alive == 0)) [
      | inl dead ↦ inl (ground (arith, dead, retried, removed))
      | inr was ↦
          let alive : mark h c.remote.alive ≡ 1 = ground (arith, was, mark_le h c.remote.alive) in
          elim (Bool-cases (is_active h c.groups)) [
            | inl active ↦
                elim (remove_all-gone x.contexts x.cleanups c.groups d h n refl (acc.0) (acc.2)
                  active) [ inl gone ↦ inl gone | inr refused ↦ inr (alive, inr refused) ]
            | inr idle ↦
                let pending : mark h c.remote.pending ≡ 1 =
                  omega
                    (arith, alive, known, weigh-idle h c.groups idle, mark_le h c.remote.pending) in
                elim (Bool-cases (confirms (x.replies h))) [
                  | inr unconfirmed ↦ inr (alive, inl (idle, pending, unconfirmed))
                  | inl confirmed ↦
                      let orphan =
                        member-orphans h c.remote.pending c.groups (omega (arith, pending)) idle in
                      inl (
                        omega (
                          arith,
                          removed,
                          retry_removals-gone x.replies handles c.remote h orphan confirmed,
                        ))
                ]
          ]
    ]

pub close_context-gone :
    (x : Closing) (c : Client)
    → ((id : ℕ) → x.contexts id ≡ none)
    → x.context ≡ none
    → c.closed ≡ false
    → IsAccounted c
    → (h : ℕ)
    → (mark h (close_context x c).0.remote.alive ≡ 0)
      ⊎ ((mark h c.remote.alive ≡ 1) × IsUnconfirmed x c h)
unfolding close_context
close_context-gone x c n k e acc h =
    simp (e, k, close_context) (close_groups-gone x (record c { closed = true }) n acc h)
