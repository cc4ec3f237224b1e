-- ===== src/Lifecycle/Client/Balance.antt =====
-- How disposeGroup and openPersistentGroup (group_dcom.go) keep the balance of the resources.
use gopcda.Prelude.{ℕ, ◌+◌, ◌≤◌, ◌≡◌, ap, subst, Bool, true, false, none, List, arith}
use gopcda.Browse.Objects.{Reference}
use gopcda.Keepalive.{count_of}
use gopcda.Lifecycle.{OpenGroup, Opening}
use gopcda.Lifecycle.Dispose.{Cleanup, Remote, dispose_group, after_opening, made_alive}
use gopcda.Lifecycle.Opened.{pings, IsReleasable, IsOpened}
use gopcda.Lifecycle.Disposed.{handles_of, carries, carried, dispose_group-IsDisposed}
use gopcda.Lifecycle.Granted.{IsFaithful}
use gopcda.Lifecycle.Handles.{mark, mark-put}
use gopcda.Lifecycle.Client.Total.{total, total-append}

-- The resources, when `held` sums a weight over the groups that there are: each reference handed
-- out was released or is a group's, each group made was asked to be removed or is held (removals
-- that closeContext repeated apart), the pinger counts every object at least as often as groups have
-- it pinged, and a group that the server still has is held or pending.
abbrev pub IsBalanced : Remote → ((OpenGroup → ℕ) → ℕ) → Type 0
IsBalanced r held =
    ((w : Reference → ℕ) → total w r.taken ≡ total w r.released + held (λ g. total w g.refs))
    × ((w : ℕ → ℕ)
        → total w r.created + total w r.retried
          ≡ total w r.removed + held (λ g. w g.registry.handle))
    × ((oid : ℕ) → held (pings oid) ≤ count_of oid r.pinger.objects)
    × ((h : ℕ) → mark h r.alive ≤ held (carries h) + mark h r.pending)

pub disposed-IsBalanced :
    (c : Cleanup) (g : OpenGroup) (r : Remote) (held : (OpenGroup → ℕ) → ℕ)
    → IsReleasable g
    → IsBalanced r (λ w. w g + held w)
    → IsBalanced (dispose_group c true g r).0 held
unfolding total
disposed-IsBalanced c g r held h b =
    let d = dispose_group-IsDisposed c true g r h in
    (
      (λ w. rw (d.0, d.3) (omega (arith, b.0 w, total-append w g.refs r.released))),
      (λ w. rw (d.1, d.2, d.4) (omega (arith, b.1 w))),
      (λ oid. omega (arith, b.2 oid, d.5 oid)),
      λ h. d.6 h (held (carries h)) (b.3 h),
    )

made_alive-mark :
    (created : Bool) (g : OpenGroup) (h : ℕ) (alive : List (ℕ × Bool))
    → mark h (made_alive (handles_of created g) alive) ≤ carried created h g + mark h alive
unfolding made_alive
made_alive-mark true g h alive = ground (arith, mark-put g.registry.handle h true alive)
made_alive-mark false g h alive = omega arith

known_opened :
    (o : Opening) (r : Remote) (h n : ℕ)
    → IsFaithful o
    → mark h r.alive ≤ n + mark h r.pending
    → mark h (made_alive o.made r.alive) ≤ carried o.created h o.group + n + mark h r.pending
known_opened o r h n f l = rw (f.0) (omega (arith, l, made_alive-mark o.created o.group h r.alive))

pub opened-IsBalanced :
    (o : Opening) (r : Remote) (held : (OpenGroup → ℕ) → ℕ)
    → o.error ≡ none
    → IsOpened r.pinger o
    → IsFaithful o
    → IsBalanced r held
    → IsBalanced (after_opening o r) (λ w. w o.group + held w)
unfolding after_opening total
opened-IsBalanced o r held e h f b = (
  (λ w. omega (arith, b.0 w, total-append w o.granted r.taken, ap (total w) (f.1))),
  (λ w. omega (
    arith,
    b.1 w,
    total-append w o.made r.created,
    ap (total w) (f.0),
    ap (λ (k : Bool). total w (handles_of k o.group)) (h.0 e),
  )),
  (λ oid. omega (arith, b.2 oid, h.2 oid)),
  λ k.
      subst
        (λ (t : Bool).
          mark k (made_alive o.made r.alive)
          ≤ carried t k o.group + held (carries k) + mark k r.pending)
        (h.0 e) (known_opened o r k (held (carries k)) f (b.3 k)),
)

pub unopened-IsBalanced :
    (c : Cleanup) (o : Opening) (r : Remote) (held : (OpenGroup → ℕ) → ℕ)
    → IsOpened r.pinger o
    → IsFaithful o
    → IsBalanced r held
    → IsBalanced (dispose_group c o.created o.group (after_opening o r)).0 held
unfolding after_opening total
unopened-IsBalanced c o r held h f b =
    let d = dispose_group-IsDisposed c o.created o.group (after_opening o r) (h.1) in
    (
      (λ w.
          rw (d.0, d.3)
            (omega (
              arith,
              b.0 w,
              total-append w o.granted r.taken,
              ap (total w) (f.1),
              total-append w o.group.refs r.released,
            ))),
      (λ w.
          rw (d.1, d.2, d.4)
            (omega (
              arith,
              b.1 w,
              total-append w o.made r.created,
              ap (total w) (f.0),
              total-append w (handles_of o.created o.group) r.removed,
            ))),
      (λ oid. omega (arith, b.2 oid, h.2 oid, d.5 oid)),
      λ k. d.6 k (held (carries k)) (known_opened o r k (held (carries k)) f (b.3 k)),
    )
