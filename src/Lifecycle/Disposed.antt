-- ===== src/Lifecycle/Disposed.antt =====
-- What disposeGroup (group_dcom.go) does to the connection's resources, and openPersistentGroup with
-- it.
use gopcda.Prelude.{
  ℕ, ◌+◌, ◌≤◌, ◌≡◌, refl, sym, subst, ap, ◌∙◌, inl, inr, Bool, true, false, not, ◌&&◌, Option, none,
  some, List, [], ◌∷◌, ◌++◌, ◌==◌, arith, if◌then◌else◌, Bool-cases,
}
use gopcda.Prelude.Int.{ℤ}
use gopcda.Errors.{Error}
use gopcda.Group.State.{Reply, failed, answered}
use gopcda.Browse.{is_code}
use gopcda.Browse.Objects.{Reference}
use gopcda.Keepalive.{Pinger, count_of, release_object}
use gopcda.Keepalive.Calls.{releasing, run_call, owned_after}
use gopcda.Keepalive.Tracking.{run_call-count}
use gopcda.Lifecycle.{OpenGroup}
use gopcda.Lifecycle.Dispose.{
  Cleanup, Remote, is_empty, release_references, remove_created, release_pinged, dispose_group,
  after_answer, settle, remove_remote_group,
}
use gopcda.Lifecycle.Handles.{mark, mark_le, mark-put, mark-remove}
use gopcda.Lifecycle.Opened.{pings, IsReleasable}

abbrev pub handles_of : Bool → OpenGroup → List ℕ
handles_of true g = g.registry.handle ∷ []
handles_of false g = []

-- Whether this is the group's handle, and whether it is one of a group that was created.
abbrev pub carries : ℕ → OpenGroup → ℕ
carries h g = if g.registry.handle == h then 1 else 0

abbrev pub carried : Bool → ℕ → OpenGroup → ℕ
carried true h g = carries h g
carried false h g = 0

-- Handles of groups that the server has are held by n groups or pending, with the group and after it.
abbrev StaysKnown : Bool → OpenGroup → Remote → Remote → Type 0
StaysKnown created g r s =
    (h n : ℕ)
    → mark h r.alive ≤ carried created h g + n + mark h r.pending
    → mark h s.alive ≤ n + mark h s.pending

-- The group's references were released and its removal requested, each once and nothing else, and
-- its object's count fell by what the group had in it at most.
abbrev pub IsDisposed : Bool → OpenGroup → Remote → Remote → Type 0
IsDisposed created g r s =
    (s.taken ≡ r.taken)
    × (s.created ≡ r.created)
    × (s.retried ≡ r.retried)
    × (s.released ≡ g.refs ++ r.released)
    × (s.removed ≡ handles_of created g ++ r.removed)
    × ((oid : ℕ) → count_of oid r.pinger.objects ≤ count_of oid s.pinger.objects + pings oid g)
    × StaysKnown created g r s

is_empty_sound : (refs : List Reference) → is_empty refs ≡ true → refs ≡ []
is_empty_sound [] h = refl
is_empty_sound (r ∷ rs) h = cc

release_references-disposes :
    (c : Cleanup) (g : OpenGroup) (r : Remote)
    → IsReleasable g
    → (release_references c g r).0 ≡ record r { released = g.refs ++ r.released }
unfolding release_references
release_references-disposes c g r (shut, inr h) = rw (h, release_references) refl
release_references-disposes c g r (shut, inl h) = elim (Bool-cases (is_empty g.refs)) [
  | inl e ↦ rw (is_empty_sound g.refs e, release_references) refl
  | inr e ↦ rw (e, h, release_references) refl
]

owned_after-releasing :
    (waiting context : Option Error) (ping : Reply ℕ) (oid object n : ℕ) (e : Option Error)
    → n
      ≤ owned_after (releasing waiting context ping oid) e object n
        + (if oid == object then 1 else 0)
unfolding owned_after
owned_after-releasing waiting context ping oid object n none = ground arith
owned_after-releasing waiting context ping oid object n (some e) = ground arith

release_object-count :
    (waiting context : Option Error) (ping : Reply ℕ) (oid : ℕ) (p : Pinger) (object : ℕ)
    → count_of object p.objects
      ≤ count_of object (release_object waiting context ping oid p).0.objects
        + (if oid == object then 1 else 0)
unfolding run_call
release_object-count waiting context ping oid p object =
    let after : Pinger × Option Error = release_object waiting context ping oid p in
    omega (
      arith,
      run_call-count (releasing waiting context ping oid) p object,
      owned_after-releasing waiting context ping oid object (count_of object p.objects) (after.1),
    )

release_pinged-count :
    (c : Cleanup) (g : OpenGroup) (r : Remote) (oid : ℕ)
    → count_of oid r.pinger.objects
      ≤ count_of oid (release_pinged c g r).0.pinger.objects + pings oid g
unfolding release_pinged pings
release_pinged-count c g r oid = elim (Bool-cases g.registry.pinged) [
  | inl h ↦
      rw (h, release_pinged)
        (ground
          (arith, release_object-count c.waiting c.context c.ping g.registry.oid r.pinger oid))
  | inr h ↦ rw (h, release_pinged) (omega arith)
]

-- Besides the pinger nothing changes.
release_pinged-keeps :
    (c : Cleanup) (g : OpenGroup) (r : Remote)
    → (release_pinged c g r).0 ≡ record r { pinger = (release_pinged c g r).0.pinger }
unfolding release_pinged
release_pinged-keeps c g r = elim (Bool-cases g.registry.pinged) [
  | inl h ↦ rw (h, release_pinged) refl
  | inr h ↦ rw (h, release_pinged) refl
]

abbrev without_pending : Remote → Remote
without_pending r = record r { pending = []; alive = [] }

remove_created-disposes :
    (c : Cleanup) (created : Bool) (g : OpenGroup) (r : Remote)
    → without_pending (remove_created c created g r).0
      ≡ without_pending (record r { removed = handles_of created g ++ r.removed })
unfolding remove_created
remove_created-disposes c true g r = refl
remove_created-disposes c false g r = refl

answer-StaysKnown :
    (reply : Reply ℤ) (k h n : ℕ) (alive pending : List (ℕ × Bool))
    → mark h alive ≤ (if k == h then 1 else 0) + n + mark h pending
    → mark h (after_answer k reply alive)
      ≤ n + mark h (settle k (remove_remote_group reply) pending)
unfolding after_answer settle remove_remote_group
answer-StaysKnown (failed e) k h n alive pending l =
    rw (mark-put k h true pending) (ground (arith, l, mark_le h alive))
answer-StaysKnown (answered code) k h n alive pending l = elim (Bool-cases (is_code 0 code)) [
  | inl e ↦
      simp (e, after_answer, remove_remote_group)
        (ground (arith, l, mark-remove k h alive, mark-remove k h pending))
  | inr e ↦
      simp (e, after_answer, remove_remote_group)
        (ground (arith, l, mark_le h alive, mark-put k h true pending))
]

remove_created-StaysKnown :
    (c : Cleanup) (created : Bool) (g : OpenGroup) (r : Remote)
    → StaysKnown created g r (remove_created c created g r).0
unfolding remove_created
remove_created-StaysKnown c true g r h n l =
    answer-StaysKnown c.remove_group g.registry.handle h n r.alive r.pending l
remove_created-StaysKnown c false g r h n l = omega (arith, l)

pub dispose_group-IsDisposed :
    (c : Cleanup) (created : Bool) (g : OpenGroup) (r : Remote)
    → IsReleasable g
    → IsDisposed created g r (dispose_group c created g r).0
unfolding dispose_group
dispose_group-IsDisposed c created g r h =
    let one = release_references c g r in
    let two = remove_created c created g (one.0) in
    let last = release_pinged-keeps c g (two.0) in
    let removed = remove_created-disposes c created g (one.0) in
    let released = release_references-disposes c g r h in
    (
      ap (λ s. s.taken) last ∙ ap (λ s. s.taken) removed ∙ ap (λ s. s.taken) released,
      ap (λ s. s.created) last ∙ ap (λ s. s.created) removed ∙ ap (λ s. s.created) released,
      ap (λ s. s.retried) last ∙ ap (λ s. s.retried) removed ∙ ap (λ s. s.retried) released,
      ap (λ s. s.released) last ∙ ap (λ s. s.released) removed ∙ ap (λ s. s.released) released,
      ap (λ s. s.removed) last
          ∙ (ap (λ s. s.removed) removed ∙ ap (λ s. handles_of created g ++ s.removed) released),
      λ oid.
          subst
            (λ p.
              count_of oid p.objects
              ≤ count_of oid (release_pinged c g (two.0)).0.pinger.objects + pings oid g)
            (ap (λ s. s.pinger) removed ∙ ap (λ s. s.pinger) released)
            (release_pinged-count c g (two.0) oid),
      λ h n l.
          subst (λ t. mark h t.alive ≤ n + mark h t.pending) (sym last)
            (remove_created-StaysKnown c created g (one.0) h n (
              subst (λ t. mark h t.alive ≤ carried created h g + n + mark h t.pending)
                (sym released) l)),
    )

release_references-alive :
    (c : Cleanup) (g : OpenGroup) (r : Remote) → (release_references c g r).0.alive ≡ r.alive
unfolding release_references
release_references-alive c g r = elim (Bool-cases (not (is_empty g.refs) && g.remote_client)) [
  | inl h ↦ rw (h, release_references) refl
  | inr h ↦ rw (h, release_references) refl
]

-- Whether the server still has the groups is settled by its answer to RemoveGroup alone.
pub dispose_group-alive :
    (c : Cleanup) (g : OpenGroup) (r : Remote)
    → (dispose_group c true g r).0.alive ≡ after_answer g.registry.handle c.remove_group r.alive
unfolding dispose_group remove_created
dispose_group-alive c g r =
    ap (λ s. s.alive)
      (release_pinged-keeps c g (remove_created c true g (release_references c g r).0).0)
    ∙ ap (after_answer g.registry.handle c.remove_group) (release_references-alive c g r)
