-- ===== src/Lifecycle/Client/Accounts.antt =====
-- The accounts of a connection (group_dcom.go, keepalive.go) through its whole life: what the
-- server's answers handed out and made is given back once, or still held by a registered group.
use gopcda.Prelude.{
  ℕ, ◌+◌, ◌<◌, ◌≡◌, refl, sym, subst, ap, ◌∙◌, inl, inr, Bool, true, false, ◌||◌, Option, none,
  some, List, ◌==◌, arith, if◌then◌else◌, Bool-cases, Option-cases,
}
use gopcda.Prelude.IntMap.{find, put, remove, find-put, find-remove}
use gopcda.Errors.{Error, sentinel, group_closed}
use gopcda.Result.{ok, err, Result-cases, ◌>>=◌}
use gopcda.Group.State.{acquire}
use gopcda.Session.{max_int}
use gopcda.Lifecycle.{OpenGroup, Setup, open_group}
use gopcda.Lifecycle.Dispose.{
  Cleanup, dispose_group, after_opening, finish_opening, open_persistent_group,
}
use gopcda.Lifecycle.Opened.{pings, IsReleasable, open_group-IsOpened}
use gopcda.Lifecycle.Disposed.{carries}
use gopcda.Lifecycle.Granted.{open_group-IsFaithful}
use gopcda.Lifecycle.Client.{
  Client, Addition, register_opened, on_registered, on_opened, add_group, check_arguments,
  or_closed, hold, remove_internal,
}
use gopcda.Lifecycle.Client.Total.{
  total, weigh, IsUnique, weigh-put, put-IsUnique, weigh-remove, remove-IsUnique,
}
use gopcda.Lifecycle.Client.Balance.{
  IsBalanced, disposed-IsBalanced, opened-IsBalanced, unopened-IsBalanced,
}

-- A registered group can be released, every identity stands once and was given out, and the
-- resources balance.
abbrev pub IsAccounted : Client → Type 0
IsAccounted c =
    IsUnique c.groups
    × ((id : ℕ) → c.next_group_id < id → find id c.groups ≡ none)
    × ((id : ℕ) (g : OpenGroup) → find id c.groups ≡ some g → IsReleasable g)
    × IsBalanced c.remote (λ w. weigh w c.groups)

-- The same with one more group that is not registered.
abbrev IsAccountedWith : OpenGroup → Client → Type 0
IsAccountedWith g c =
    IsUnique c.groups
    × ((id : ℕ) → c.next_group_id < id → find id c.groups ≡ none)
    × ((id : ℕ) (g : OpenGroup) → find id c.groups ≡ some g → IsReleasable g)
    × (IsReleasable g × IsBalanced c.remote (λ w. w g + weigh w c.groups))

given_up-IsAccounted :
    (cleanup : Cleanup) (g : OpenGroup) (c : Client)
    → IsAccountedWith g c
    → IsAccounted (record c { remote = (dispose_group cleanup true g c.remote).0 })
given_up-IsAccounted cleanup g c h =
    (h.0, h.1, h.2, disposed-IsBalanced cleanup g c.remote (λ w. weigh w c.groups) (h.3.0) (h.3.1))

some_injective : (g u : OpenGroup) → some g ≡ some u → g ≡ u
some_injective g u h = cc

absent_put :
    (id k : ℕ) (g : OpenGroup) (groups : List (ℕ × OpenGroup))
    → (id == k) ≡ false
    → find k (put id g groups) ≡ find k groups
absent_put id k g groups e = find-put id k g groups ∙ rw e refl

found_put :
    (id k : ℕ) (g u : OpenGroup) (groups : List (ℕ × OpenGroup))
    → (id == k) ≡ true
    → find k (put id g groups) ≡ some u
    → g ≡ u
found_put id k g u groups e h = some_injective g u (sym (find-put id k g groups ∙ rw e refl) ∙ h)

registered-IsAccounted :
    (g : OpenGroup) (c : Client)
    → IsAccountedWith g c
    → IsAccounted (record c {
      next_group_id = c.next_group_id + 1;
      groups = put (c.next_group_id + 1) g c.groups;
    })
registered-IsAccounted g c h =
    let id = c.next_group_id + 1 in
    let fresh = h.1 id (omega arith) in
    (
      put-IsUnique id g c.groups fresh (h.0),
      (λ k l. ground (arith, l, find-put id k g c.groups, h.1 k)),
      (λ k u f. elim (Bool-cases (id == k)) [
        | inl e ↦ subst IsReleasable (found_put id k g u c.groups e f) (h.3.0)
        | inr e ↦ h.2 k u (sym (absent_put id k g c.groups e) ∙ f)
      ]),
      (
        (λ w. rw (weigh-put (λ u. total w u.refs) id g c.groups fresh) (h.3.1.0 w)),
        (λ w. rw (weigh-put (λ u. w u.registry.handle) id g c.groups fresh) (h.3.1.1 w)),
        (λ oid. rw (weigh-put (pings oid) id g c.groups fresh) (h.3.1.2 oid)),
        λ k. rw (weigh-put (carries k) id g c.groups fresh) (h.3.1.3 k),
      ),
    )

on_registered-IsAccounted :
    (cleanup : Cleanup) (g : OpenGroup) (c : Client)
    → IsAccountedWith g c
    → IsAccounted (on_registered cleanup g (register_opened g c)).0
unfolding on_registered register_opened
on_registered-IsAccounted cleanup g c h = elim (Bool-cases c.closed) [
  | inl a ↦ simp (a, register_opened, on_registered) (given_up-IsAccounted cleanup g c h)
  | inr a ↦ elim (Bool-cases (c.next_group_id == max_int)) [
    | inl b ↦ simp (a, b, register_opened, on_registered) (given_up-IsAccounted cleanup g c h)
    | inr b ↦ simp (a, b, register_opened, on_registered) (registered-IsAccounted g c h)
  ]
]

on_opened-IsAccounted :
    (setup : Setup) (cleanup : Cleanup) (late : Option Error) (meanwhile : Bool) (c : Client)
    → IsAccounted c
    → IsAccounted
        (on_opened cleanup late meanwhile c (open_persistent_group setup cleanup c.remote)).0
unfolding on_opened open_persistent_group finish_opening
on_opened-IsAccounted setup cleanup late meanwhile c h =
    let o = open_group setup c.remote.pinger in
    let opened = open_group-IsOpened setup c.remote.pinger in
    let faithful = open_group-IsFaithful setup c.remote.pinger in
    elim (Option-cases (open_group setup c.remote.pinger).error) [
      | inr (e, f) ↦
          let clean =
            unopened-IsBalanced cleanup o c.remote (λ w. weigh w c.groups) opened faithful (h.3) in
          elim (Option-cases
            (dispose_group cleanup o.created o.group (after_opening o c.remote)).1) [
              | inl z ↦
                  simp (f, open_persistent_group, finish_opening, z, on_opened)
                    (h.0, h.1, h.2, clean)
              | inr (e, z) ↦
                  simp (f, open_persistent_group, finish_opening, z, on_opened)
                    (h.0, h.1, h.2, clean)
            ]
      | inl f ↦
          let d : Client = record c {
            remote = after_opening o c.remote;
            closed = c.closed || meanwhile;
          } in
          let with_group =
            opened-IsBalanced o c.remote (λ w. weigh w c.groups) f opened faithful (h.3) in
          elim (Option-cases late) [
            | inr (e, l) ↦
                simp (f, l, open_persistent_group, finish_opening, on_opened)
                  (given_up-IsAccounted cleanup o.group d (h.0, h.1, h.2, (opened.1, with_group)))
            | inl l ↦
                simp (f, l, open_persistent_group, finish_opening, on_opened)
                  (on_registered-IsAccounted cleanup o.group d
                    (h.0, h.1, h.2, (opened.1, with_group)))
          ]
    ]

pub add_group-IsAccounted :
    (a : Addition) (c : Client) → IsAccounted c → IsAccounted (add_group a c).0
unfolding add_group
add_group-IsAccounted a c h = elim (Option-cases a.context) [
  | inr (e, i) ↦ rw (i, add_group) h
  | inl i ↦ elim (Option-cases a.keepalive) [
    | inr (e, j) ↦ rw (i, j, add_group) h
    | inl j ↦ elim (Option-cases (check_arguments a.arguments)) [
      | inr (e, k) ↦ rw (i, j, k, add_group) h
      | inl k ↦ elim (Bool-cases c.closed) [
        | inl l ↦ simp (i, j, k, l, add_group) h
        | inr l ↦
            simp (i, j, k, l, add_group)
              (on_opened-IsAccounted a.setup a.cleanup a.late a.closed_meanwhile c h)
      ]
    ]
  ]
]

ok_injective : (u g : OpenGroup) → ok u ≡ ok g → u ≡ g
ok_injective u g h = cc

unless_closed :
    (shut : Bool) (cause : Error) (u g : OpenGroup)
    → ((if shut then err cause else ok u.registry) >>= λ held. ok (record u { registry = held }))
      ≡ ok g
    → u ≡ g
unless_closed true cause u g h = cc
unless_closed false cause u g h = ok_injective u g h

held_group :
    (context : Option Error) (u g : OpenGroup)
    → (acquire context u.registry >>= λ held. ok (record u { registry = held })) ≡ ok g
    → u ≡ g
unfolding acquire
held_group (some e) u g h = cc
held_group none u g h = unless_closed u.registry.closed (sentinel group_closed) u g h

found_group :
    (found : Option OpenGroup) (context : Option Error) (g : OpenGroup)
    → (or_closed found >>= λ u.
        acquire context u.registry >>= λ held. ok (record u { registry = held }))
      ≡ ok g
    → found ≡ some g
found_group none context g h = cc
found_group (some u) context g h = ap some (held_group context u g h)

kept_remove :
    (id k : ℕ) (groups : List (ℕ × OpenGroup)) (u : OpenGroup)
    → find k (remove id groups) ≡ some u
    → find k groups ≡ some u
kept_remove id k groups u h = elim (Bool-cases (id == k)) [
  | inl e ↦ absurd (ground (arith, e, h, find-remove id k groups))
  | inr e ↦ ground (arith, e, h, find-remove id k groups)
]

hold-ok :
    (context : Option Error) (id : ℕ) (c : Client) (g : OpenGroup)
    → hold context id c ≡ ok g
    → find id c.groups ≡ some g
unfolding hold acquire
hold-ok context id c g h = found_group (find id c.groups) context g h

pub remove_internal-IsAccounted :
    (context : Option Error) (cleanup : Cleanup) (id : ℕ) (c : Client)
    → IsAccounted c
    → IsAccounted (remove_internal context cleanup id c).0
unfolding remove_internal
remove_internal-IsAccounted context cleanup id c h = elim (Result-cases (hold context id c)) [
  | inl (e, a) ↦ rw (a, remove_internal) h
  | inr (g, a) ↦
      let found = hold-ok context id c g a in
      rw (a, remove_internal)
        (
          remove-IsUnique id c.groups (h.0),
          (λ k l. ground (arith, find-remove id k c.groups, h.1 k l)),
          (λ k u f. h.2 k u (kept_remove id k c.groups u f)),
          disposed-IsBalanced cleanup g c.remote (λ w. weigh w (remove id c.groups))
              (h.2 id g found)
              (
                (λ w. rw (weigh-remove (λ u. total w u.refs) id g c.groups (h.0) found) (h.3.0 w)),
                (λ w.
                    rw (weigh-remove (λ u. w u.registry.handle) id g c.groups (h.0) found)
                      (h.3.1 w)),
                (λ oid. rw (weigh-remove (pings oid) id g c.groups (h.0) found) (h.3.2 oid)),
                λ k. rw (weigh-remove (carries k) id g c.groups (h.0) found) (h.3.3 k),
              ),
        )
]
