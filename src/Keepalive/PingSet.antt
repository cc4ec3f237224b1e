-- ===== src/Keepalive/PingSet.antt =====
-- The ping set that the exporter keeps by the pinger's requests (keepalive.go).
use gopcda.Prelude.{
  ℕ, zero, suc, ◌+◌, ◌-◌, ◌≡◌, ◌⊎◌, inl, inr, refl, sym, ◌∙◌, Bool, true, false, Option, none, some,
  List, [], ◌∷◌, ◌==◌, take, ltb, not, ◌&&◌, ◌||◌, if◌then◌else◌, arith, Bool-cases, Option-cases,
  ==_iff,
}
use gopcda.Prelude.IntMap.{find, put, remove}
use gopcda.Errors.{Error}
use gopcda.Group.State.{Reply, failed, answered}
use gopcda.Keepalive.{
  Pinger, new_pinger, count_of, Ping, unless_failed, dispatch, change, add, release_object, tick,
}
use gopcda.Keepalive.Calls.{
  Call, adding, releasing, ticking, run_call, run_calls, count_of-put, count_of-remove,
}

unfoldable pub mentions : ℕ → List ℕ → Bool
mentions oid [] = false
mentions oid (x ∷ xs) = (x == oid) || mentions oid xs

-- Whether the exporter has the object in the ping set with this SetID, once it has carried out the
-- requests that it answered. A request with the SetID 0 opens a set, under the SetID of its answer;
-- of the two lists the exporter reads as many entries as the counts say.
unfoldable pub is_pinged : List (Ping × Reply ℕ) → ℕ → ℕ → Bool
unfolding mentions
is_pinged [] set oid = false
is_pinged ((r, failed e) ∷ rs) set oid = is_pinged rs set oid
is_pinged ((r, answered n) ∷ rs) set oid =
    let other = is_pinged rs set oid in
    let before = is_pinged rs r.set_id oid in
    if not (n == set)
    then other
    else if mentions oid (take r.add_to_set_count r.add_to_set)
    then true
    else if mentions oid (take r.delete_from_set_count r.delete_from_set)
    then false
    else if r.set_id == 0
    then false
    else before

-- What IObjectExporter::ComplexPing promises of the SetID in its answer: it is not 0, and it is that
-- of the request, if the request names a set.
abbrev pub Names : ℕ → Reply ℕ → Type 0
Names set (failed e) = Unit {0}
Names set (answered n) = ((n == 0) ≡ false) × (((set == 0) || (n == set)) ≡ true)

abbrev NamesFor : Call → ℕ → Type 0
NamesFor (adding w c r oid) set = Names set r
NamesFor (releasing w c r oid) set = Names set r
NamesFor (ticking f) set = Unit {0}

-- The answers to all calls are such.
abbrev pub AllNamed : List Call → Pinger → Type 0
AllNamed [] p = Unit {0}
AllNamed (c ∷ cs) p = NamesFor c p.set × AllNamed cs (run_call c p).0

-- While no ping has failed, the exporter has the object in the pinger's set if and only if it has a
-- count, and in no other set.
abbrev pub IsTracked : ℕ → ℕ → Pinger → Type 0
IsTracked set oid p =
    p.err ≡ none → is_pinged p.sent set oid ≡ ((set == p.set) && ltb 0 (count_of oid p.objects))

-- A pinger without a set has no objects.
abbrev IsOpen : ℕ → Pinger → Type 0
IsOpen oid p = p.err ≡ none → (p.set == 0) ≡ true → count_of oid p.objects ≡ 0

abbrev pub IsTracking : ℕ → Pinger → Type 0
IsTracking oid p = ((set : ℕ) → IsTracked set oid p) × IsOpen oid p

change_add-IsTracked :
    (set oid k n : ℕ) (p : Pinger)
    → Names p.set (answered n)
    → p.err ≡ none
    → count_of k p.objects ≡ 0
    → IsTracking oid p
    → is_pinged (dispatch (answered n) (k ∷ []) [] p).sent set oid
      ≡ ((set == n) && ltb 0 (if k == oid then 1 else count_of oid p.objects))
unfolding dispatch is_pinged mentions
change_add-IsTracked set oid k n p named healthy new h =
    let here = h.0 set healthy in
    let before = h.0 p.set healthy in
    let open_set = h.1 healthy in ground (arith, named.0, named.1, here, before, open_set)

change_delete-IsTracked :
    (set oid k n : ℕ) (p : Pinger)
    → Names p.set (answered n)
    → p.err ≡ none
    → IsTracking oid p
    → is_pinged (dispatch (answered n) [] (k ∷ []) p).sent set oid
      ≡ ((set == n) && ltb 0 (if k == oid then 0 else count_of oid p.objects))
unfolding dispatch is_pinged mentions
change_delete-IsTracked set oid k n p named healthy h =
    let here = h.0 set healthy in
    let before = h.0 p.set healthy in
    let open_set = h.1 healthy in ground (arith, named.0, named.1, here, before, open_set)

pub same_count : (set own m n : ℕ) → (m ≡ n) → ((set == own) && ltb 0 m) ≡ ((set == own) && ltb 0 n)
same_count set own m n e = rw e refl

module _ (oid k : ℕ) (p : Pinger) (h : IsTracking oid p) where
  recount :
      (n : ℕ)
      → ltb 0 n ≡ ltb 0 (count_of k p.objects)
      → IsTracking oid (record p { objects = put k n p.objects })
  recount n e = (
    (λ set healthy. ground (arith, e, h.0 set healthy, count_of-put k oid n p.objects)),
    λ healthy unset. ground (arith, e, h.1 healthy unset, count_of-put k oid n p.objects),
  )

  one_more :
      count_of k p.objects ≡ 0
      → (if k == oid then 1 else count_of oid p.objects)
        ≡ count_of oid (put k (count_of k p.objects + 1) p.objects)
  one_more new = rw (count_of-put k oid (count_of k p.objects + 1) p.objects, new) refl

  added :
      (n : ℕ)
      → Names p.set (answered n)
      → p.err ≡ none
      → count_of k p.objects ≡ 0
      → IsTracking oid (record (change none (answered n) (k ∷ []) [] p).0 {
        objects = put k (count_of k p.objects + 1) p.objects;
      })
  unfolding change dispatch
  added n named healthy new = (
    (λ set e.
        change_add-IsTracked set oid k n p named healthy new h
        ∙ same_count set n _ _ (one_more new)),
    λ e unset. absurd (ground (arith, named.0, unset)),
  )

  deleted :
      (n : ℕ)
      → Names p.set (answered n)
      → p.err ≡ none
      → IsTracking oid
          (record (change none (answered n) [] (k ∷ []) p).0 { objects = remove k p.objects })
  unfolding change dispatch
  deleted n named healthy = (
    (λ set e.
        change_delete-IsTracked set oid k n p named healthy h
        ∙ same_count set n _ _ (sym (count_of-remove k oid p.objects))),
    λ e unset. absurd (ground (arith, named.0, unset)),
  )

add-IsTracking :
    (oid : ℕ) (ctx : Option Error) (r : Reply ℕ) (k : ℕ) (p : Pinger)
    → Names p.set r
    → IsTracking oid p
    → IsTracking oid (add none ctx r (suc k) p).0
unfolding add change dispatch
add-IsTracking oid ctx r k p named h = elim (Option-cases p.err) [
  | inr (e, sick) ↦ rw (sick, add) h
  | inl healthy ↦ elim (Bool-cases (count_of (suc k) p.objects == 0)) [
    | inr old ↦
        rw (healthy, old, add)
          (recount oid (suc k) p h (count_of (suc k) p.objects + 1) (ground (arith, old)))
    | inl new ↦ rw (healthy, new, add) (first ctx r named healthy ((==_iff _ 0).0 new))
  ]
]
  where
    first :
        (c : Option Error) (reply : Reply ℕ)
        → Names p.set reply
        → p.err ≡ none
        → count_of (suc k) p.objects ≡ 0
        → IsTracking oid
            (unless_failed (change c reply (suc k ∷ []) [] p) (λ q. record q {
              objects = put (suc k) (count_of (suc k) q.objects + 1) q.objects;
            })).0
    first (some e) reply named healthy new = h
    first none (failed e) named healthy new = ((λ set k. cc), λ k unset. cc)
    first none (answered n) named healthy new = added oid (suc k) p h n named healthy new

release-IsTracking :
    (oid : ℕ) (ctx : Option Error) (r : Reply ℕ) (k : ℕ) (p : Pinger)
    → Names p.set r
    → IsTracking oid p
    → IsTracking oid (release_object none ctx r k p).0
unfolding release_object change dispatch
release-IsTracking oid ctx r k p named h = elim (Bool-cases (ltb 1 (count_of k p.objects))) [
  | inl many ↦
      rw (many, release_object)
        (recount oid k p h (count_of k p.objects - 1) (ground (arith, many)))
  | inr few ↦ elim (Bool-cases (count_of k p.objects == 0)) [
    | inl unknown ↦ rw (few, unknown, release_object) h
    | inr last ↦ rw (few, last, release_object) (dropped ctx r named)
  ]
]
  where
    dropped :
        (c : Option Error) (reply : Reply ℕ)
        → Names p.set reply
        → IsTracking oid
            (unless_failed
              (change c reply [] (k ∷ []) p)
              (λ q. record q { objects = remove k q.objects })).0
    dropped (some e) reply named = h
    dropped none (failed e) named = ((λ set k. cc), λ k unset. cc)
    dropped none (answered n) named = deleted_or_sick n named (Option-cases p.err)
      where
        deleted_or_sick :
            (m : ℕ)
            → Names p.set (answered m)
            → (p.err ≡ none) ⊎ ((e : Error) × (p.err ≡ some e))
            → IsTracking oid
                (record (change none (answered m) [] (k ∷ []) p).0 { objects = remove k p.objects })
        deleted_or_sick m named (inl healthy) = deleted oid k p h m named healthy
        deleted_or_sick m named (inr sick) = ((λ set k. cc (sick.1)), λ k unset. cc (sick.1))

tick-IsTracking :
    (oid : ℕ) (f : Option Error) (p : Pinger) → IsTracking oid p → IsTracking oid (tick f p)
unfolding tick
tick-IsTracking oid f p h = elim (Bool-cases (p.set == 0)) [
  | inl unset ↦ rw (unset, tick) h
  | inr set ↦ elim (Option-cases f) [
    | inl fine ↦ rw (set, fine, tick) h
    | inr (e, sick) ↦ rw (set, sick, tick) (((λ set k. cc), λ k unset. cc))
  ]
]

run_call-IsTracking :
    (oid : ℕ) (c : Call) (p : Pinger)
    → NamesFor c p.set
    → IsTracking oid p
    → IsTracking oid (run_call c p).0
unfolding run_call add release_object
run_call-IsTracking oid (adding (some e) ctx r o) p named h = h
run_call-IsTracking oid (adding none ctx r zero) p named h = h
run_call-IsTracking oid (adding none ctx r (suc k)) p named h = add-IsTracking oid ctx r k p named h
run_call-IsTracking oid (releasing (some e) ctx r o) p named h = h
run_call-IsTracking oid (releasing none ctx r o) p named h =
    release-IsTracking oid ctx r o p named h
run_call-IsTracking oid (ticking f) p named h = tick-IsTracking oid f p h

pub run_calls-IsTracking :
    (oid : ℕ) (calls : List Call) (p : Pinger)
    → AllNamed calls p
    → IsTracking oid p
    → IsTracking oid (run_calls calls p)
unfolding run_calls
run_calls-IsTracking oid [] p named h = h
run_calls-IsTracking oid (c ∷ cs) p named h =
    run_calls-IsTracking oid cs (run_call c p).0 (named.1) (run_call-IsTracking oid c p (named.0) h)

pub new_pinger-IsTracking : (oid : ℕ) → IsTracking oid new_pinger
unfolding is_pinged count_of find
new_pinger-IsTracking oid = ((λ set e. ground arith), λ e unset. refl)
