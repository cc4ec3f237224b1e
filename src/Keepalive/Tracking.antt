-- ===== src/Keepalive/Tracking.antt =====
-- The counts of the pinger, and the server's ping set, after any sequence of calls.
use gopcda.Prelude.{
  ℕ, zero, suc, ◌+◌, ◌-◌, ◌≡◌, refl, ap, ◌∙◌, none, some, List, [], ◌∷◌, ◌==◌, ltb, ◌&&◌, arith,
}
use gopcda.Prelude.IntMap.{find}
use gopcda.Group.State.{failed, answered}
use gopcda.Keepalive.{Pinger, new_pinger, count_of, dispatch, change, add, release_object, tick}
use gopcda.Keepalive.Calls.{
  Call, adding, releasing, ticking, run_call, run_calls, owned_after, owned, count_of-put,
  count_of-remove,
}
use gopcda.Keepalive.PingSet.{
  is_pinged, AllNamed, same_count, run_calls-IsTracking, new_pinger-IsTracking,
}

pub run_call-count :
    (c : Call) (p : Pinger) (oid : ℕ)
    → count_of oid (run_call c p).0.objects
      ≡ owned_after c (run_call c p).1 oid (count_of oid p.objects)
unfolding run_call owned_after add release_object change dispatch tick
run_call-count (adding (some e) ctx r o) p oid = refl
run_call-count (adding none ctx r zero) p oid = refl
run_call-count (adding none (some e) r (suc k)) p oid =
    ground (arith, count_of-put (suc k) oid (count_of (suc k) p.objects + 1) p.objects)
run_call-count (adding none none (failed e) (suc k)) p oid =
    ground (arith, count_of-put (suc k) oid (count_of (suc k) p.objects + 1) p.objects)
run_call-count (adding none none (answered n) (suc k)) p oid =
    ground (arith, count_of-put (suc k) oid (count_of (suc k) p.objects + 1) p.objects)
run_call-count (releasing (some e) ctx r o) p oid = refl
run_call-count (releasing none (some e) r o) p oid =
    ground (arith, count_of-put o oid (count_of o p.objects - 1) p.objects)
run_call-count (releasing none none (failed e) o) p oid =
    ground (arith, count_of-put o oid (count_of o p.objects - 1) p.objects)
run_call-count (releasing none none (answered n) o) p oid = ground (
  arith,
  count_of-put o oid (count_of o p.objects - 1) p.objects,
  count_of-remove o oid p.objects,
)
run_call-count (ticking f) p oid = ground arith

-- The references that callers own are the pinger's count of the object, whatever the calls meet:
-- an add or a release that returns an error leaves the count as it was.
pub run_calls-owned :
    (calls : List Call) (p : Pinger) (oid : ℕ)
    → count_of oid (run_calls calls p).objects ≡ owned calls p oid (count_of oid p.objects)
unfolding run_calls owned
run_calls-owned [] p oid = refl
run_calls-owned (c ∷ cs) p oid =
    run_calls-owned cs (run_call c p).0 oid
    ∙ ap (owned cs (run_call c p).0 oid) (run_call-count c p oid)

-- After any calls of a new pinger none of which has left a keepalive error, the exporter has an
-- object in the pinger's ping set if and only if callers own a reference to it, and has no object in
-- any other set; the SetIDs that the exporter answers with are those of the requests' sets.
pub is_pinged-run_calls :
    (set oid : ℕ) (calls : List Call)
    → AllNamed calls new_pinger
    → (run_calls calls new_pinger).err ≡ none
    → is_pinged (run_calls calls new_pinger).sent set oid
      ≡ ((set == (run_calls calls new_pinger).set) && ltb 0 (owned calls new_pinger oid 0))
unfolding count_of find
is_pinged-run_calls set oid calls named healthy =
    let tracking = run_calls-IsTracking oid calls new_pinger named (new_pinger-IsTracking oid) in
    tracking.0 set healthy
    ∙ same_count set (run_calls calls new_pinger).set _ _ (run_calls-owned calls new_pinger oid)
