-- ===== src/Keepalive/Calls.antt =====
-- Sequences of calls of the pinger (keepalive.go), and the references that callers own after them.
use gopcda.Prelude.{ℕ, ◌+◌, ◌-◌, ◌≡◌, Option, none, List, [], ◌∷◌, ◌==◌, if◌then◌else◌, arith}
use gopcda.Prelude.IntMap.{put, remove, find-put, find-remove}
use gopcda.Errors.{Error}
use gopcda.Group.State.{Reply}
use gopcda.Keepalive.{Pinger, count_of, add, release_object, tick}

-- A call of the pinger with what it meets: the errors of acquire and of the context, the reply.
pub data Call : Type 0 where
  adding : Option Error → Option Error → Reply ℕ → ℕ → Call
  releasing : Option Error → Option Error → Reply ℕ → ℕ → Call
  ticking : Option Error → Call

unfoldable pub run_call : Call → Pinger → Pinger × Option Error
unfolding add release_object tick
run_call (adding w c r oid) p = add w c r oid p
run_call (releasing w c r oid) p = release_object w c r oid p
run_call (ticking f) p = (tick f p, none)

unfoldable pub run_calls : List Call → Pinger → Pinger
unfolding run_call
run_calls [] p = p
run_calls (c ∷ cs) p = run_calls cs (run_call c p).0

-- What a caller owns: one reference for each add that returned nil, less one for each release that
-- did.
unfoldable pub owned_after : Call → Option Error → ℕ → ℕ → ℕ
owned_after (adding w c r o) none oid n = if o == oid then n + 1 else n
owned_after (releasing w c r o) none oid n = if o == oid then n - 1 else n
owned_after _ _ oid n = n

-- The references to the object after the calls, n before them.
unfoldable pub owned : List Call → Pinger → ℕ → ℕ → ℕ
unfolding owned_after run_call
owned [] p oid n = n
owned (c ∷ cs) p oid n = let r = run_call c p in owned cs r.0 oid (owned_after c r.1 oid n)

pub count_of-put :
    (k j n : ℕ) (m : List (ℕ × ℕ)) → count_of j (put k n m) ≡ (if k == j then n else count_of j m)
unfolding count_of
count_of-put k j n m = ground (arith, find-put k j n m)

pub count_of-remove :
    (k j : ℕ) (m : List (ℕ × ℕ)) → count_of j (remove k m) ≡ (if k == j then 0 else count_of j m)
unfolding count_of
count_of-remove k j m = ground (arith, find-remove k j m)
