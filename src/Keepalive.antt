-- ===== src/Keepalive.antt =====
-- keepalive.go: the reference counts and the remote ping set of objectPinger.
pub mod Calls
pub mod PingSet
pub mod Tracking
pub mod Stop
use gopcda.Prelude.{
  ℕ, zero, suc, ◌+◌, ◌-◌, ◌/◌, ◌%◌, ◌^◌, Bool, true, false, Option, none, some, List, [], ◌∷◌, ◌==◌,
  length, ltb, if◌then◌else◌,
}
use gopcda.Prelude.IntMap.{find, put, remove}
use gopcda.Errors.{Error, message, wrapped}
use gopcda.Group.State.{Reply, failed, answered}

-- ComplexPingRequest
pub record Ping : Type 0 where
  pub set_id : ℕ
  pub sequence_num : ℕ
  pub add_to_set_count : ℕ
  pub delete_from_set_count : ℕ
  pub add_to_set : List ℕ
  pub delete_from_set : List ℕ

-- objectPinger without its connection and its goroutine. `sent` is what it has sent to the object
-- exporter, with the answers, the newest request first.
pub record Pinger : Type 0 where
  pub set : ℕ
  pub sequence : ℕ
  pub objects : List (ℕ × ℕ)
  pub err : Option Error
  pub sent : List (Ping × Reply ℕ)

-- newObjectPinger
abbrev pub new_pinger : Pinger
new_pinger = record { set = 0; sequence = 0; objects = []; err = none; sent = [] }

-- p.objects[oid]: a missing key reads as 0.
unfoldable pub count_of : ℕ → List (ℕ × ℕ) → ℕ
unfolding find
count_of oid objects = elim (find oid objects) [ none ↦ 0 | some n ↦ n ]

-- p.sequence++, and the request of ComplexPing with uint16(len(...)) as its counts.
unfoldable pub dispatch : Reply ℕ → List ℕ → List ℕ → Pinger → Pinger
dispatch reply adds dels p =
    let n = (p.sequence + 1) % 2 ^ 16 in
    let request : Ping = record {
      set_id = p.set;
      sequence_num = n;
      add_to_set_count = length adds % 2 ^ 16;
      delete_from_set_count = length dels % 2 ^ 16;
      add_to_set = adds;
      delete_from_set = dels;
    } in
    record p { sequence = n; sent = (request, reply) ∷ p.sent }

-- change(ctx, add, del): the context's error before the dispatch, then the reply with its SetID.
unfoldable pub change : Option Error → Reply ℕ → List ℕ → List ℕ → Pinger → Pinger × Option Error
unfolding dispatch
change (some e) reply adds dels p = (p, some e)
change none (failed e) adds dels p = (
  record (dispatch (failed e) adds dels p) { err = some (wrapped "DCOM ComplexPing" e) },
  some (wrapped "DCOM ComplexPing" e),
)
change none (answered set) adds dels p =
    (record (dispatch (answered set) adds dels p) { set = set }, none)

abbrev pub unless_failed : Pinger × Option Error → (Pinger → Pinger) → Pinger × Option Error
unless_failed (p, none) f = (f p, none)
unless_failed (p, some e) f = (p, some e)

-- add(ctx, oid); `waiting` is the error of acquire.
unfoldable pub add : Option Error → Option Error → Reply ℕ → ℕ → Pinger → Pinger × Option Error
unfolding count_of change put
add (some e) context reply oid p = (p, some e)
add none context reply zero p = (p, some (message "missing OID for keepalive"))
add none context reply (suc k) p = elim p.err [
  | some e ↦ (p, some e)
  | none ↦
      let counted : Pinger → Pinger =
        λ q. record q { objects = put (suc k) (count_of (suc k) q.objects + 1) q.objects } in
      if count_of (suc k) p.objects == 0
      then unless_failed (change context reply (suc k ∷ []) [] p) counted
      else (counted p, none)
]

-- releaseObject(ctx, oid) of a session that has a pinger.
unfoldable pub release_object :
    Option Error → Option Error → Reply ℕ → ℕ → Pinger → Pinger × Option Error
unfolding count_of change put remove
release_object (some e) context reply oid p = (p, some e)
release_object none context reply oid p =
    if ltb 1 (count_of oid p.objects)
    then (record p { objects = put oid (count_of oid p.objects - 1) p.objects }, none)
    else if count_of oid p.objects == 0
    then (p, none)
    else unless_failed (change context reply [] (oid ∷ []) p)
        (λ q. record q { objects = remove oid q.objects })

-- One tick of run, the gate held: a SimplePing of the set, which may fail.
unfoldable pub tick : Option Error → Pinger → Pinger
tick failure p = if p.set == 0 then p else elim failure [
  | none ↦ p
  | some e ↦ record p { err = some (wrapped "DCOM keepalive failed; reconnect" e) }
]

-- retainObject of a session that has a pinger: an object with the flag SORF_NOPING is not pinged.
unfoldable pub retain_object :
    Option Error → Option Error → Reply ℕ → ℕ → ℕ → Pinger → Pinger × Option Error
unfolding add
retain_object waiting context reply oid flags p =
    if flags / 0x1000 % 2 == 0 then add waiting context reply oid p else (p, none)
