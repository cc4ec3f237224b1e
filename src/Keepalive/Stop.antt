-- ===== src/Keepalive/Stop.antt =====
-- The beginning and the end of the keepalive (keepalive.go): startKeepalive, keepaliveError,
-- stopKeepalive with close of objectPinger, and releaseServerReference. A session holds its pinger
-- as an Option; what a call outside the client gives is an argument.
use gopcda.Prelude.{
  ℕ, suc, ◌/◌, ◌%◌, ◌^◌, ◌<◌, ◌≡◌, refl, ap, ◌∙◌, Bool, false, not, Option, none, some, List, [],
  ◌∷◌, ◌==◌, length, take, arith, if◌then◌else◌, Bool-cases, inl, inr,
}
use gopcda.Prelude.IntMap.{find}
use gopcda.Errors.{Error, message, wrapped, join}
use gopcda.Group.State.{Reply, answered}
use gopcda.Keepalive.{Pinger, new_pinger, count_of, dispatch, change, add}
use gopcda.Keepalive.Calls.{Call, run_calls}
use gopcda.Keepalive.PingSet.{
  is_pinged, mentions, Names, AllNamed, IsTracking, run_calls-IsTracking, new_pinger-IsTracking,
}

-- keepaliveError
unfoldable pub keepalive_error : Option Pinger → Option Error
keepalive_error none = none
keepalive_error (some p) = p.err

-- The keys of p.objects.
unfoldable pub oids : List (ℕ × ℕ) → List ℕ
oids [] = []
oids ((oid, n) ∷ objects) = oid ∷ oids objects

abbrev delete_all : List ℕ → Option Error → Reply ℕ → Pinger → Pinger × Option Error
delete_all [] context reply p = (p, none)
delete_all (oid ∷ ids) context reply p = change context reply [] (oid ∷ ids) p

-- What closing a pinger meets: the error of acquire, those of the context and of ComplexPing, and
-- of the closing of the connection.
pub record Ending : Type 0 where
  pub waiting : Option Error
  pub context : Option Error
  pub reply : Reply ℕ
  pub close_connection : Option Error

-- close(ctx) of objectPinger, whose loop has ended.
unfoldable pub close_pinger : Ending → Pinger → Pinger × Option Error
unfolding oids change
close_pinger x p = elim x.waiting [
  | some e ↦ (p, join (some e) x.close_connection)
  | none ↦
      let deleted = delete_all (oids p.objects) x.context x.reply p in
      (deleted.0, join (deleted.1) x.close_connection)
]

-- stopKeepalive: the pinger that is left over, and the error. The session has no pinger afterwards.
unfoldable pub stop_keepalive : Ending → Option Pinger → Option Pinger × Option Error
unfolding close_pinger
stop_keepalive x none = (none, none)
stop_keepalive x (some p) = let closed = close_pinger x p in (some (closed.0), closed.1)

-- What startKeepalive meets; `waiting`, `context` and `reply` are those of add.
pub record Beginning : Type 0 where
  pub bind : Option Error
  pub client : Option Error
  pub server_oid : ℕ
  pub server_flags : ℕ
  pub waiting : Option Error
  pub context : Option Error
  pub reply : Reply ℕ
  pub late : Option Error
  pub ending : Ending

-- The deferred closing of a pinger that is not published.
unfoldable pub abandon : Beginning → Error → Pinger → Option Pinger × Option Error
unfolding close_pinger
abandon x e p = (none, join (some e) (close_pinger x.ending p).1)

unfoldable pub publish : Beginning → Pinger × Option Error → Option Pinger × Option Error
unfolding abandon
publish x (p, some e) = abandon x e p
publish x (p, none) = elim x.late [ some e ↦ abandon x e p | none ↦ (some p, none) ]

-- startKeepalive: the pinger of the session, and the error.
unfoldable pub start_keepalive : Beginning → Option Pinger × Option Error
unfolding publish add
start_keepalive x = elim x.bind [
  | some e ↦ (none, some e)
  | none ↦ elim x.client [
    | some e ↦ abandon x e new_pinger
    | none ↦ publish x (
        if x.server_flags / 0x1000 % 2 == 0
        then add x.waiting x.context x.reply x.server_oid new_pinger
        else (new_pinger, none))
  ]
]

-- What releaseServerReference meets: c.serverRefs, whether the IPIDs and the connection are there,
-- and the errors of the bind and of RemoteRelease.
pub record ServerReference : Type 0 where
  pub references : ℕ
  pub has_remote_unknown : Bool
  pub has_interface : Bool
  pub bind : Option Error
  pub release : Option Error

abbrev in_text : Option Error → Option Error
in_text none = none
in_text (some e) = some (wrapped "release activated server reference" e)

-- releaseServerReference: its error, and the references that it asked to be released.
unfoldable pub release_server_reference : ServerReference → Option Error × ℕ
release_server_reference s =
    if s.references == 0
    then (none, 0)
    else if not s.has_remote_unknown
    then (some (message "activation omitted IRemUnknown IPID for release"), 0)
    else if not s.has_interface
    then (some (message "activation omitted server interface for release"), 0)
    else elim s.bind [
      | some e ↦ (some (wrapped "bind IRemUnknown for server reference release" e), 0)
      | none ↦ (in_text s.release, s.references)
    ]

count_of-absent :
    (oid : ℕ) (objects : List (ℕ × ℕ))
    → mentions oid (oids objects) ≡ false
    → count_of oid objects ≡ 0
unfolding mentions oids count_of find
count_of-absent oid [] h = refl
count_of-absent oid ((k, n) ∷ objects) h = ground (arith, h, count_of-absent oid objects)

take_all : (ids : List ℕ) → take (length ids) ids ≡ ids
take_all [] = refl
take_all (k ∷ ids) = rw (take_all ids) refl

within_count : (n : ℕ) → n < 2 ^ 16 → n % 2 ^ 16 ≡ n
within_count n h = omega (arith, h)

-- The count of the request is right for fewer than 65536 objects.
all_counted : (ids : List ℕ) → length ids < 2 ^ 16 → take (length ids % 2 ^ 16) ids ≡ ids
all_counted ids h = rw (within_count (length ids) h) (take_all ids)

delete_all-clears :
    (ids : List ℕ) (set oid n : ℕ) (p : Pinger)
    → Names p.set (answered n)
    → length ids < 2 ^ 16
    → p.err ≡ none
    → IsTracking oid p
    → (mentions oid ids ≡ false → count_of oid p.objects ≡ 0)
    → is_pinged (delete_all ids none (answered n) p).0.sent set oid ≡ false
unfolding is_pinged change dispatch mentions
delete_all-clears [] set oid n p named short healthy h absent =
    h.0 set healthy ∙ ground (arith, absent refl)
delete_all-clears (k ∷ ids) set oid n p named short healthy h absent =
    let here = h.0 set healthy in
    let before = h.0 p.set healthy in
    let open_set = h.1 healthy in
    rw (all_counted (k ∷ ids) short) (elim (Bool-cases (mentions oid (k ∷ ids))) [
      | inl e ↦ ground (arith, e, named.0, named.1, here, before, open_set)
      | inr e ↦ ground (arith, e, absent e, named.0, named.1, here, before, open_set)
    ])

length-oids : (objects : List (ℕ × ℕ)) → length (oids objects) ≡ length objects
unfolding oids
length-oids [] = refl
length-oids ((k, n) ∷ objects) = ap suc (length-oids objects)

close_pinger-deletes :
    (x : Ending) (p : Pinger)
    → x.waiting ≡ none
    → (close_pinger x p).0 ≡ (delete_all (oids p.objects) x.context x.reply p).0
unfolding close_pinger
close_pinger-deletes x p w = rw (w, close_pinger) refl

-- After any calls of a new pinger none of which has left a keepalive error, a close of the pinger
-- whose request is answered leaves no object in any ping set of the exporter, if the pinger has
-- fewer than 65536 objects (the request counts them in a uint16) and the SetIDs that the exporter
-- answers with are those of the requests' sets.
pub close_pinger-run_calls :
    (calls : List Call) (x : Ending) (set oid n : ℕ)
    → AllNamed calls new_pinger
    → (run_calls calls new_pinger).err ≡ none
    → length (run_calls calls new_pinger).objects < 2 ^ 16
    → x.waiting ≡ none
    → x.context ≡ none
    → x.reply ≡ answered n
    → Names (run_calls calls new_pinger).set (answered n)
    → is_pinged (close_pinger x (run_calls calls new_pinger)).0.sent set oid ≡ false
close_pinger-run_calls calls x set oid n named healthy short w c r last =
    let p = run_calls calls new_pinger in
    let tracking = run_calls-IsTracking oid calls new_pinger named (new_pinger-IsTracking oid) in
    rw (close_pinger-deletes x p w, c, r)
      (delete_all-clears (oids p.objects) set oid n p last
        (omega (arith, short, length-oids p.objects)) healthy tracking
        (count_of-absent oid p.objects))
