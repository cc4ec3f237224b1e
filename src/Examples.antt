-- ===== src/Examples.antt =====
-- The theorems on values, qualities, the keepalive and the session at concrete inputs.
use gopcda.Prelude.{
  ◌^◌, ◌≤◌, ◌<◌, ◌≡◌, ◌≢◌, refl, ltb, ◌==◌, ◌&&◌, false, true, none, some, List, [], ◌∷◌, length,
  All, arith,
}
use gopcda.Prelude.Int.{ℤ}
use gopcda.Errors.{sentinel, wrapped, group_closed, cancelled, joined, write_acknowledged}
use gopcda.Result.{ok, err}
use gopcda.Values.Data.{Value, ArrayBound, WireVariant}
use gopcda.Values.Runtime.{Runtime}
use gopcda.Values.Layout.{array_count}
use gopcda.Values.Count.{product, LastFits, array_count-product}
use gopcda.Values.Encode.{write_variant}
use gopcda.Values.Decode.{scalar_value}
use gopcda.Values.RoundTrip.{scalar_value-write_variant}
use gopcda.Quality.{
  quality_description, quality_description-bits, quality_is_good, quality_is_bad,
  quality_is_uncertain, standard_text,
}
use gopcda.Group.State.{PersistentGroup, get_group, acquire, answered}
use gopcda.Keepalive.{new_pinger, count_of}
use gopcda.Keepalive.Calls.{Call, adding, releasing, ticking, run_calls, owned}
use gopcda.Keepalive.PingSet.{is_pinged, AllNamed}
use gopcda.Keepalive.Tracking.{run_calls-owned, is_pinged-run_calls}
use gopcda.Keepalive.Stop.{Ending, close_pinger, close_pinger-run_calls}
use gopcda.Single.{OneResponse, Exchange, write_item, unless_error, deferred}
use gopcda.Single.Outcome.{Tells, write_item-Tells}
use gopcda.Session.{Session, new_session, register_group, remove_group}
use gopcda.Session.Identity.{Reaches, here, next, registering, removed_group-IsRetired}

-- A runtime without DATE arithmetic.
abbrev dateless : Runtime
dateless = record {
  at_most_day = λ v day. true;
  at_least_day = λ v day. true;
  whole_days = λ v. ℤ.pos 0;
  day_millis = λ v. 0;
  add_fraction = λ day fraction. 0;
  sub_fraction = λ day fraction. 0;
  marshal_length = λ v. ok 24;
}

scalar_value-write_variant_example :
    (w : WireVariant) × (write_variant dateless (Value.int8 (ℤ.negsuc 4)) ≡ ok w)
    × (scalar_value dateless w ≡ ok (Value.int8 (ℤ.negsuc 4)))
scalar_value-write_variant_example =
    scalar_value-write_variant dateless (Value.int8 (ℤ.negsuc 4)) (omega arith, omega arith)

-- Three rows that begin at -1, of four columns.
abbrev grid : List ArrayBound
grid = record { lower = ℤ.negsuc 0; count = 3 } ∷ record { lower = ℤ.pos 0; count = 4 } ∷ []

array_count-product_example :
    (0 < length grid)
    × (length grid ≤ 32)
    × (12 ≡ product 1 grid)
    × (12 ≤ 2 ^ 20)
    × All LastFits grid
unfolding array_count
array_count-product_example = array_count-product grid 12 (omega arith, (omega arith, tt)) refl

-- 0xFFF1: Good with a reserved sub-status, all vendor bits and the low limit.
quality_description-bits_example :
    (quality_description (ℤ.negsuc 14) ≡ standard_text 3 12)
    × (quality_is_good (ℤ.negsuc 14) ≡ true)
    × (quality_is_bad (ℤ.negsuc 14) ≡ false)
    × (quality_is_uncertain (ℤ.negsuc 14) ≡ false)
quality_description-bits_example =
    quality_description-bits 255 3 12 1 (ℤ.negsuc 14) refl (omega arith) (omega arith) (omega arith)

-- Two references to one object, of which one is given back; another add is cancelled.
abbrev calls : List Call
calls =
    adding none none (answered 77) 5
    ∷ adding none none (answered 77) 5
    ∷ adding none (some cancelled) (answered 77) 6
    ∷ releasing none none (answered 77) 5
    ∷ ticking none
    ∷ []

run_calls-owned_example :
    count_of 5 (run_calls calls new_pinger).objects
    ≡ owned calls new_pinger 5 (count_of 5 new_pinger.objects)
run_calls-owned_example = run_calls-owned calls new_pinger 5

all_named : AllNamed calls new_pinger
unfolding run_calls
all_named = ((refl, refl), ((refl, refl), ((refl, refl), ((refl, refl), (tt, tt)))))

is_pinged-run_calls_example :
    is_pinged (run_calls calls new_pinger).sent 77 5
    ≡ ((77 == (run_calls calls new_pinger).set) && ltb 0 (owned calls new_pinger 5 0))
unfolding run_calls
is_pinged-run_calls_example = is_pinged-run_calls 77 5 calls all_named refl

abbrev empty_group : PersistentGroup
empty_group = record {
  closed = false;
  handle = 4;
  next_client_handle = 0;
  items = [];
  oid = 0;
  pinged = false;
  rate = 500;
}

abbrev one_group : Session
one_group = record { closed = false; next_group_id = 1; groups = (1, empty_group) ∷ [] }

registered : Reaches new_session (register_group empty_group new_session).0
registered = next (registering empty_group) here

abbrev clean_ending : Ending
clean_ending = record {
  waiting = none;
  context = none;
  reply = answered 77;
  close_connection = none;
}

close_pinger-run_calls_example :
    is_pinged (close_pinger clean_ending (run_calls calls new_pinger)).0.sent 77 5 ≡ false
unfolding run_calls
close_pinger-run_calls_example =
    close_pinger-run_calls calls clean_ending 77 5 77 all_named refl (omega arith) refl refl refl
      (refl, refl)

-- The first group is removed, its release fails, and another one is registered.
abbrev after_removal : Session
after_removal =
    (register_group empty_group
      (remove_group none (some cancelled) 1 (register_group empty_group new_session).0).0).0

removed_group-IsRetired_example :
    (get_group after_removal.groups 1 ≡ err (wrapped "" (sentinel group_closed)))
    × ((register_group empty_group after_removal).1 ≢ ok 1)
unfolding register_group get_group acquire
removed_group-IsRetired_example =
    removed_group-IsRetired (register_group empty_group new_session).0 after_removal none
      (some cancelled) 1 empty_group empty_group empty_group registered refl refl refl
      (next (registering empty_group) here)

abbrev accepted : OneResponse
accepted = record { has_result = true; has_error = true; item_error = ℤ.pos 0; hresult = ℤ.pos 0 }

-- The write is confirmed, and the connection of the item cannot be closed.
abbrev bad_cleanup : Exchange
bad_cleanup = record {
  begin = none;
  context = none;
  has_remote_unknown = true;
  bind_remote = none;
  remote_client = none;
  add_group = answered (ℤ.pos 0);
  decode_reference = none;
  same_exporter = true;
  bind_items = none;
  add_items = answered accepted;
  query = answered (record { has_entry = true; hresult = ℤ.pos 0; has_ipid = true });
  bind_sync = none;
  close_sync = none;
  close_items = some cancelled;
  release = none;
  remove_group = answered (ℤ.pos 0);
  close_remote = none;
}

acknowledged_write :
    (write_item dateless bad_cleanup (answered accepted) (Value.bool true)).1
    ≡ some (joined (sentinel write_acknowledged) cancelled)
unfolding write_item unless_error deferred
acknowledged_write = refl

write_item-Tells_example :
    Tells
      (write_item dateless bad_cleanup (answered accepted) (Value.bool true)).0.stage
      (write_item dateless bad_cleanup (answered accepted) (Value.bool true)).1
write_item-Tells_example =
    write_item-Tells dateless bad_cleanup (answered accepted) (Value.bool true)
