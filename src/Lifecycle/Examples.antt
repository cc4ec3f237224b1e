-- ===== src/Lifecycle/Examples.antt =====
-- The theorems on the life of a connection at concrete inputs.
use gopcda.Prelude.{◌≡◌, refl, true, false, none, some, [], ◌∷◌}
use gopcda.Prelude.Int.{ℤ}
use gopcda.Errors.{cancelled}
use gopcda.Result.{ok}
use gopcda.Group.State.{answered}
use gopcda.Keepalive.{new_pinger}
use gopcda.Lifecycle.{Setup}
use gopcda.Lifecycle.Dispose.{Cleanup}
use gopcda.Lifecycle.Client.{Client, Addition, Closing, add_group}
use gopcda.Lifecycle.Client.Life.{new_client}

-- A group with the handle 7 and three references, whose object 90 is pinged.
abbrev setup : Setup
setup = record {
  has_remote_unknown = true;
  bind_remote = none;
  remote_client = none;
  add_group = answered (record {
    hresult = ℤ.pos 0;
    handle = 7;
    rate = 500;
    reference = ok (record { reference = (21, 5); oid = 90; oxid = 4; flags = 0 });
  });
  server_oxid = 4;
  query = answered (
      some (record { hresult = ℤ.pos 0; reference = some (22, 5) })
      ∷ some (record { hresult = ℤ.pos 0; reference = some (23, 5) })
      ∷ []);
  bind_item = none;
  bind_sync = none;
  bind_state = none;
  waiting = none;
  context = none;
  ping = answered 3;
}

-- The release of the references fails.
abbrev cleanup : Cleanup
cleanup = record {
  close_state = none;
  close_sync = none;
  close_item = none;
  release = some cancelled;
  remove_group = answered (ℤ.pos 0);
  waiting = none;
  context = none;
  ping = answered 3;
  close_remote = none;
}

abbrev addition : Addition
addition = record {
  arguments = record { name = 103 ∷ []; rate = ℤ.pos 500; bad_deadband = false };
  context = none;
  keepalive = none;
  setup = setup;
  cleanup = cleanup;
  late = none;
  closed_meanwhile = false;
}

abbrev one_group : Client
one_group = (add_group addition (new_client new_pinger)).0

-- One group is registered.
registered : (add_group addition (new_client new_pinger)).1 ≡ ok 1
unfolding add_group
registered = refl

abbrev closing_all : Closing
closing_all = record {
  context = none;
  replies = λ h. answered (ℤ.pos 0);
  contexts = λ id. none;
  cleanups = λ id. cleanup;
  release_server = none;
  stop_keepalive = none;
  close_server = none;
}
