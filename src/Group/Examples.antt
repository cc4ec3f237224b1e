-- ===== src/Group/Examples.antt =====
-- Tests of the group operations on small groups, and the theorems at concrete inputs.
use gopcda.Prelude.{◌≡◌, refl, ℕ, true, false, none, some, List, [], ◌∷◌, map, All, arith}
use gopcda.Prelude.Int.{ℤ}
use gopcda.Prelude.Bytes.{Bytes, bytes_eq}
use gopcda.Prelude.Assoc.{Assoc, lookup}
use gopcda.Result.{ok}
use gopcda.Values.Data.{Value, wire, Arm}
use gopcda.Values.Runtime.{Runtime}
use gopcda.Group.Batches.{batches}
use gopcda.Group.State.{RegisteredItem, PersistentGroup, Reply, answered, admitted}
use gopcda.Group.Add.{AddResponse, add_locked, add_items}
use gopcda.Group.Add.Registry.{IsRegistry, add_locked-IsRegistry}
use gopcda.Group.Add.Honest.{IsHonest, Extends}
use gopcda.Group.Add.Handles.{add_locked-IsHonest}
use gopcda.Group.Add.Identity.{ids_of, add_items-ids}
use gopcda.Group.Read.{ReadResponse, read_locked}
use gopcda.Group.Read.Observed.{IsAnswer, read_locked-IsAnswer}
use gopcda.Group.Write.{WriteResponse, prepare, write, write_locked}
use gopcda.Group.Write.Coverage.{HasKey, write-covers}
use gopcda.Group.Write.Sent.{EndsOnce, planned, write_locked-EndsOnce}
use gopcda.Group.Write.Refused.{Treats}
use gopcda.Group.Write.Once.{DistinctSendings}
use gopcda.Group.Remove.{RemoveResponse, remove_locked}
use gopcda.Group.Remove.Confirmed.{IsConfirmed, remove_locked-IsConfirmed}

-- A runtime whose DATE operations know whole days only.
abbrev whole_day_runtime : Runtime
whole_day_runtime = record {
  at_most_day = λ v day. false;
  at_least_day = λ v day. false;
  whole_days = λ v. ℤ.pos v;
  day_millis = λ v. 0;
  add_fraction = λ day fraction. fraction;
  sub_fraction = λ day fraction. fraction;
  marshal_length = λ v. ok 24;
}

abbrev tank : Bytes
tank = 116 ∷ []

abbrev pump : Bytes
pump = 112 ∷ []

abbrev valve : Bytes
valve = 118 ∷ []

abbrev tank_item : RegisteredItem
tank_item = record { handle = 700; client = 1; rights = 3; canonical = 3 }

-- A group with one item.
abbrev one_item : PersistentGroup
one_item = record {
  closed = false;
  handle = 5;
  next_client_handle = 1;
  items = (tank, tank_item) ∷ [];
  oid = 0;
  pinged = false;
  rate = 1000;
}

-- The pump is registered, the valve is refused.
abbrev add_replies : ℕ → Reply AddResponse
add_replies k = answered record {
  items =
      record { handle = 701; canonical = 5; rights = 1 }
      ∷ record { handle = 0; canonical = 0; rights = 0 }
      ∷ [];
  errors = ℤ.pos 0 ∷ ℤ.negsuc 5 ∷ [];
  hresult = ℤ.pos 1;
}

abbrev wanted : List Bytes
wanted = pump ∷ tank ∷ valve ∷ pump ∷ []

abbrev read_replies : ℕ → Reply ReadResponse
read_replies k = answered record {
  states =
      record {
        time_low = 0;
        time_high = 0;
        quality = 192;
        variant = wire 3 3 (Arm.long (ℤ.pos 42));
      }
      ∷ [];
  errors = ℤ.pos 0 ∷ [];
  hresult = ℤ.pos 0;
}

abbrev write_replies : ℕ → Reply WriteResponse
write_replies k = answered record { errors = ℤ.pos 0 ∷ []; hresult = ℤ.pos 0 }

abbrev settings : Assoc Value
settings = (tank, Value.int32 (ℤ.pos 7)) ∷ (valve, Value.bool true) ∷ []

abbrev remove_replies : ℕ → Reply RemoveResponse
remove_replies k = answered record { errors = ℤ.pos 0 ∷ []; hresult = ℤ.pos 0 }

-- Tests.
added_handles :
    map (λ it. it.server_handle) (add_locked add_replies one_item wanted).0.out
    ≡ 701 ∷ 700 ∷ 0 ∷ 701 ∷ []
unfolding add_locked batches bytes_eq
added_handles = refl

read_values :
    map (λ r. r.value) (read_locked whole_day_runtime read_replies one_item (valve ∷ tank ∷ [])).0
    ≡ Value.nil ∷ Value.int32 (ℤ.pos 42) ∷ []
unfolding read_locked batches bytes_eq
read_values = refl

written_tank :
    lookup tank (write_locked whole_day_runtime write_replies one_item settings).0.result
    ≡ some none
unfolding write_locked batches bytes_eq
written_tank = refl

removed_tank : (remove_locked remove_replies one_item (tank ∷ valve ∷ [])).0.group.items ≡ []
unfolding remove_locked batches bytes_eq
removed_tank = refl

-- The theorems at these inputs.
one_item-IsRegistry : IsRegistry one_item
one_item-IsRegistry = record {
  fits = omega arith;
  bounded = (omega arith, tt);
  distinct = (tt, tt);
}

add_locked-IsRegistry_example : IsRegistry (add_locked add_replies one_item wanted).0.group
add_locked-IsRegistry_example =
    add_locked-IsRegistry add_replies one_item wanted one_item-IsRegistry

add_locked-IsHonest_example :
    All
      (IsHonest (add_locked add_replies one_item wanted).0.group.items)
      (add_locked add_replies one_item wanted).0.out
    × Extends ((tank, tank_item) ∷ []) (add_locked add_replies one_item wanted).0.group.items
add_locked-IsHonest_example = add_locked-IsHonest add_replies one_item wanted

add_items-ids_example :
    ids_of (add_items ((9, one_item) ∷ []) 9 none none add_replies wanted).1 ≡ wanted
unfolding admitted
add_items-ids_example =
    add_items-ids ((9, one_item) ∷ []) 9 none none add_replies wanted one_item refl

read_locked-IsAnswer_example :
    IsAnswer whole_day_runtime read_replies
      ((tank, tank_item) ∷ [])
      (valve ∷ tank ∷ [])
      (read_locked whole_day_runtime read_replies one_item (valve ∷ tank ∷ []))
read_locked-IsAnswer_example =
    read_locked-IsAnswer whole_day_runtime read_replies one_item (valve ∷ tank ∷ [])

write-covers_example :
    All
      (λ e.
        HasKey e.0
          (write whole_day_runtime
            ((9, one_item) ∷ [])
            9
            none
            none
            write_replies
            settings).0.result)
      settings
write-covers_example =
    write-covers whole_day_runtime ((9, one_item) ∷ []) 9 none none write_replies settings

write_locked-EndsOnce_example :
    DistinctSendings (planned whole_day_runtime one_item settings)
    × EndsOnce
        (planned whole_day_runtime one_item settings)
        (write_locked whole_day_runtime write_replies one_item settings)
    × All
        (λ e.
          Treats
            (prepare whole_day_runtime one_item.items e.0 e.1)
            e.0
            (planned whole_day_runtime one_item settings)
            (write_locked whole_day_runtime write_replies one_item settings).0.result)
        settings
unfolding bytes_eq
write_locked-EndsOnce_example =
    write_locked-EndsOnce whole_day_runtime write_replies one_item settings ((refl, tt), (tt, tt))

remove_locked-IsConfirmed_example :
    IsConfirmed
      ((tank, tank_item) ∷ [])
      (remove_locked remove_replies one_item (tank ∷ valve ∷ [])).0.group.items
      (remove_locked remove_replies one_item (tank ∷ valve ∷ [])).0.out
remove_locked-IsConfirmed_example =
    remove_locked-IsConfirmed remove_replies one_item (tank ∷ valve ∷ [])
