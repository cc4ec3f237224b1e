-- ===== src/Properties/Examples.antt =====
-- The theorems on item properties at concrete inputs.
use gopcda.Prelude.{ℕ, ◌≡◌, true, none, some, List, [], ◌∷◌}
use gopcda.Prelude.Int.{ℤ}
use gopcda.Errors.{cancelled}
use gopcda.Result.{Result, ok}
use gopcda.Group.State.{failed, answered}
use gopcda.Properties.{Available, PropertyValues, read_properties}
use gopcda.Properties.Paired.{IsComplete, read_properties-IsComplete}
use gopcda.Properties.Released.{Calls, item_properties, item_properties-IsReleased}
use gopcda.Values.Runtime.{Runtime}

abbrev dateless : Runtime
dateless = record {
  at_most_day = λ v day. true;
  at_least_day = λ v day. true;
  whole_days = λ v. ℤ.pos 0;
  day_millis = λ v. 0;
  add_fraction = λ day fraction. 0;
  sub_fraction = λ day fraction. 0;
  marshal_length = λ v. ok 24;
}

-- Two properties, of which the second cannot be read.
abbrev available : Result Available
available = ok (record {
  code = ℤ.pos 0;
  count = 2;
  ids = 1 ∷ 101 ∷ [];
  descriptions = (84 ∷ []) ∷ (68 ∷ []) ∷ [];
  data_types = 2 ∷ 8 ∷ [];
})

abbrev values : List ℕ → Result PropertyValues
values ids =
    ok (record { code = ℤ.pos 1; variants = none ∷ none ∷ []; errors = ℤ.pos 0 ∷ ℤ.negsuc 4 ∷ [] })

read_properties-IsComplete_example :
    IsComplete available (read_properties dateless (65 ∷ []) available values)
read_properties-IsComplete_example = read_properties-IsComplete dateless (65 ∷ []) available values

-- The interface belongs to another exporter than the server.
abbrev calls : Calls
calls = record {
  begin = none;
  context = none;
  has_remote_unknown = true;
  bind_remote = none;
  remote_client = none;
  query =
      answered
        (record { count = 1; present = true; hresult = ℤ.pos 0; reference = some ((21, 5), 8) });
  server_oxid = 9;
  bind_interface = none;
  read = ok [];
  close_interface = none;
  release = failed cancelled;
  close_remote = none;
}

item_properties-IsReleased_example :
    (item_properties (65 ∷ []) calls).released ≡ (item_properties (65 ∷ []) calls).acquired
item_properties-IsReleased_example = item_properties-IsReleased (65 ∷ []) calls
