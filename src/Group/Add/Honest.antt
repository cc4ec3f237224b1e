-- ===== src/Group/Add/Honest.antt =====
-- An item that addItems reports as added, and what keeps such a report true.
use gopcda.Prelude.{ℕ, zero, suc, ◌≡◌, false, none, some, List, [], ◌∷◌, All}
use gopcda.Prelude.Bytes.{Bytes, bytes_eq}
use gopcda.Prelude.Assoc.{Assoc, lookup}
use gopcda.Errors.{Error}
use gopcda.Group.State.{RegisteredItem}
use gopcda.Group.Add.{Item, public_item, modify_at, modify_all}

-- An item without an error is the public view of its registration.
abbrev pub IsHonest : Assoc RegisteredItem → Item → Type 0
IsHonest items it =
    it.error ≡ none
    → (v : RegisteredItem) × (lookup it.item_id items ≡ some v) × (it ≡ public_item it.item_id v)

-- Every registration of `old` stands in `new` as it was.
abbrev pub Extends : Assoc RegisteredItem → Assoc RegisteredItem → Type 0
Extends old new = (k : Bytes) (v : RegisteredItem) → lookup k old ≡ some v → lookup k new ≡ some v

abbrev pub Unregistered : Assoc RegisteredItem → List Bytes → Type 0
Unregistered items = All λ k. lookup k items ≡ none

abbrev pub DistinctIds : List Bytes → Type 0
DistinctIds [] = Unit {0}
DistinctIds (k ∷ ks) = All (λ j. bytes_eq k j ≡ false) ks × DistinctIds ks

pub refused-IsHonest :
    (items : Assoc RegisteredItem) (e : Error) (x : Item)
    → IsHonest items (record x { error = some e })
refused-IsHonest items e x h = cc

pub IsHonest-modify_at :
    (items : Assoc RegisteredItem) (j : ℕ) (f : Item → Item) (out : List Item)
    → ((x : Item) → IsHonest items (f x))
    → All (IsHonest items) out
    → All (IsHonest items) (modify_at j f out)
unfolding modify_at
IsHonest-modify_at items j f [] new h = tt
IsHonest-modify_at items zero f (x ∷ xs) new h = (new x, h.1)
IsHonest-modify_at items (suc j) f (x ∷ xs) new h = (h.0, IsHonest-modify_at items j f xs new h.1)

pub IsHonest-modify_all :
    (items : Assoc RegisteredItem) (js : List ℕ) (f : Item → Item) (out : List Item)
    → ((x : Item) → IsHonest items (f x))
    → All (IsHonest items) out
    → All (IsHonest items) (modify_all js f out)
unfolding modify_all
IsHonest-modify_all items [] f out new h = h
IsHonest-modify_all items (j ∷ js) f out new h =
    IsHonest-modify_all items js f _ new (IsHonest-modify_at items j f out new h)
