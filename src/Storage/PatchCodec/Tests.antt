-- ===== src/Storage/PatchCodec/Tests.antt =====
-- A patch at concrete inputs.
use cks_runtime.Prelude.{All, List, [], ◌∷◌, true, ◌≡◌, refl}
use cks_runtime.Result.{ok}
use cks_runtime.Storage.PatchCodec.{
  Value, mapping, sequence, end, entry, nil, cons, Identity, Item, Operator, add_object,
  add_relation, remove_object, serialize_operators, deserialize_operators,
}
use cks_runtime.Storage.PatchCodec.Roundtrip.{
  IsFrozen, IsJson, deserialize_operators-serialize_operators,
}
use cks_runtime.Storage.PatchCodec.Small.{freeze, freeze-Freezes}

abbrev earth : Identity
earth = record { id = "earth"; type = "planet"; name = "Earth" }

abbrev log : Value
log = mapping true (entry "log" (sequence true (cons (mapping true end) nil)) end)

abbrev patch : List Operator
patch =
    remove_object "earth"
    ∷ add_object earth log
    ∷ add_relation earth ("earth" ∷ "sun" ∷ []) "orbits" (mapping true end)
    ∷ []

deserialize_operators-serialize_operators_example :
    (items : List Item) × (serialize_operators patch ≡ ok items)
    × All IsJson items
    × (deserialize_operators freeze items ≡ ok patch)
unfolding IsFrozen
deserialize_operators-serialize_operators_example =
    deserialize_operators-serialize_operators freeze freeze-Freezes patch
      (tt, ((refl, ((refl, ((refl, tt), tt)), tt)), ((refl, tt), tt)))
