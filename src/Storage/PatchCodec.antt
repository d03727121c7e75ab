-- ===== src/Storage/PatchCodec.antt =====
-- src/cks_runtime/storage/patch_codec.py: the operators of a patch as JSON values and back. The
-- classes of the operators are the engine's; so is the freezing of a structure, which is a parameter.
pub mod Roundtrip
pub mod Small
mod Tests
use cks_runtime.Prelude.{
  String, string_eq, List, [], ◌∷◌, Bool, true, false, Option, none, some, ◌==◌, if◌then◌else◌,
}
use cks_runtime.Result.{Result, ok, raise, ◌>>=◌, type_error, unknown_operator, missing_key}

-- Values inside a structure. A mapping is a MappingProxyType where it is frozen and a dict elsewhere,
-- a sequence a tuple or a list.
mutual
  pub data Value : Type 0 where
    scalar : String → Value
    mapping : (frozen : Bool) → Entries → Value
    sequence : (frozen : Bool) → Values → Value

  pub data Entries : Type 0 where
    end : Entries
    entry : String → Value → Entries → Entries

  pub data Values : Type 0 where
    nil : Values
    cons : Value → Values → Values

-- `_thaw`
unfoldable mutual
  pub thaw : Value → Value
  thaw (scalar s) = scalar s
  thaw (mapping frozen entries) = mapping false (thaw_entries entries)
  thaw (sequence frozen values) = sequence false (thaw_values values)

  pub thaw_entries : Entries → Entries
  thaw_entries end = end
  thaw_entries (entry k v entries) = entry k (thaw v) (thaw_entries entries)

  pub thaw_values : Values → Values
  thaw_values nil = nil
  thaw_values (cons v values) = cons (thaw v) (thaw_values values)

pub record Identity : Type 0 where
  pub id : String
  pub type : String
  pub name : String

-- The four classes of the engine, and any other.
pub data Operator : Type 0 where
  add_object : Identity → (structure : Value) → Operator
  add_relation :
      Identity
      → (participants : List String) → (relation_type : String) → (structure : Value) → Operator
  remove_object : (object_id : String) → Operator
  remove_relation : (relation_id : String) → Operator
  unknown : Operator

-- A dictionary of the JSON list, by its keys.
pub record Item : Type 0 where
  pub type : String
  pub identity : Option Identity
  pub structure : Option Value
  pub participants : Option (List String)
  pub relation_type : Option String
  pub object_id : Option String
  pub relation_id : Option String

abbrev pub item : String → Item
item type = record {
  type = type;
  identity = none;
  structure = none;
  participants = none;
  relation_type = none;
  object_id = none;
  relation_id = none;
}

-- One round of the loop of `serialize_operators`.
unfoldable pub serialize_operator : Operator → Result Item
serialize_operator (add_object identity structure) =
    ok (record (item "add_object") { identity = some identity; structure = some (thaw structure) })
serialize_operator (add_relation identity participants relation_type structure) =
    ok (record (item "add_relation") {
      identity = some identity;
      participants = some participants;
      relation_type = some relation_type;
      structure = some (thaw structure);
    })
serialize_operator (remove_object object_id) =
    ok (record (item "remove_object") { object_id = some object_id })
serialize_operator (remove_relation relation_id) =
    ok (record (item "remove_relation") { relation_id = some relation_id })
serialize_operator unknown = raise type_error

unfoldable pub serialize_operators : List Operator → Result (List Item)
serialize_operators [] = ok []
serialize_operators (op ∷ ops) =
    serialize_operator op >>= λ i. serialize_operators ops >>= λ items. ok (i ∷ items)

-- item[key]
abbrev pub required {ℓ} : {A : Type ℓ} → Option A → Result A
required none = raise missing_key
required (some a) = ok a

-- item.get("structure", {})
abbrev pub structure_or_empty : Option Value → Value
structure_or_empty none = mapping false end
structure_or_empty (some v) = v

-- The constructors of the engine freeze a structure.
module _ (freeze : Value → Value) where
  unfoldable pub deserialize_operator : Item → Result Operator
  deserialize_operator i =
      if i.type == "add_object"
      then required i.identity
        >>= (λ identity. ok (add_object identity (freeze (structure_or_empty i.structure))))
      else if i.type == "add_relation"
      then required i.identity >>= (λ identity. required i.participants >>= λ participants.
          required i.relation_type >>= λ relation_type. ok (
            add_relation identity participants relation_type
              (freeze (structure_or_empty i.structure))))
      else if i.type == "remove_object"
      then required i.object_id >>= (λ object_id. ok (remove_object object_id))
      else if i.type == "remove_relation"
      then required i.relation_id >>= (λ relation_id. ok (remove_relation relation_id))
      else raise unknown_operator

  unfoldable pub deserialize_operators : List Item → Result (List Operator)
  deserialize_operators [] = ok []
  deserialize_operators (i ∷ items) =
      deserialize_operator i >>= λ op. deserialize_operators items >>= λ ops. ok (op ∷ ops)
