-- ===== src/Crdt/Store.antt =====
-- src/cks_runtime/crdt/crdt_store.py: the identity of an object, and the in-memory store. Its
-- pointers are those of Crdt/Register, its conflict events those of Crdt/Forks. Knowledge objects
-- are those of cks-core, so they are
-- parameters, and so is the digest. Log lines and time stamps are left out.
pub mod Levels
pub mod Tree
pub mod Identity
pub mod Cache
mod Tests
use cks_runtime.Prelude.{
  ℕ, zero, suc, ◌+◌, String, List, [], ◌∷◌, ◌++◌, Bool, true, false, not, Option, none, some, ◌==◌,
  string_eq, codes_eq, if◌then◌else◌, contains, take, map, select,
}
use cks_runtime.Dict.{Dict, get, get_or, put, has, keys, values}
use cks_runtime.Result.{Result, ok, raise, bad_payload, identity_mismatch}
use cks_runtime.Crdt.MerkleTree.{Codes, nibbles, id_hex_length, empty_subtree_hash, node_hash}
use cks_runtime.Crdt.VersionVector.{VersionVector}
use cks_runtime.Crdt.Register.{Pointers}
use cks_runtime.Crdt.Forks.{ConflictEvents}

-- What the code uses of cks-core.
pub record Objects : Type 1 where
  pub Object : Type 0
  pub Identity : Type 0
  pub Structure : Type 0
  pub identity : Object → Identity
  pub structure : Object → Structure
  -- `_hash.hex()`
  pub leaf_hash : Object → Codes
  -- `KnowledgeObject(identity, structure)`: `none` where it raises a KeyError, TypeError or
  -- ValueError, which are caught; it is taken to raise nothing else
  pub build : Identity → Structure → Option Object

-- The checks on a dictionary's claim, from the claim and from what was recomputed.
abbrev pub checked_id : Option Codes → Option Codes → Result Codes
checked_id none recomputed = raise bad_payload
checked_id (some claimed) none = raise bad_payload
checked_id (some claimed) (some recomputed) =
    if recomputed == claimed then ok claimed else raise identity_mismatch

abbrev pub is_new : Result Bool → ℕ
is_new (ok true) = 1
is_new (ok false) = 0
is_new (raise e) = 0

module _ (o : Objects) where
  abbrev pub rebuilt : Option o.Identity → Option o.Structure → Option Codes
  rebuilt (some identity) (some structure) = elim (o.build identity structure) [
    | none ↦ none
    | some obj ↦ some (o.leaf_hash obj)
  ]
  rebuilt (some identity) none = none
  rebuilt none structure = none

  -- A dictionary that describes an object; a field is `none` where it is missing or of another type.
  pub record Record : Type 0 where
    pub id : Option Codes
    pub identity : Option o.Identity
    pub structure : Option o.Structure

  pub data Payload : Type 0 where
    live : o.Object → Payload
    dict : Record → Payload
    other : Payload

module _ {o : Objects} where
  unfoldable pub recompute_dict_object_id : Record o → Option Codes
  recompute_dict_object_id r = rebuilt o r.identity r.structure

  unfoldable pub object_id_for : Payload o → Result Codes
  object_id_for (live obj) = ok (o.leaf_hash obj)
  object_id_for (dict r) = checked_id r.id (recompute_dict_object_id r)
  object_id_for other = raise bad_payload

  unfoldable pub serialize_object : Payload o → Codes → Record o
  serialize_object (dict r) object_id = r
  serialize_object (live obj) object_id = record {
    id = some object_id;
    identity = some (o.identity obj);
    structure = some (o.structure obj);
  }
  serialize_object other object_id = record {
    id = some object_id;
    identity = none;
    structure = none;
  }

-- The prefixes of a level, as the set comprehension `{oid[:level] for oid in objects}`.
abbrev pub prefixes : ℕ → List Codes → List Codes
prefixes level [] = []
prefixes level (object_id ∷ ids) =
    let rest = prefixes level ids in
    if contains rest (take level object_id) then rest else take level object_id ∷ rest

module _ (sha256 : Codes → Codes) where
  abbrev pub child : Dict Codes Codes → Codes → ℕ → Codes
  child nodes prefix nibble = get_or nodes (prefix ++ nibble ∷ []) (empty_subtree_hash sha256)

  unfoldable pub leaves : Dict Codes Codes → List Codes → Dict Codes Codes
  leaves nodes [] = nodes
  leaves nodes (object_id ∷ ids) = leaves (put nodes object_id object_id) ids

  unfoldable pub fill : Dict Codes Codes → List Codes → Dict Codes Codes
  fill nodes [] = nodes
  fill nodes (prefix ∷ rest) =
      fill (put nodes prefix (node_hash sha256 prefix (map (child nodes prefix) nibbles))) rest

  -- for level in range(level - 1, -1, -1)
  unfoldable pub fill_levels : Dict Codes Codes → List Codes → ℕ → Dict Codes Codes
  fill_levels nodes ids zero = nodes
  fill_levels nodes ids (suc level) = fill_levels (fill nodes (prefixes level ids)) ids level

  abbrev pub with_empty_root : List Codes → Dict Codes Codes → Dict Codes Codes
  with_empty_root [] nodes = put nodes [] (empty_subtree_hash sha256)
  with_empty_root (object_id ∷ ids) nodes = nodes

  -- `_rebuild_tree`, from the ids of the objects
  unfoldable pub rebuild : List Codes → Dict Codes Codes
  rebuild ids = with_empty_root ids (fill_levels (leaves [] ids) ids id_hex_length)

pub record InMemoryCrdtStore (o : Objects) : Type 0 where
  pub objects : Dict Codes (Record o)
  pub vectors : Dict String VersionVector
  pub tree_dirty : Bool
  pub nodes : Dict Codes Codes
  pub pointers : Pointers
  pub conflict_events : ConflictEvents

module _ {o : Objects} where
  abbrev pub empty_store : InMemoryCrdtStore o
  empty_store = record {
    objects = [];
    vectors = [];
    tree_dirty = true;
    nodes = [];
    pointers = [];
    conflict_events = [];
  }

  -- The rest of `add_object`, from what `object_id_for` gave.
  abbrev pub insert_object :
      InMemoryCrdtStore o → Payload o → Result Codes → InMemoryCrdtStore o × Result Bool
  insert_object self payload (raise e) = (self, raise e)
  insert_object self payload (ok object_id) =
      if has self.objects object_id then (self, ok false) else (
        record self {
          objects = put self.objects object_id (serialize_object payload object_id);
          tree_dirty = true;
        },
        ok true,
      )

  unfoldable pub add_object : InMemoryCrdtStore o → Payload o → InMemoryCrdtStore o × Result Bool
  add_object self payload = insert_object self payload (object_id_for payload)

  unfoldable pub get_object : InMemoryCrdtStore o → Codes → Option (Record o)
  get_object self object_id = get self.objects object_id

  abbrev pub list_objects : InMemoryCrdtStore o → List (Record o)
  list_objects self = values self.objects

  -- A payload that fails its checks is skipped.
  unfoldable pub merge_objects : InMemoryCrdtStore o → List (Payload o) → InMemoryCrdtStore o × ℕ
  merge_objects self [] = (self, 0)
  merge_objects self (payload ∷ payloads) =
      let first = add_object self payload in
      let rest = merge_objects first.0 payloads in (rest.0, is_new first.1 + rest.1)

  unfoldable pub update_version_vector :
      InMemoryCrdtStore o → String → VersionVector → InMemoryCrdtStore o
  update_version_vector self node_id vv = record self { vectors = put self.vectors node_id vv }

  unfoldable pub get_version_vector : InMemoryCrdtStore o → String → VersionVector
  get_version_vector self node_id = get_or self.vectors node_id (record { clocks = [] })

  module _ (sha256 : Codes → Codes) where
    unfoldable pub refresh : InMemoryCrdtStore o → InMemoryCrdtStore o
    refresh self =
        if self.tree_dirty
        then record self { nodes = rebuild sha256 (keys self.objects); tree_dirty = false }
        else self

    unfoldable pub get_root_hash : InMemoryCrdtStore o → InMemoryCrdtStore o × Codes
    get_root_hash self =
        let fresh = refresh self in (fresh, get_or fresh.nodes [] (empty_subtree_hash sha256))

    unfoldable pub get_children_hashes :
        InMemoryCrdtStore o → Codes → InMemoryCrdtStore o × List Codes
    get_children_hashes self prefix =
        let fresh = refresh self in (fresh, map (child sha256 fresh.nodes prefix) nibbles)
