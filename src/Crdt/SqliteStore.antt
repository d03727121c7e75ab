-- ===== src/Crdt/SqliteStore.antt =====
-- src/cks_runtime/crdt/crdt_store.py, `SQLiteCRDTStore`: the objects with their Merkle tree, and the
-- vectors. A row of a table is an entry of a dictionary; the SQL texts, commits, retries and the
-- columns with the type and the time of an object are left out. Whether `json.dumps` takes a record is
-- a parameter: it raises a TypeError on one that holds a frozen mapping.
pub mod Agreement
mod Tests
use cks_runtime.Prelude.{
  ℕ, ◌+◌, String, List, [], ◌∷◌, Bool, true, false, not, Option, none, some, string_eq, codes_eq,
  if◌then◌else◌,
}
use cks_runtime.Dict.{Dict, get, put, has, values}
use cks_runtime.Result.{
  Error, Result, ok, raise, bad_payload, identity_mismatch, bad_object_id, type_error,
}
use cks_runtime.Crdt.MerkleTree.{Codes, Table, update_merkle_path}
use cks_runtime.Crdt.MerkleTree as Tree
use cks_runtime.Crdt.VersionVector.{VersionVector, Entry, to_dict, from_dict}
use cks_runtime.Crdt.Store.{Objects, Record, Payload, object_id_for, serialize_object}

pub record SqliteCrdtStore (o : Objects) : Type 0 where
  pub knowledge_objects : Dict Codes (Record o)
  pub crdt_state : Dict String (Dict String Entry)
  pub merkle : Table

-- The exceptions that `merge_objects` skips.
abbrev pub is_caught : Error → Bool
is_caught bad_payload = true
is_caught identity_mismatch = true
is_caught type_error = true
is_caught e = false

module _ {o : Objects} where
  abbrev pub empty_store : SqliteCrdtStore o
  empty_store = record { knowledge_objects = []; crdt_state = []; merkle = [] }

  -- The end of `add_object`, from what `update_merkle_path` gave: it raises on an id that is not
  -- hexadecimal, and the row stays.
  abbrev pub with_path : SqliteCrdtStore o → Option Table → SqliteCrdtStore o × Result Bool
  with_path self none = (self, raise bad_object_id)
  with_path self (some merkle) = (record self { merkle = merkle }, ok true)

  unfoldable pub get_object : SqliteCrdtStore o → Codes → Option (Record o)
  get_object self object_id = get self.knowledge_objects object_id

  abbrev pub list_objects : SqliteCrdtStore o → List (Record o)
  list_objects self = values self.knowledge_objects

  unfoldable pub update_version_vector :
      SqliteCrdtStore o → String → VersionVector → SqliteCrdtStore o
  update_version_vector self node_id vv = record self {
    crdt_state = put self.crdt_state node_id (to_dict vv);
  }

  -- `none`, where there is no row, gives the empty vector too.
  unfoldable pub get_version_vector : SqliteCrdtStore o → String → VersionVector
  get_version_vector self node_id = from_dict (get self.crdt_state node_id)

  -- A round of the loop of `merge_objects`, from its first call and the rest of the loop.
  abbrev pub tally :
      SqliteCrdtStore o → Result Bool → SqliteCrdtStore o × Result ℕ → SqliteCrdtStore o × Result ℕ
  tally after (raise e) rest = if is_caught e then rest else (after, raise e)
  tally after (ok added) (store, raise e) = (store, raise e)
  tally after (ok added) (store, ok count) = (store, ok (if added then 1 + count else count))

  module _ (sha256 : Codes → Codes) (is_json : Record o → Bool) where
    -- The text of the record is made before the row is looked for.
    abbrev pub insert_object :
        SqliteCrdtStore o → Payload o → Result Codes → SqliteCrdtStore o × Result Bool
    insert_object self payload (raise e) = (self, raise e)
    insert_object self payload (ok object_id) =
        let record_of = serialize_object payload object_id in
        if not (is_json record_of)
        then (self, raise type_error)
        else if has self.knowledge_objects object_id
        then (self, ok false)
        else with_path
            (record self { knowledge_objects = put self.knowledge_objects object_id record_of })
            (update_merkle_path sha256 self.merkle object_id)

    unfoldable pub add_object : SqliteCrdtStore o → Payload o → SqliteCrdtStore o × Result Bool
    add_object self payload = insert_object self payload (object_id_for payload)

    unfoldable pub merge_objects :
        SqliteCrdtStore o → List (Payload o) → SqliteCrdtStore o × Result ℕ
    merge_objects self [] = (self, ok 0)
    merge_objects self (payload ∷ payloads) =
        let first = add_object self payload in
        tally first.0 first.1 (merge_objects first.0 payloads)

  module _ (sha256 : Codes → Codes) where
    abbrev pub get_root_hash : SqliteCrdtStore o → Codes
    get_root_hash self = Tree.get_root_hash sha256 self.merkle

    abbrev pub get_children_hashes : SqliteCrdtStore o → Codes → List Codes
    get_children_hashes self prefix = Tree.get_children_hashes sha256 self.merkle prefix
