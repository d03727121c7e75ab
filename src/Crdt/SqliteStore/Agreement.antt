-- ===== src/Crdt/SqliteStore/Agreement.antt =====
-- The store in SQLite against the store in memory (src/cks_runtime/crdt/crdt_store.py).
use cks_runtime.Prelude.{List, [], ◌≡◌, Bool, true, Option, none, some, codes_eq, All}
use cks_runtime.Dict.{Dict, keys}
use cks_runtime.Result.{Result, ok, raise}
use cks_runtime.Crdt.MerkleTree.{Codes, Table, update_all}
use cks_runtime.Crdt.Store as Memory
use cks_runtime.Crdt.Store.{
  Objects, Record, Payload, InMemoryCrdtStore, object_id_for, serialize_object,
}
use cks_runtime.Crdt.Store.Tree.{IsHex}
use cks_runtime.Crdt.SqliteStore.{SqliteCrdtStore, is_caught}

-- The errors of `object_id_for` are those that a merge skips.
abbrev skips : Result Codes → Bool
skips (ok i) = true
skips (raise e) = is_caught e

module _ (sha256 : Codes → Codes) where
  abbrev chain : Option Table → List Codes → Option Table
  chain found ids = elim found [ none ↦ none | some table ↦ update_all sha256 table ids ]

  module _ {o : Objects} (is_json : Record o → Bool) where
    -- What `json.dumps` is given for a payload that passes the checks on its id.
    abbrev takes : Payload o → Result Codes → Bool
    takes payload (raise e) = true
    takes payload (ok i) = is_json (serialize_object payload i)

    -- A payload that is refused for its id, or whose record can be written as JSON.
    abbrev pub is_storable : Payload o → Bool
    is_storable payload = takes payload (object_id_for payload)

    -- The same objects in the same order, and the table of their ids.
    record Matches (sql : SqliteCrdtStore o) (mem : InMemoryCrdtStore o) : Type 0 where
      rows : sql.knowledge_objects ≡ mem.objects
      tree : update_all sha256 [] (keys mem.objects) ≡ some sql.merkle
      hex : All IsHex (keys mem.objects)
