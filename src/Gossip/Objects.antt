-- ===== src/Gossip/Objects.antt =====
-- src/cks_runtime/gossip/adapter.py, `GossipAdapter`: what a remote session does to the object store,
-- with the in-memory store. The application's name of an identity is a parameter, and so are the
-- fresh ids of conflict events.
pub mod Bypass
pub mod Unclocked
mod Tests
use cks_runtime.Prelude.{
  ℕ, String, List, [], ◌∷◌, ◌++◌, Bool, true, false, Option, none, some, ◌==◌, string_eq,
  if◌then◌else◌, length, map, leb,
}
use cks_runtime.Dict.{Dict, keys, values}
use cks_runtime.Result.{Result, ok, raise}
use cks_runtime.Crdt.MerkleTree.{Codes}
use cks_runtime.Crdt.VersionVector.{VersionVector, Entry, from_dict}
use cks_runtime.Crdt.Register.{Pointer, Bucket, Pointers, update_pointer, get_pointers}
use cks_runtime.Crdt.Forks.{escalate_fork}
use cks_runtime.Crdt.Store.{Objects, Payload, live, object_id_for, InMemoryCrdtStore}
use cks_runtime.Crdt.Quarantine.{Validator, process_batch}

pub record CrdtForkDetected : Type 0 where
  pub pointer_key : String
  pub conflicting_object_ids : List Codes
  pub conflict_event_id : String

pub record Adapter (o : Objects) : Type 0 where
  pub replica_id : String
  pub crdt_store : InMemoryCrdtStore o
  pub published : List CrdtForkDetected

-- What the method reads of a remote session: its objects, and `metadata.get("crdt_version_vector")`.
pub record RemoteObjects (o : Objects) : Type 0 where
  pub objects : List o.Object
  pub crdt_version_vector : Option (Dict String Entry)

abbrev pub clock : Pointer → VersionVector
clock p = p.clock

module _ {o : Objects} (fresh_id : ℕ → String) where
  unfoldable pub handle_fork : Adapter o → String → List Codes → List VersionVector → Adapter o
  handle_fork self pointer_key object_ids vector_clocks =
      let event_id = fresh_id (length self.published) in
      record self {
        crdt_store = record self.crdt_store {
          conflict_events =
              escalate_fork self.crdt_store.conflict_events event_id pointer_key object_ids
                vector_clocks;
        };
        published =
            self.published
            ++ record {
              pointer_key = pointer_key;
              conflicting_object_ids = object_ids;
              conflict_event_id = event_id;
            }
              ∷ [];
      }

  -- The rest of `_detect_and_handle_fork`, from what `get_pointers` gave.
  abbrev pub fork_of : Adapter o → String → Bucket → Adapter o
  fork_of self pointer_key pointers =
      if leb (length pointers) 1
      then self
      else handle_fork self pointer_key (keys pointers) (map clock (values pointers))

  unfoldable pub detect_and_handle_fork : Adapter o → String → Adapter o
  detect_and_handle_fork self pointer_key =
      fork_of self pointer_key (get_pointers self.crdt_store.pointers pointer_key)

  -- The rest of a round, from what `update_pointer` gave.
  abbrev pub after_write : Adapter o → String → Pointers × Bool → Adapter o
  after_write self pointer_key (pointers, added) =
      let written = record self { crdt_store = record self.crdt_store { pointers = pointers } } in
      if added then detect_and_handle_fork written pointer_key else written

  -- A round for an object, from its id; a TypeError of `object_id_for` skips the object, and the
  -- mismatch is not raised for live objects.
  abbrev pub write_pointer : Adapter o → VersionVector → String → Result Codes → Adapter o
  write_pointer self remote_vv pointer_key (raise e) = self
  write_pointer self remote_vv pointer_key (ok object_id) =
      after_write self pointer_key
        (update_pointer self.crdt_store.pointers pointer_key object_id remote_vv self.replica_id)

  module _ (name : o.Identity → String) where
    unfoldable pub advance_pointer : Adapter o → VersionVector → o.Object → Adapter o
    advance_pointer self remote_vv obj =
        let pointer_key = name (o.identity obj) in
        if pointer_key == ""
        then self
        else write_pointer self remote_vv pointer_key (object_id_for {o = o} (live obj))

    unfoldable pub advance_pointers : Adapter o → VersionVector → List o.Object → Adapter o
    advance_pointers self remote_vv [] = self
    advance_pointers self remote_vv (obj ∷ objs) =
        advance_pointers (advance_pointer self remote_vv obj) remote_vv objs

    -- The rest of the method, from what `process_batch` gave.
    abbrev pub after_batch :
        Adapter o → RemoteObjects o → InMemoryCrdtStore o × Result ℕ → Adapter o × Result ℕ
    after_batch self remote (store, raise e) = (record self { crdt_store = store }, raise e)
    after_batch self remote (store, ok admitted) = (
      advance_pointers (record self { crdt_store = store }) (from_dict remote.crdt_version_vector)
          remote.objects,
      ok admitted,
    )

    unfoldable pub merge_crdt_objects :
        Validator o → Adapter o → RemoteObjects o → Adapter o × Result ℕ
    merge_crdt_objects cks self remote =
        after_batch self remote (process_batch cks self.crdt_store (map live remote.objects))
