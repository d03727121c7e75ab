-- ===== src/Gossip/Objects/Tests.antt =====
-- Runs of the adapter's object part on objects that are numbers, all under one name.
use cks_runtime.Prelude.{
  ℕ, String, [], ◌∷◌, ◌≡◌, refl, false, none, some, length, codes_eq, string_eq,
}
use cks_runtime.Dict.{get, get_or, put, has, remove}
use cks_runtime.Crdt.VersionVector.{from_dict}
use cks_runtime.Crdt.Causality.{causality_check}
use cks_runtime.Crdt.Register.{
  get_pointers, update_pointer, update_bucket, scan, verdict, delete_all,
}
use cks_runtime.Crdt.Store.{Objects, empty_store, object_id_for}
use cks_runtime.Crdt.Quarantine.{
  Validator, flag, process_batch, validate_and_add, is_structurally_valid,
}
use cks_runtime.Gossip.Objects.{
  Adapter, RemoteObjects, merge_crdt_objects, advance_pointers, advance_pointer,
  detect_and_handle_fork,
}
use cks_runtime.Gossip.Objects.Bypass.{seen, merge_crdt_objects-bypass}
use cks_runtime.Gossip.Objects.Unclocked.{Calm, merge_crdt_objects-Calm}

abbrev numbers : Objects
numbers = record {
  Object = ℕ;
  Identity = ℕ;
  Structure = ℕ;
  identity = λ n. n;
  structure = λ n. n;
  leaf_hash = λ n. n ∷ [];
  build = λ i s. some s;
}

abbrev name : ℕ → String
name n = "k"

abbrev fresh_id : ℕ → String
fresh_id n = "event"

abbrev adapter : Adapter numbers
adapter = record { replica_id = "r"; crdt_store = empty_store; published = [] }

abbrev remote : RemoteObjects numbers
remote = record { objects = 1 ∷ 2 ∷ []; crdt_version_vector = none }

-- A validator that rejects everything.
abbrev refuse : Validator numbers
refuse = some (λ payload. some (flag false))

abbrev after : Adapter numbers
after = (merge_crdt_objects fresh_id name refuse adapter remote).0

-- The rejected objects are not in the store, and yet one of them is the pointer.
rejected_pointer :
    (length after.crdt_store.objects ≡ 0)
    × (length (get_pointers after.crdt_store.pointers "k") ≡ 1)
unfolding merge_crdt_objects process_batch validate_and_add is_structurally_valid advance_pointers
    advance_pointer detect_and_handle_fork object_id_for from_dict causality_check get_pointers
    update_pointer update_bucket scan verdict delete_all get get_or put has remove
rejected_pointer = (refl, refl)

merge_crdt_objects-bypass_example :
    seen (merge_crdt_objects fresh_id name refuse adapter remote).0
    ≡ seen (merge_crdt_objects fresh_id name none adapter remote).0
merge_crdt_objects-bypass_example =
    merge_crdt_objects-bypass fresh_id name refuse none adapter remote

merge_crdt_objects-Calm_example :
    Calm adapter (merge_crdt_objects fresh_id name none adapter remote).0
unfolding get_pointers get_or
merge_crdt_objects-Calm_example =
    merge_crdt_objects-Calm fresh_id name none adapter (1 ∷ 2 ∷ []) (λ key. tt)
