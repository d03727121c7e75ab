-- ===== src/Crdt/Quarantine/Tests.antt =====
-- Runs of the quarantine at concrete inputs.
use cks_runtime.Prelude.{ℕ, zero, suc, List, [], ◌∷◌, ◌≡◌, true, false, none, some, select}
use cks_runtime.Crdt.Store.{
  Objects, Payload, live, other, InMemoryCrdtStore, empty_store, merge_objects,
}
use cks_runtime.Crdt.Quarantine.{
  Validator, Report, flag, fields, is_structurally_valid, process_batch,
}
use cks_runtime.Crdt.Quarantine.Batch.{merged, process_batch-merge_objects}

abbrev numbers : Objects
numbers = record {
  Object = ℕ;
  Identity = ℕ;
  Structure = ℕ;
  identity = λ n. n;
  structure = λ n. n;
  leaf_hash = λ n. n ∷ [];
  build = λ i s. some s;
}

abbrev positive : Payload numbers → Report
positive (live zero) = fields (some false) none
positive (live (suc n)) = flag true
positive payload = fields none none

abbrev validator : Validator numbers
validator = some (λ payload. some (positive payload))

abbrev store : InMemoryCrdtStore numbers
store = empty_store

abbrev batch : List (Payload numbers)
batch = live 3 ∷ live 0 ∷ other ∷ live 3 ∷ []

process_batch-merge_objects_example :
    process_batch validator store batch
    ≡ merged (merge_objects store (select (is_structurally_valid validator) batch))
process_batch-merge_objects_example = process_batch-merge_objects validator store batch
