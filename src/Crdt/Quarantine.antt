-- ===== src/Crdt/Quarantine.antt =====
-- src/cks_runtime/crdt/quarantine.py over the in-memory store. The validator of the engine is a
-- parameter; a live object reaches it wrapped in a structure of its own. Log lines are left out.
pub mod Batch
mod Tests
use cks_runtime.Prelude.{
  ℕ, ◌+◌, List, [], ◌∷◌, Bool, true, false, Option, none, some, ◌&&◌, if◌then◌else◌,
}
use cks_runtime.Result.{Result, ok, raise}
use cks_runtime.Crdt.MerkleTree.{Codes}
use cks_runtime.Crdt.Store.{Objects, Payload, object_id_for, InMemoryCrdtStore, add_object}

-- What a validator gives: a Boolean, or an object that may have the two attributes.
pub data Report : Type 0 where
  flag : Bool → Report
  fields : (is_valid valid : Option Bool) → Report

-- `none` where there is no callable `validate`; a call gives `none` where it raises.
abbrev pub Validator : Objects → Type 0
Validator o = Option (Payload o → Option Report)

abbrev pub accepted : Option Report → Bool
accepted none = false
accepted (some (flag b)) = b
accepted (some (fields (some is_valid) valid)) = is_valid
accepted (some (fields none (some valid))) = valid
accepted (some (fields none none)) = true

abbrev pub is_ok : Result Codes → Bool
is_ok (ok object_id) = true
is_ok (raise e) = false

module _ {o : Objects} where
  unfoldable pub is_structurally_valid : Validator o → Payload o → Bool
  is_structurally_valid none payload = true
  is_structurally_valid (some validate) payload = accepted (validate payload)

  -- `object_id_for` raises nothing but the two errors that are caught here.
  unfoldable pub has_consistent_identity : Payload o → Bool
  has_consistent_identity payload = is_ok (object_id_for payload)

  unfoldable pub validate_and_add :
      Validator o → InMemoryCrdtStore o → Payload o → InMemoryCrdtStore o × Result Bool
  validate_and_add cks store payload =
      if is_structurally_valid cks payload
      then (if has_consistent_identity payload then add_object store payload else (store, ok false))
      else (store, ok false)

  -- One more round of the loop, from what the first call and the rest of the loop gave.
  abbrev pub tally :
      InMemoryCrdtStore o
      → Result Bool
      → InMemoryCrdtStore o × Result ℕ
      → InMemoryCrdtStore o × Result ℕ
  tally after (raise e) rest = (after, raise e)
  tally after (ok added) (store, raise e) = (store, raise e)
  tally after (ok added) (store, ok admitted) =
      (store, ok (if added then 1 + admitted else admitted))

  unfoldable pub process_batch :
      Validator o → InMemoryCrdtStore o → List (Payload o) → InMemoryCrdtStore o × Result ℕ
  process_batch cks store [] = (store, ok 0)
  process_batch cks store (payload ∷ payloads) =
      let first = validate_and_add cks store payload in
      tally first.0 first.1 (process_batch cks first.0 payloads)
