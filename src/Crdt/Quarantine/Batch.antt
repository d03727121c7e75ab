-- ===== src/Crdt/Quarantine/Batch.antt =====
-- What a batch that goes through the quarantine (src/cks_runtime/crdt/quarantine.py) leaves.
use cks_runtime.Prelude.{
  ◌+◌, ℕ, codes_eq, List, [], ◌∷◌, ◌≡◌, refl, sym, ap, ◌∙◌, Bool, true, false, arith, Bool-cases,
  inl, inr, select, ◌==◌, nat_eq, if◌then◌else◌,
}
use cks_runtime.Dict.{has}
use cks_runtime.Result.{Result, ok, raise}
use cks_runtime.Crdt.MerkleTree.{Codes}
use cks_runtime.Crdt.Store.{
  Objects, Payload, object_id_for, InMemoryCrdtStore, insert_object, add_object, is_new,
  merge_objects,
}
use cks_runtime.Crdt.Quarantine.{
  Validator, is_ok, is_structurally_valid, has_consistent_identity, validate_and_add, tally,
  process_batch,
}

module _ {o : Objects} where
  -- Where the identity is consistent, the store does not raise, and elsewhere it does not change.
  checked-insert :
      (store : InMemoryCrdtStore o) (payload : Payload o) (found : Result Codes)
      → (if is_ok found then insert_object store payload found else (store, ok false)) ≡ (
        (insert_object store payload found).0,
        ok (is_new (insert_object store payload found).1 == 1),
      )
  checked-insert store payload (raise e) = refl
  checked-insert store payload (ok object_id) = elim (Bool-cases (has store.objects object_id)) [
    | inl known ↦ rw known refl
    | inr new ↦ rw new refl
  ]

  -- A payload that the validator accepts is handled as by `merge_objects`, and no other changes the store.
  validated :
      (cks : Validator o) (store : InMemoryCrdtStore o) (payload : Payload o)
      → validate_and_add cks store payload ≡ (
          if is_structurally_valid cks payload
          then ((add_object store payload).0, ok (is_new (add_object store payload).1 == 1))
          else (store, ok false))
  unfolding validate_and_add has_consistent_identity add_object
  validated cks store payload =
      ap (λ x. if is_structurally_valid cks payload then x else (store, ok false))
        (checked-insert store payload (object_id_for payload))

  tally-new :
      (after : InMemoryCrdtStore o) (new : Result Bool) (m : InMemoryCrdtStore o × ℕ)
      → tally after (ok (is_new new == 1)) (m.0, ok m.1) ≡ (m.0, ok (is_new new + m.1))
  tally-new after (raise e) m = ap (λ n. (m.0, ok n)) (omega arith)
  tally-new after (ok true) m = refl
  tally-new after (ok false) m = ap (λ n. (m.0, ok n)) (omega arith)

  abbrev pub merged : InMemoryCrdtStore o × ℕ → InMemoryCrdtStore o × Result ℕ
  merged (store, count) = (store, ok count)

  -- Over the in-memory store, and where the engine's constructors raise nothing but the three errors
  -- that rebuilding an object catches: a batch that goes through the quarantine does not raise, and it
  -- leaves the store and gives the count that `merge_objects` does on those payloads of the batch that
  -- the validator accepts.
  pub process_batch-merge_objects :
      (cks : Validator o) (store : InMemoryCrdtStore o) (payloads : List (Payload o))
      → process_batch cks store payloads
        ≡ merged (merge_objects store (select (is_structurally_valid cks) payloads))
  unfolding process_batch merge_objects
  process_batch-merge_objects cks store [] = refl
  process_batch-merge_objects cks store (payload ∷ payloads) =
      elim (Bool-cases (is_structurally_valid cks payload)) [
        | inl valid ↦
            (let first = add_object store payload in
              let step : validate_and_add cks store payload ≡ (first.0, ok (is_new first.1 == 1)) =
                validated cks store payload
                ∙ ap (λ b. if b then (first.0, ok (is_new first.1 == 1)) else (store, ok false))
                    valid in
              ap
                (λ (r : InMemoryCrdtStore o × Result Bool).
                  tally r.0 r.1 (process_batch cks r.0 payloads))
                step
              ∙ ap (tally first.0 (ok (is_new first.1 == 1)))
                  (process_batch-merge_objects cks first.0 payloads)
              ∙ tally-new first.0 first.1
                  (merge_objects first.0 (select (is_structurally_valid cks) payloads))
              ∙ ap
                  (λ b. merged (
                    merge_objects store (
                      if b
                      then payload ∷ select (is_structurally_valid cks) payloads
                      else select (is_structurally_valid cks) payloads)))
                  (sym valid))
        | inr invalid ↦
            (let step : validate_and_add cks store payload ≡ (store, ok false) =
                validated cks store payload
                ∙ ap
                    (λ b.
                      if b
                      then (
                        (add_object store payload).0,
                        ok (is_new (add_object store payload).1 == 1),
                      )
                      else (store, ok false))
                    invalid in
              ap
                (λ (r : InMemoryCrdtStore o × Result Bool).
                  tally r.0 r.1 (process_batch cks r.0 payloads))
                step
              ∙ ap (tally store (ok false)) (process_batch-merge_objects cks store payloads)
              ∙ ap
                  (λ b. merged (
                    merge_objects store (
                      if b
                      then payload ∷ select (is_structurally_valid cks) payloads
                      else select (is_structurally_valid cks) payloads)))
                  (sym invalid))
      ]
