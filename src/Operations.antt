-- ===== src/Operations.antt =====
-- src/cks_runtime/operations/operation_types.py: the operations that change the state of a session,
-- run over the in-memory storage. That storage has no operation log, so `_field_level_resolutions`
-- finds nothing there. What they use of the engine beyond Core.antt is a parameter, and
-- the texts of errors are shortened.
pub mod Merging
use cks_runtime.Prelude.{
  String, List, [], ◌∷◌, Bool, true, false, Option, none, some, ◌==◌, string_eq, if◌then◌else◌,
}
use cks_runtime.Core.{Core, Patch}
use cks_runtime.Dict.{Dict}
use cks_runtime.Result.{
  Error, Result, ok, raise, missing_previous_state, unknown_version, no_core_bridge, no_snapshot,
  no_patch, hash_mismatch, core_failed, bad_snapshot_interval, active_transaction_exists,
  unknown_transaction, validation_failed, operation_failed, concurrent_modification, bad_payload,
  identity_mismatch,
}
use cks_runtime.Session.{RuntimeSession, get_version_state}
use cks_runtime.Transaction.{ExecutionResult, completed, failed, Operations}
use cks_runtime.Versioning.VersionVector.{
  VersionVector, absorb, dominates, from_metadata, to_metadata,
}

-- What `core.merge` does: a structure, the ids of the objects that conflict, or another exception.
pub data Merged (c : Core) : Type 0 where
  clean : c.Structure → Merged c
  conflicting : List String → Merged c
  broken : String → Merged c

pub record Engine (c : Core) : Type 0 where
  -- base, target, source and resolutions
  pub merge : c.Structure → c.Structure → c.Structure → Dict String c.Object → Merged c
  pub structurally_equivalent : c.Structure → c.Structure → Bool
  -- `type(structure)([])`
  pub empty : c.Structure

abbrev pub empty_state_version_id : String
empty_state_version_id = "00000000-0000-0000-0000-000000000000"

-- The exceptions of a session that are a ValueError; that of the engine is not.
abbrev pub is_value_error : Error → Bool
is_value_error core_failed = false
is_value_error e = true

module _ (c : Core) where
  -- The fields that callers give to the constructors.
  pub record MergeOperation : Type 0 where
    pub source_session : Option (RuntimeSession c)
    pub base_version_id : Option String
    pub base_structure : Option c.Structure
    pub resolutions : Dict String c.Object

  pub data Operation : Type 0 where
    evolve : c.Structure → Patch c → Operation
    revert_version : String → Operation
    merge : MergeOperation → Operation
    replace_state : Option c.Structure → Operation

  -- What an operation gives: its payload, or the error of a failed result.
  pub data Outcome : Type 0 where
    payload : c.Structure → Outcome
    conflict : List String → Outcome
    error : String → Outcome

  abbrev pub result_of : Outcome → ExecutionResult c
  result_of (payload structure) = record {
    status = completed;
    payload = some structure;
    diagnostics = [];
  }
  result_of (conflict ids) = record { status = failed; payload = none; diagnostics = [] }
  result_of (error text) = record { status = failed; payload = none; diagnostics = [] }

module _ {c : Core} where
  -- `none` where the exception leaves the operation.
  abbrev pub version_outcome : Result c.Structure → Option (Outcome c)
  version_outcome (ok structure) = some (payload structure)
  version_outcome (raise e) = if is_value_error e then some (error "ValueError") else none

  abbrev pub evolve_outcome : Option c.Structure → Option (Outcome c)
  evolve_outcome none = none
  evolve_outcome (some evolved) = some (payload evolved)

  abbrev pub replace_outcome : Option c.Structure → Outcome c
  replace_outcome none = error "ReplaceStateOperation requires 'knowledge_structure'."
  replace_outcome (some structure) = payload structure

  abbrev pub merge_outcome : Merged c → Outcome c
  merge_outcome (clean structure) = payload structure
  merge_outcome (conflicting ids) = conflict ids
  merge_outcome (broken text) = error text

  module _ (e : Engine c) where
    abbrev pub merge_with_base :
        MergeOperation c
        → RuntimeSession c
        → RuntimeSession c
        → Option (Outcome c)
        → Option (Outcome c)
    merge_with_base operation source session none = none
    merge_with_base operation source session (some (conflict ids)) = some (conflict ids)
    merge_with_base operation source session (some (error text)) = some (error text)
    merge_with_base operation source session (some (payload base)) = some (
        merge_outcome (
          e.merge base session.knowledge_structure source.knowledge_structure
            operation.resolutions))

    abbrev pub base_at : RuntimeSession c → Option String → Option (Outcome c)
    base_at session none = some (error "MergeOperation could not determine a merge base")
    base_at session (some id) =
        if id == empty_state_version_id
        then some (payload e.empty)
        else version_outcome (get_version_state session id true)

    abbrev pub or_else : Option String → Option String → Option String
    or_else none id = id
    or_else (some id) other = some id

    abbrev pub base_of : MergeOperation c → RuntimeSession c → RuntimeSession c → Option (Outcome c)
    base_of operation source session = elim operation.base_structure [
      | some base ↦ some (payload base)
      | none ↦ base_at session (or_else operation.base_version_id source.parent_version_id)
    ]

    -- The session after the call beside its outcome: a fast-forward raises the clocks.
    unfoldable pub merge_sources :
        MergeOperation c
        → RuntimeSession c
        → RuntimeSession c
        → RuntimeSession c × Option (Outcome c)
    merge_sources operation source session =
        let target_vector = from_metadata session.metadata in
        let source_vector = from_metadata source.metadata in
        if dominates target_vector source_vector
        then (session, some (payload session.knowledge_structure))
        else if dominates source_vector target_vector
        then (
          record session {
            metadata = to_metadata (absorb target_vector source_vector) session.metadata;
          },
          some (payload source.knowledge_structure),
        )
        else (session, merge_with_base operation source session (base_of operation source session))

    abbrev pub merge_from :
        MergeOperation c
        → Option (RuntimeSession c)
        → RuntimeSession c
        → RuntimeSession c × Option (Outcome c)
    merge_from operation none session = (
      session,
      some (error "MergeOperation requires 'source_session' (the branch being merged in)."),
    )
    merge_from operation (some source) session = merge_sources operation source session

    unfoldable pub execute : Operation c → RuntimeSession c → RuntimeSession c × Option (Outcome c)
    execute (evolve structure evolution) session =
        (session, evolve_outcome (c.evolve structure evolution))
    execute (revert_version target_version_id) session =
        (session, version_outcome (get_version_state session target_version_id true))
    execute (merge operation) session = merge_from operation operation.source_session session
    execute (replace_state structure) session = (session, some (replace_outcome structure))

    abbrev pub maybe_result : Option (Outcome c) → Option (ExecutionResult c)
    maybe_result none = none
    maybe_result (some outcome) = some (result_of c outcome)

    -- The operations as the pipeline runs them.
    abbrev pub operations : Operations c
    operations = record {
      Operation = Operation c;
      Request = Operation c;
      run = λ operation session. maybe_result (execute operation session).1;
      metadata_after = λ operation session. (execute operation session).0.metadata;
      error_text = λ operation session. "the engine raised";
      changes_state = λ operation. true;
      create_operation = λ request. some request;
      request_error = λ request. "";
    }
