-- ===== src/Pipeline.antt =====
-- src/cks_runtime/pipeline/execution_pipeline.py over the in-memory storage, with the parts of
-- src/cks_runtime/transaction/transaction_manager.py, src/cks_runtime/dispatcher/dispatcher.py and
-- src/cks_runtime/execution/operation_executor.py that it calls. The state is that of one
-- transaction and its session. Metrics and the subscribers of events are left out; the in-memory
-- storage has no operation log.
pub mod Rounds
pub mod Outcome
pub mod Success
pub mod Conflict
mod Tests
use cks_runtime.Prelude.{
  String, List, [], ◌∷◌, ◌++◌, Bool, true, false, Option, none, some, if◌then◌else◌, string_eq,
  ◌==◌, select, not,
}
use cks_runtime.Core.{Core}
use cks_runtime.Dict.{get}
use cks_runtime.Json.{Json, text}
use cks_runtime.Result.{
  Result, ok, raise, validation_failed, operation_failed, core_failed, active_transaction_exists,
}
use cks_runtime.Session.{RuntimeSession, has_active_transaction}
use cks_runtime.Storage.Memory.{InMemoryStorage, latest_version_id, save_session, save_version}
use cks_runtime.Transaction as Tx
use cks_runtime.Transaction.{
  TransactionStatus, created, OperationStatus, pending, running, completed, failed, ExecutionResult,
  Operations, RuntimeTransaction, add_result,
}
use cks_runtime.Versioning.Version.{RuntimeVersion}
use cks_runtime.Versioning.Manager.{create}

-- `CoreBridge.validate`: `none` where it raises.
abbrev pub Validation : Core → Type 0
Validation c = c.Structure → Option (Bool × List String)

pub data Event : Type 0 where
  version_created : String → Event
  transaction_committed transaction_rolled_back transaction_aborted validation_failure : Event

abbrev pub is_failed : OperationStatus → Bool
is_failed failed = true
is_failed pending = false
is_failed running = false
is_failed completed = false

-- session.metadata.get("node_id")
unfoldable pub node_id_of : {c : Core} → RuntimeSession c → Option String
node_id_of session = elim (get session.metadata "node_id") [ some (text id) ↦ some id | _ ↦ none ]

-- The session after a result with a status, of an operation that changes the state or not.
abbrev pub write_back :
    {c : Core} → OperationStatus → Bool → Option c.Structure → RuntimeSession c → RuntimeSession c
write_back completed true (some structure) session = record session {
  knowledge_structure = structure;
}
write_back completed true none session = session
write_back completed false payload session = session
write_back pending changes payload session = session
write_back running changes payload session = session
write_back failed changes payload session = session

module _ (c : Core) (o : Operations c) where
  pub record Runtime : Type 0 where
    pub session : RuntimeSession c
    pub transaction : RuntimeTransaction c o
    -- the keys of `TransactionManager._transactions`
    pub tracked : List String
    pub storage : InMemoryStorage c
    pub replica_id : Option String
    pub diagnostics : List String
    pub events : List Event

module _ {c : Core} {o : Operations c} where
  abbrev pub publish : Event → Runtime c o → Runtime c o
  publish event self = record self { events = self.events ++ event ∷ [] }

  -- `TransactionManager.begin`, with the fresh id of the transaction
  unfoldable pub begin : Runtime c o → String → Result (Runtime c o)
  begin self transaction_id =
      if has_active_transaction self.session
      then raise active_transaction_exists
      else ok (record self {
        transaction = record {
          transaction_id = transaction_id;
          operations = [];
          requests = [];
          results = [];
          status = created;
          initial_state = self.session.knowledge_structure;
        };
        tracked = self.tracked ++ transaction_id ∷ [];
        session = record self.session { active_transaction = some transaction_id };
      })

  -- `TransactionManager.commit`, `rollback` and `abort`: the new status, then `_finish`
  unfoldable pub finish : TransactionStatus → Runtime c o → Runtime c o
  finish status self = record self {
    transaction = Tx.set_status status self.transaction;
    session = record self.session { active_transaction = none };
    tracked = select (λ id. not (id == self.transaction.transaction_id)) self.tracked;
  }

  -- `save_session` without an expected version, which always succeeds
  unfoldable pub store_session : Runtime c o → Runtime c o
  store_session self = elim (save_session self.storage self.session none) [
    | ok storage ↦ record self { storage = storage }
    | raise e ↦ self
  ]

  unfoldable pub rollback : Runtime c o → Runtime c o
  rollback self =
      let restored = record self {
        session = record self.session { knowledge_structure = self.transaction.initial_state };
      } in
      publish transaction_rolled_back (store_session (finish Tx.rolled_back restored))

  unfoldable pub abort : Runtime c o → Runtime c o
  abort self = publish transaction_aborted (store_session (finish Tx.aborted self))

module _ {c : Core} (o : Operations c) where
  -- `OperationExecutor.execute`: an operation that raises has failed
  unfoldable pub execute : o.Operation → RuntimeSession c → ExecutionResult c
  execute operation session = elim (o.run operation session) [
    | none ↦ record {
      status = failed;
      payload = none;
      diagnostics = o.error_text operation session ∷ [];
    }
    | some result ↦ result
  ]

  unfoldable pub apply_state_mutation :
      o.Operation → ExecutionResult c → RuntimeSession c → RuntimeSession c
  apply_state_mutation operation result session =
      write_back result.status (o.changes_state operation) result.payload session

module _ {c : Core} {o : Operations c} where
  -- The half of `_handle_result` for a result that has not failed.
  abbrev pub collect : ExecutionResult c → Runtime c o → Runtime c o
  collect result self = record self {
    diagnostics = self.diagnostics ++ result.diagnostics;
    session = record self.session { diagnostics = self.session.diagnostics ++ result.diagnostics };
  }

  -- One round of either loop of `_execute_operations`: record, handle, apply.
  unfoldable pub handle :
      o.Operation → ExecutionResult c → Runtime c o → Runtime c o × Result (Unit {0})
  handle operation result self =
      let recorded = record self { transaction = add_result result self.transaction } in
      if is_failed result.status
      then (rollback recorded, raise operation_failed)
      else (let collected = collect result recorded in
          (
            record collected {
              session = apply_state_mutation o operation result collected.session;
            },
            ok tt,
          ))

  -- What an operation writes into the session while it runs.
  abbrev pub touched : o.Operation → Runtime c o → Runtime c o
  touched operation self = record self {
    session = record self.session { metadata = o.metadata_after operation self.session };
  }

  -- What follows a part that may have raised.
  abbrev pub continue :
      {A : Type 0}
      → Runtime c o
      → Result (Unit {0})
      → Runtime c o × Result A
      → Runtime c o × Result A
  continue after (raise e) rest = (after, raise e)
  continue after (ok done) rest = rest

  unfoldable pub run_operations : List o.Operation → Runtime c o → Runtime c o × Result (Unit {0})
  run_operations [] self = (self, ok tt)
  run_operations (operation ∷ operations) self =
      let first = handle operation (execute o operation self.session) (touched operation self) in
      continue first.0 first.1 (run_operations operations first.0)

  -- The handling of what `Dispatcher.dispatch` gives: a request that cannot be made into an
  -- operation has failed.
  unfoldable pub handle_created :
      o.Request → Option o.Operation → Runtime c o → Runtime c o × Result (Unit {0})
  handle_created request (some operation) self =
      handle operation (execute o operation self.session) (touched operation self)
  handle_created request none self =
      let result : ExecutionResult c = record {
        status = failed;
        payload = none;
        diagnostics = o.request_error request ∷ [];
      } in
      (
        rollback (record self { transaction = add_result result self.transaction }),
        raise operation_failed,
      )

  unfoldable pub handle_request : o.Request → Runtime c o → Runtime c o × Result (Unit {0})
  handle_request request self = handle_created request (o.create_operation request) self

  unfoldable pub run_requests : List o.Request → Runtime c o → Runtime c o × Result (Unit {0})
  run_requests [] self = (self, ok tt)
  run_requests (request ∷ requests) self =
      let first = handle_request request self in
      continue first.0 first.1 (run_requests requests first.0)

  unfoldable pub execute_operations : Runtime c o → Runtime c o × Result (Unit {0})
  execute_operations self =
      let first = run_operations self.transaction.operations self in
      continue first.0 first.1 (run_requests first.0.transaction.requests first.0)

  -- `_validate`, `_collect_diagnostics` and `_quality_gate`, with the engine's verdict on the state.
  -- Where the engine raises, the exception leaves `commit` at once.
  unfoldable pub quality_gate :
      Option (Bool × List String) → Runtime c o → Runtime c o × Result (Unit {0})
  quality_gate none self = (self, raise core_failed)
  quality_gate (some (valid, messages)) self =
      let collected = record self { diagnostics = self.diagnostics ++ messages } in
      if valid
      then (collected, ok tt)
      else (publish validation_failure (rollback collected), raise validation_failed)

  abbrev pub nothing_to_run : RuntimeTransaction c o → Bool
  nothing_to_run transaction = elim transaction.operations [
    | [] ↦ (elim transaction.requests [ [] ↦ true | _ ∷ _ ↦ false ])
    | _ ∷ _ ↦ false
  ]

  -- The rest of `commit` after `save_session`
  unfoldable pub finalize :
      RuntimeVersion c
      → Runtime c o
      → Result (InMemoryStorage c)
      → Runtime c o × Result (RuntimeVersion c)
  finalize version self (raise e) = (self, raise e)
  finalize version self (ok storage) = (
    publish transaction_committed (finish Tx.committed (record self { storage = storage })),
    ok version,
  )

  -- The session of `VersionManager.create`, the event, and `_persist`
  unfoldable pub persist :
      Option String
      → Runtime c o
      → RuntimeSession c
      → Result (RuntimeVersion c)
      → Runtime c o × Result (RuntimeVersion c)
  persist expected_version_id self session (raise e) = (record self { session = session }, raise e)
  persist expected_version_id self session (ok version) =
      let announced =
        publish (version_created version.version_id)
          (record self { session = session; storage = save_version self.storage version }) in
      finalize version announced (save_session announced.storage session expected_version_id)

  -- `_create_version`, `_persist` and the rest of `commit`, after the operations or the validation
  unfoldable pub conclude :
      c.Structure → Option String → String → Runtime c o → Runtime c o × Result (RuntimeVersion c)
  conclude initial_state expected_version_id version_id self =
      let made =
        create self.session true (some initial_state) (node_id_of self.session) self.replica_id
          version_id in
      persist expected_version_id self made.0 made.1

  -- The part of `commit` that may roll back; the verdict of the engine on a structure is the
  -- argument `validate`.
  unfoldable pub first_half : Validation c → Runtime c o → Runtime c o × Result (Unit {0})
  first_half validate self =
      if nothing_to_run self.transaction
      then quality_gate (validate self.session.knowledge_structure) self
      else execute_operations self

  unfoldable pub commit :
      Validation c → String → Runtime c o → Runtime c o × Result (RuntimeVersion c)
  commit validate version_id self =
      let first = first_half validate self in
      continue first.0 first.1 (
        conclude self.session.knowledge_structure (latest_version_id self.session) version_id
          first.0)
