-- ===== src/Transaction.antt =====
-- src/cks_runtime/transaction/transaction.py, what src/cks_runtime/execution/operation_executor.py
-- says of a result, and the operations as an interface.
pub mod Status
use cks_runtime.Prelude.{
  String, List, [], ◌∷◌, ◌++◌, Bool, true, false, Option, none, some, if◌then◌else◌,
}
use cks_runtime.Json.{Metadata}
use cks_runtime.Core.{Core}
use cks_runtime.Session.{RuntimeSession}

pub data TransactionStatus : Type 0 where
  created executing validating committed rolled_back aborted : TransactionStatus

pub data OperationStatus : Type 0 where
  pending running completed failed : OperationStatus

-- A payload that is no structure is `none`; the text of the error is left out.
pub record ExecutionResult (c : Core) : Type 0 where
  pub status : OperationStatus
  pub payload : Option c.Structure
  pub diagnostics : List String

-- Operations are plugins, so what they do is a parameter.
pub record Operations (c : Core) : Type 1 where
  pub Operation : Type 0
  pub Request : Type 0
  -- `none` where `Operation.execute` raises
  pub run : Operation → RuntimeSession c → Option (ExecutionResult c)
  -- the metadata of the session afterwards, also where it raises
  pub metadata_after : Operation → RuntimeSession c → Metadata
  -- the text of what it raises
  pub error_text : Operation → RuntimeSession c → String
  -- an instance of EvolveOperation, RevertVersionOperation, MergeOperation or ReplaceStateOperation;
  -- when these complete, the payload is a structure
  pub changes_state : Operation → Bool
  -- `OperationRegistry.create`: `none` where it raises a KeyError or a TypeError
  pub create_operation : Request → Option Operation
  -- the message of the diagnostic when it raises
  pub request_error : Request → String

pub record RuntimeTransaction (c : Core) (o : Operations c) : Type 0 where
  pub transaction_id : String
  pub operations : List o.Operation
  pub requests : List o.Request
  pub results : List (ExecutionResult c)
  pub status : TransactionStatus
  pub initial_state : c.Structure

unfoldable pub is_completed : TransactionStatus → Bool
is_completed committed = true
is_completed rolled_back = true
is_completed aborted = true
is_completed created = false
is_completed executing = false
is_completed validating = false

module _ {c : Core} {o : Operations c} where
  -- Every method that sets the status does nothing on a transaction that is completed.
  unfoldable pub set_status : TransactionStatus → RuntimeTransaction c o → RuntimeTransaction c o
  set_status status self =
      if is_completed self.status then self else record self { status = status }

  abbrev pub mark_executing : RuntimeTransaction c o → RuntimeTransaction c o
  mark_executing = set_status executing

  abbrev pub mark_validating : RuntimeTransaction c o → RuntimeTransaction c o
  mark_validating = set_status validating

  abbrev pub commit : RuntimeTransaction c o → RuntimeTransaction c o
  commit = set_status committed

  abbrev pub rollback : RuntimeTransaction c o → RuntimeTransaction c o
  rollback = set_status rolled_back

  abbrev pub abort : RuntimeTransaction c o → RuntimeTransaction c o
  abort = set_status aborted

  abbrev pub add_operation : o.Operation → RuntimeTransaction c o → RuntimeTransaction c o
  add_operation operation self = record self { operations = self.operations ++ operation ∷ [] }

  abbrev pub add_request : o.Request → RuntimeTransaction c o → RuntimeTransaction c o
  add_request request self = record self { requests = self.requests ++ request ∷ [] }

  abbrev pub add_result : ExecutionResult c → RuntimeTransaction c o → RuntimeTransaction c o
  add_result result self = record self { results = self.results ++ result ∷ [] }
