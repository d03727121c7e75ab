-- ===== src/Pipeline/Tests.antt =====
-- Runs of transactions, of the storage and of the pipeline on the small engine.
use cks_runtime.Prelude.{
  List, [], ◌∷◌, ◌≡◌, refl, String, Option, none, some, true, false, string_eq,
}
use cks_runtime.Core.Small.{small_core}
use cks_runtime.Dict.{get, put}
use cks_runtime.Result.{ok, raise, concurrent_modification}
use cks_runtime.Session.{RuntimeSession}
use cks_runtime.Storage.Memory.{save_version, InMemoryStorage, save_session, current_latest}
use cks_runtime.Storage.Memory.Saves.{save_session-race}
use cks_runtime.Transaction.{
  Operations, RuntimeTransaction, ExecutionResult, completed, created, committed,
}
use cks_runtime.Versioning.Version.{RuntimeVersion}
use cks_runtime.Pipeline.{
  Validation, Runtime, commit, first_half, execute_operations, run_operations, handle, execute,
  apply_state_mutation, conclude, persist, finalize, run_requests, node_id_of,
}
use cks_runtime.Versioning.Manager.{create}
use cks_runtime.Pipeline.Conflict.{Conflict, commit-Conflict}
use cks_runtime.Pipeline.Success.{Committed, commit-Committed}

-- An operation replaces the state, or raises.
abbrev run : Option (List String) → RuntimeSession small_core → Option (ExecutionResult small_core)
run none session = none
run (some s) session = some (record { status = completed; payload = some s; diagnostics = [] })

abbrev small_operations : Operations small_core
small_operations = record {
  Operation = Option (List String);
  Request = String;
  run = run;
  metadata_after = λ operation session. session.metadata;
  error_text = λ operation session. "it raised";
  changes_state = λ operation. true;
  create_operation = λ request. none;
  request_error = λ request. request;
}

abbrev version_called : String → RuntimeVersion small_core
version_called id = record {
  session_id = "s";
  transaction_id = "t";
  knowledge_structure = some [];
  metadata = [];
  version_id = id;
  state_hash = none;
  patch = none;
}

abbrev session_with : List (RuntimeVersion small_core) → RuntimeSession small_core
session_with history = record {
  knowledge_structure = [];
  session_id = "s";
  metadata = [];
  snapshot_interval = 10;
  diagnostics = [];
  version_history = history;
  active_transaction = some "t";
  closed = false;
  parent_session_id = none;
  parent_version_id = none;
}

abbrev transaction_of : List (Option (List String)) → RuntimeTransaction small_core small_operations
transaction_of operations = record {
  transaction_id = "t";
  operations = operations;
  requests = [];
  results = [];
  status = created;
  initial_state = [];
}

abbrev runtime_of : List (Option (List String)) → Runtime small_core small_operations
runtime_of operations = record {
  session = session_with [];
  transaction = transaction_of operations;
  tracked = "t" ∷ [];
  storage = record { sessions = []; versions = []; replica_id = none };
  replica_id = none;
  diagnostics = [];
  events = [];
}

abbrev verdict : Validation small_core
verdict s = some (true, [])

abbrev recorded_version : RuntimeVersion small_core
recorded_version = record {
  session_id = "s";
  transaction_id = "t";
  knowledge_structure = some ("a" ∷ []);
  metadata = [];
  version_id = "v0";
  state_hash = some "a";
  patch = none;
}

one_commits : (commit verdict "v0" (runtime_of (some ("a" ∷ []) ∷ []))).1 ≡ ok recorded_version
unfolding commit first_half execute_operations run_operations handle execute apply_state_mutation
    conclude persist finalize run_requests create node_id_of save_session get
one_commits = refl

commit-Committed_example :
    Committed
      (runtime_of (some ("a" ∷ []) ∷ []))
      (commit verdict "v0" (runtime_of (some ("a" ∷ []) ∷ []))).0
      recorded_version
commit-Committed_example =
    commit-Committed verdict "v0" (runtime_of (some ("a" ∷ []) ∷ [])) recorded_version one_commits

-- A storage that holds the session at version v0, and after a writer has saved v1.
abbrev at_v0 : InMemoryStorage small_core
at_v0 = record {
  sessions = ("s", session_with (version_called "v0" ∷ [])) ∷ [];
  versions = [];
  replica_id = none;
}

abbrev writer : RuntimeSession small_core
writer = session_with (version_called "v0" ∷ version_called "v1" ∷ [])

abbrev late_writer : RuntimeSession small_core
late_writer = session_with (version_called "v0" ∷ version_called "v2" ∷ [])

abbrev at_v1 : InMemoryStorage small_core
at_v1 = record { sessions = ("s", writer) ∷ []; versions = []; replica_id = none }

writer_saves : save_session at_v0 writer (some "v0") ≡ ok at_v1
unfolding save_session current_latest get put
writer_saves = refl

save_session-race_example :
    save_session at_v1 late_writer (some "v0") ≡ raise concurrent_modification
save_session-race_example =
    save_session-race at_v0 at_v1 writer late_writer "v0" "v1" refl writer_saves refl refl

abbrev closed_transaction : RuntimeTransaction small_core small_operations
closed_transaction = record (transaction_of []) { status = committed }

-- A session at v0 whose stored copy has gone on to v1.
abbrev overtaken : Runtime small_core small_operations
overtaken = record {
  session = session_with (version_called "v0" ∷ []);
  transaction = transaction_of (some ("c" ∷ []) ∷ []);
  tracked = "t" ∷ [];
  storage = at_v1;
  replica_id = none;
  diagnostics = [];
  events = [];
}

overtaken_raises : (commit verdict "v2" overtaken).1 ≡ raise concurrent_modification
unfolding commit first_half execute_operations run_operations handle execute apply_state_mutation
    conclude persist finalize run_requests create node_id_of save_session get current_latest
    save_version
overtaken_raises = refl

commit-Conflict_example :
    (v : RuntimeVersion small_core) × (v.version_id ≡ "v2")
    × Conflict overtaken (commit verdict "v2" overtaken).0 v
commit-Conflict_example = commit-Conflict verdict "v2" overtaken overtaken_raises
