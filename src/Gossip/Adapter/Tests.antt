-- ===== src/Gossip/Adapter/Tests.antt =====
-- Runs of the adapter on the small engine.
use cks_runtime.Prelude.{
  ℕ, String, List, [], ◌∷◌, ◌≡◌, refl, Bool, true, false, Option, none, some, string_eq, nat_eq,
  arith, length,
}
use cks_runtime.Core.Small.{small_core}
use cks_runtime.Dict.{get, get_or, has}
use cks_runtime.Json.{Metadata, object, field, number, end}
use cks_runtime.Result.{Result, ok, raise, active_transaction_exists}
use cks_runtime.Operations.{Engine, Merged, clean, conflicting, execute, merge_sources}
use cks_runtime.Session.{RuntimeSession}
use cks_runtime.Transaction.{committed}
use cks_runtime.Versioning.VersionVector.{dominates, covers, from_metadata, from_raw}
use cks_runtime.Pipeline.{Validation}
use cks_runtime.Crdt.Store.{Objects, empty_store, object_id_for, add_object}
use cks_runtime.Crdt.Quarantine.{
  process_batch, validate_and_add, is_structurally_valid, has_consistent_identity,
}
use cks_runtime.Gossip.Objects as Store
use cks_runtime.Gossip.Applying.{
  GossipAdapter, Merging, merge_crdt_objects, apply_remote_session_locked,
}
use cks_runtime.Gossip.Applying.Again.{apply_remote_session_locked-again}
use cks_runtime.Gossip.Adapter.{
  Adapter, Fresh, apply_remote_session, duplicate_id_detected, report_duplicate, reconcile,
  three_way, escalate, register_conflict_branch, resolved,
}
use cks_runtime.Gossip.Adapter.Outcomes.{Applied, apply_remote_session-Applied}
use cks_runtime.Gossip.Adapter.Lost.{
  ahead, Overtaken, apply_remote_session-lost, apply_remote_session-overtaken,
}

-- Structures are lists of ids; they are the same if they have the same length, and a merge is a
-- conflict, unless one side is empty.
abbrev same_length : List String → List String → Bool
same_length [] [] = true
same_length (x ∷ xs) (y ∷ ys) = same_length xs ys
same_length [] (y ∷ ys) = false
same_length (x ∷ xs) [] = false

abbrev merge_lists : List String → List String → Merged small_core
merge_lists [] source = clean source
merge_lists target [] = clean target
merge_lists (x ∷ xs) (y ∷ ys) = conflicting (x ∷ y ∷ [])

abbrev engine : Engine small_core
engine = record {
  merge = λ base target source resolutions. merge_lists target source;
  structurally_equivalent = same_length;
  empty = [];
}

abbrev session_of : List String → Metadata → Option String → RuntimeSession small_core
session_of structure metadata active = record {
  knowledge_structure = structure;
  session_id = "s";
  metadata = metadata;
  snapshot_interval = 10;
  diagnostics = [];
  version_history = [];
  active_transaction = active;
  closed = false;
  parent_session_id = none;
  parent_version_id = some "00000000-0000-0000-0000-000000000000";
}

abbrev adapter_of : RuntimeSession small_core → Adapter small_core engine
adapter_of session = record {
  replica_id = "a";
  runtime = record {
    session = session;
    transaction = record {
      transaction_id = "t";
      operations = [];
      requests = [];
      results = [];
      status = committed;
      initial_state = [];
    };
    tracked = [];
    storage = record { sessions = []; versions = []; replica_id = none };
    replica_id = some "a";
    diagnostics = [];
    events = [];
  };
  pending_conflict = none;
  pending_duplicates = [];
  branches = [];
  published = [];
}

abbrev clocks_a : Metadata
clocks_a = ("version_vector", object (field "a" (number 1) end)) ∷ []

abbrev clocks_b : Metadata
clocks_b = ("version_vector", object (field "b" (number 1) end)) ∷ []

abbrev clocks_ab : Metadata
clocks_ab = ("version_vector", object (field "a" (number 1) (field "b" (number 1) end))) ∷ []

abbrev local_session : RuntimeSession small_core
local_session = session_of ("x" ∷ []) clocks_a none

abbrev remote_session : RuntimeSession small_core
remote_session = session_of ("y" ∷ "z" ∷ []) clocks_b none

abbrev later_session : RuntimeSession small_core
later_session = session_of ("x" ∷ "y" ∷ []) clocks_ab none

-- A session that this replica has not committed to, with a transaction.
abbrev busy_session : RuntimeSession small_core
busy_session = session_of ("x" ∷ []) clocks_b (some "t")

abbrev clocks_bc : Metadata
clocks_bc = ("version_vector", object (field "b" (number 1) (field "c" (number 1) end))) ∷ []

abbrev far_session : RuntimeSession small_core
far_session = session_of ("x" ∷ "y" ∷ []) clocks_bc none

abbrev verdict : Validation small_core
verdict s = some (true, [])

abbrev fresh : Fresh
fresh = record { transaction_id = "t1"; version_id = "v1"; branch_id = "branch"; node_id = "n" }

abbrev fresh' : Fresh
fresh' = record { transaction_id = "t2"; version_id = "v2"; branch_id = "branch2"; node_id = "n2" }

abbrev first : Adapter small_core engine × Result Bool
first = apply_remote_session engine verdict fresh (adapter_of local_session) remote_session

apply_remote_session-Applied_example :
    Applied engine (some "a") local_session remote_session first.0.runtime.session first.1
unfolding from_metadata from_raw get
apply_remote_session-Applied_example =
    apply_remote_session-Applied engine verdict fresh (adapter_of local_session) remote_session
      (refl, tt)

conflicts : (first.1 ≡ ok false) × (length first.0.branches ≡ 1)
unfolding apply_remote_session duplicate_id_detected reconcile three_way escalate
    register_conflict_branch execute merge_sources dominates covers from_metadata from_raw get
    get_or
conflicts = (refl, refl)

-- An object store, and one object in every remote session.
abbrev numbers : Objects
numbers = record {
  Object = ℕ;
  Identity = ℕ;
  Structure = ℕ;
  identity = λ n. n;
  structure = λ n. n;
  leaf_hash = λ n. n ∷ [];
  build = λ i s. some s;
}

abbrev merging : Merging numbers small_core
merging = record {
  name = λ i. "earth";
  fresh_id = λ n. "event";
  validator = none;
  objects_of = λ session. record { objects = 7 ∷ []; crdt_version_vector = none };
}

abbrev with_store : GossipAdapter numbers small_core engine
with_store = record {
  crdt_store = some (record { replica_id = "a"; crdt_store = empty_store; published = [] });
  sessions = adapter_of local_session;
}

abbrev once : GossipAdapter numbers small_core engine × Result Bool
once = apply_remote_session_locked merging verdict fresh with_store remote_session

refused_once : once.1 ≡ ok false
unfolding apply_remote_session_locked merge_crdt_objects Store.merge_crdt_objects process_batch
    validate_and_add is_structurally_valid has_consistent_identity object_id_for add_object
    apply_remote_session duplicate_id_detected reconcile three_way escalate register_conflict_branch
    execute merge_sources dominates covers from_metadata from_raw get get_or has
refused_once = refl

apply_remote_session_locked-again_example :
    apply_remote_session_locked merging verdict fresh' once.0 remote_session ≡ (
      record once.0 {
        crdt_store = (merge_crdt_objects merging once.0.crdt_store remote_session).0;
      },
      ok false,
    )
unfolding from_metadata from_raw get
apply_remote_session_locked-again_example =
    apply_remote_session_locked-again merging verdict fresh fresh' with_store remote_session
      (refl, tt) refused_once

overtaken : Overtaken engine verdict fresh (adapter_of busy_session) far_session
unfolding duplicate_id_detected dominates covers from_metadata from_raw get get_or
overtaken = record {
  active = refl;
  own = refl;
  differ = refl;
  behind = refl;
  over = refl;
  committed = refl;
  dict = (refl, (refl, tt));
}

abbrev stopped : Adapter small_core engine
stopped = (apply_remote_session engine verdict fresh (adapter_of busy_session) far_session).0

apply_remote_session-lost_example :
    ((apply_remote_session engine verdict fresh (adapter_of busy_session) far_session).1
      ≡ raise active_transaction_exists)
    × (apply_remote_session engine verdict fresh' stopped far_session
        ≡ (resolved (ahead engine verdict fresh (adapter_of busy_session) far_session), ok true))
    × (busy_session.knowledge_structure ≡ busy_session.knowledge_structure)
apply_remote_session-lost_example =
    apply_remote_session-lost engine verdict fresh (adapter_of busy_session) far_session fresh'
      overtaken

apply_remote_session-overtaken_example :
    apply_remote_session engine verdict fresh (adapter_of local_session) later_session
    ≡ (report_duplicate (adapter_of local_session) later_session, ok false)
unfolding dominates covers from_metadata from_raw get get_or
apply_remote_session-overtaken_example =
    apply_remote_session-overtaken engine verdict fresh (adapter_of local_session) later_session
      (omega arith) (refl, tt) refl refl
