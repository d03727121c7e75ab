-- ===== src/Gossip/Adapter.antt =====
-- src/cks_runtime/gossip/adapter.py, `GossipAdapter`: applying a remote copy of a session that this
-- replica tracks, with the pipeline and the in-memory storage. The state is that of one session:
-- what the adapter keeps under its id, and the branches registered for it. This is the part of
-- the method that follows the merge of the objects, which is that of Gossip/Objects and does nothing
-- for an adapter without an object store; Gossip/Applying puts the two parts together. Locks and the
-- SessionCreated event of a branch are left out.
pub mod Commits
pub mod Committing
pub mod Same
pub mod Outcomes
pub mod Again
pub mod Lost
mod Tests
use cks_runtime.Prelude.{
  ℕ, String, List, [], ◌∷◌, ◌++◌, Bool, true, false, not, ◌&&◌, ◌||◌, Option, none, some, ◌==◌,
  string_eq, nat_eq, if◌then◌else◌, ltb, contains,
}
use cks_runtime.Core.{Core}
use cks_runtime.Dict.{Dict, get, put}
use cks_runtime.Json.{text}
use cks_runtime.Result.{Result, ok, raise}
use cks_runtime.Operations.{
  empty_state_version_id, Engine, Operation, MergeOperation, Outcome, payload, conflict, error,
  merge, replace_state, execute, operations,
}
use cks_runtime.Pipeline.{Validation, Runtime, begin, commit, store_session}
use cks_runtime.Session.{RuntimeSession}
use cks_runtime.Storage.Memory.{InMemoryStorage, save_session}
use cks_runtime.Transaction.{add_operation}
use cks_runtime.Versioning.Version.{RuntimeVersion}
use cks_runtime.Versioning.VersionVector.{
  VersionVector, absorb, dominates, from_metadata, to_metadata, clock_of,
}

pub data GossipEvent : Type 0 where
  duplicate_replica_id_detected : (local_clock remote_clock : ℕ) → GossipEvent
  gossip_conflict_detected : (source_session_id : String) (conflicts : List String) → GossipEvent

-- The ids that `uuid4` makes in one call.
pub record Fresh : Type 0 where
  pub transaction_id : String
  pub version_id : String
  pub branch_id : String
  pub node_id : String

pub record Adapter (c : Core) (e : Engine c) : Type 0 where
  pub replica_id : String
  pub runtime : Runtime c (operations e)
  -- the entries of `_pending_conflict_vectors` and `_pending_duplicate_ids` for the session
  pub pending_conflict : Option VersionVector
  pub pending_duplicates : List ℕ
  pub branches : List (RuntimeSession c)
  pub published : List GossipEvent

-- Equality of the vectors, whose clocks are dictionaries.
abbrev pub holds : Option ℕ → ℕ → Bool
holds none clock = false
holds (some found) clock = found == clock

abbrev pub within : Dict String ℕ → Dict String ℕ → Bool
within [] clocks = true
within ((node_id, clock) ∷ items) clocks =
    let rest = within items clocks in holds (get clocks node_id) clock && rest

abbrev pub is_pending : Option VersionVector → VersionVector → Bool
is_pending none vector = false
is_pending (some pending) vector =
    within pending.clocks vector.clocks && within vector.clocks pending.clocks

module _ {c : Core} {e : Engine c} where
  abbrev pub with_session : Adapter c e → RuntimeSession c → Adapter c e
  with_session self session = record self { runtime = record self.runtime { session = session } }

  unfoldable pub duplicate_id_detected : Adapter c e → RuntimeSession c → Bool
  duplicate_id_detected self remote_session =
      let local = self.runtime.session in
      let local_own_clock = clock_of (from_metadata local.metadata) self.replica_id in
      let remote_own_clock = clock_of (from_metadata remote_session.metadata) self.replica_id in
      ltb local_own_clock remote_own_clock
      || (ltb 0 remote_own_clock
          && (remote_own_clock == local_own_clock)
          && not (
              e.structurally_equivalent local.knowledge_structure
                remote_session.knowledge_structure))

  unfoldable pub report_duplicate : Adapter c e → RuntimeSession c → Adapter c e
  report_duplicate self remote_session =
      let local_own_clock =
        clock_of (from_metadata self.runtime.session.metadata) self.replica_id in
      let remote_own_clock = clock_of (from_metadata remote_session.metadata) self.replica_id in
      if contains self.pending_duplicates remote_own_clock then self else record self {
        pending_duplicates = self.pending_duplicates ++ remote_own_clock ∷ [];
        published =
            self.published ++ duplicate_replica_id_detected local_own_clock remote_own_clock ∷ [];
      }

  -- The clocks of the remote session, absorbed into the local ones.
  abbrev pub absorbed : Adapter c e → RuntimeSession c → RuntimeSession c
  absorbed self remote_session =
      let local = self.runtime.session in
      record local {
        metadata =
            to_metadata
              (absorb (from_metadata local.metadata) (from_metadata remote_session.metadata))
              local.metadata;
      }

  abbrev pub resolved : Adapter c e → Adapter c e
  resolved self = record self { pending_conflict = none }

  -- The content is the same on both sides.
  unfoldable pub converge : Adapter c e → RuntimeSession c → Adapter c e
  converge self remote_session =
      if dominates (from_metadata self.runtime.session.metadata)
        (from_metadata remote_session.metadata)
      then resolved self
      else (let local = with_session self (absorbed self remote_session) in
          resolved (record local { runtime = store_session local.runtime }))

module _ {c : Core} where
  abbrev pub saved : InMemoryStorage c → Result (InMemoryStorage c) → InMemoryStorage c
  saved storage (ok after) = after
  saved storage (raise x) = storage

  abbrev pub merge_request : RuntimeSession c → MergeOperation c
  merge_request remote_session = record {
    source_session = some remote_session;
    base_version_id = none;
    base_structure = none;
    resolutions = [];
  }

  abbrev pub merge_operation : RuntimeSession c → Operation c
  merge_operation remote_session = merge (merge_request remote_session)

module _ {c : Core} (e : Engine c) (validate : Validation c) (fresh : Fresh) where
  abbrev pub commit_begun :
      Operation c
      → Runtime c (operations e)
      → Result (Runtime c (operations e))
      → Runtime c (operations e) × Result (RuntimeVersion c)
  commit_begun operation runtime (raise x) = (runtime, raise x)
  commit_begun operation runtime (ok begun) =
      commit validate fresh.version_id
        (record begun { transaction = add_operation operation begun.transaction })

  -- `begin_transaction`, `add_operation` and `commit_transaction`
  unfoldable pub commit_operation :
      Operation c → Runtime c (operations e) → Runtime c (operations e) × Result (RuntimeVersion c)
  commit_operation operation runtime =
      commit_begun operation runtime (begin runtime fresh.transaction_id)

  -- The end of both ways that commit.
  abbrev pub settle :
      Adapter c e → Runtime c (operations e) × Result (RuntimeVersion c) → Adapter c e × Result Bool
  settle self (runtime, raise x) = (record self { runtime = runtime }, raise x)
  settle self (runtime, ok version) = (resolved (record self { runtime = runtime }), ok true)

  unfoldable pub fast_forward : Adapter c e → RuntimeSession c → Adapter c e × Result Bool
  fast_forward self remote_session =
      let local = with_session self (absorbed self remote_session) in
      settle local
        (commit_operation (replace_state (some remote_session.knowledge_structure)) local.runtime)

  -- `_register_conflict_branch`, with `Runtime.register_foreign_branch` and
  -- `SessionManager.create_branch`; 10 is the interval that a session has by default.
  abbrev pub conflict_branch : Adapter c e → RuntimeSession c → RuntimeSession c
  conflict_branch self remote_session = record {
    knowledge_structure = remote_session.knowledge_structure;
    session_id = fresh.branch_id;
    metadata =
        ("node_id", text fresh.node_id) ∷ ("gossip_source_replica_id", text self.replica_id) ∷ [];
    snapshot_interval = 10;
    diagnostics = [];
    version_history = [];
    active_transaction = none;
    closed = false;
    parent_session_id = some self.runtime.session.session_id;
    parent_version_id = remote_session.parent_version_id;
  }

  unfoldable pub register_conflict_branch : Adapter c e → RuntimeSession c → Adapter c e
  register_conflict_branch self remote_session =
      let branch = conflict_branch self remote_session in
      record self {
        branches = self.branches ++ branch ∷ [];
        runtime = record self.runtime {
          storage = saved self.runtime.storage (save_session self.runtime.storage branch none);
        };
      }

  unfoldable pub escalate : Adapter c e → RuntimeSession c → List String → Adapter c e × Result Bool
  escalate self remote_session conflicts =
      let remote_vector = from_metadata remote_session.metadata in
      if is_pending self.pending_conflict remote_vector
      then (self, ok false)
      else (let registered = register_conflict_branch self remote_session in
          (
            record registered {
              pending_conflict = some remote_vector;
              published =
                  registered.published ++ gossip_conflict_detected fresh.branch_id conflicts ∷ [];
            },
            ok false,
          ))

  -- The rest of the method, from the outcome of the probe; an exception that leaves the operation is
  -- the executor's failed result.
  abbrev pub after_probe :
      Adapter c e → RuntimeSession c → Option (Outcome c) → Adapter c e × Result Bool
  after_probe self remote_session none = escalate self remote_session ("the engine raised" ∷ [])
  after_probe self remote_session (some (error message)) =
      escalate self remote_session (message ∷ [])
  after_probe self remote_session (some (conflict ids)) = escalate self remote_session ids
  after_probe self remote_session (some (payload structure)) =
      settle self (commit_operation (merge_operation remote_session) self.runtime)

  unfoldable pub three_way : Adapter c e → RuntimeSession c → Adapter c e × Result Bool
  three_way self remote_session =
      let probe = execute e (merge_operation remote_session) self.runtime.session in
      after_probe (with_session self probe.0) remote_session probe.1

  -- What follows the guard against a duplicate identity.
  unfoldable pub reconcile : Adapter c e → RuntimeSession c → Adapter c e × Result Bool
  reconcile self remote_session =
      let local = self.runtime.session in
      let local_vector = from_metadata local.metadata in
      let remote_vector = from_metadata remote_session.metadata in
      if e.structurally_equivalent local.knowledge_structure remote_session.knowledge_structure
      then (converge self remote_session, ok true)
      else if dominates local_vector remote_vector
      then (resolved self, ok true)
      else if dominates remote_vector local_vector
      then fast_forward self remote_session
      else three_way self remote_session

  -- The method from its second step on.
  unfoldable pub apply_remote_session : Adapter c e → RuntimeSession c → Adapter c e × Result Bool
  apply_remote_session self remote_session =
      if duplicate_id_detected self remote_session
      then (report_duplicate self remote_session, ok false)
      else reconcile (record self { pending_duplicates = [] }) remote_session
