-- ===== src/Versioning/Manager.antt =====
-- src/cks_runtime/versioning/version_manager.py: the versions of a session. The fresh identifier
-- that `uuid4` gives a version is the argument `version_id`.
pub mod History
pub mod Commits
mod Tests
use cks_runtime.Prelude.{
  ℕ, ◌%◌, String, List, [], ◌∷◌, Bool, true, false, not, ◌||◌, Option, none, some, eqb, ◌==◌,
  string_eq, length, last?, if◌then◌else◌,
}
use cks_runtime.Json.{Metadata}
use cks_runtime.Core.{Core}
use cks_runtime.Result.{Result, ok, raise, missing_previous_state}
use cks_runtime.Session.{RuntimeSession, add_version}
use cks_runtime.Versioning.Version.{RuntimeVersion}
use cks_runtime.Versioning.VersionVector.{VersionVector, bump, from_metadata, to_metadata}

abbrev pub bump_if : VersionVector → Option String → VersionVector
bump_if vector none = vector
bump_if vector (some id) = bump vector id

-- The metadata after the clocks of the node and of the replica have been raised.
unfoldable pub raise_clocks : Metadata → Option String → Option String → Metadata
raise_clocks metadata none none = metadata
raise_clocks metadata node_id replica_id =
    to_metadata (bump_if (bump_if (from_metadata metadata) node_id) replica_id) metadata

module _ {c : Core} where
  abbrev pub transaction_id_of : RuntimeSession c → String
  transaction_id_of session = elim session.active_transaction [ none ↦ "" | some id ↦ id ]

  -- The hash of the session's state, where there is a bridge (`with_core`) that can compute it.
  abbrev pub state_hash_of : Bool → RuntimeSession c → Option String
  state_hash_of with_core session = if with_core then c.hash session.knowledge_structure else none

  -- The constructor of a session refuses an interval of 0.
  unfoldable pub records_snapshot : Bool → RuntimeSession c → Bool
  records_snapshot with_core session =
      let index = length session.version_history in
      not with_core || eqb index 0 || eqb (index % session.snapshot_interval) 0

  abbrev pub snapshot_version : Bool → RuntimeSession c → String → RuntimeVersion c
  snapshot_version with_core session version_id = record {
    session_id = session.session_id;
    transaction_id = transaction_id_of session;
    knowledge_structure = some session.knowledge_structure;
    metadata = session.metadata;
    version_id = version_id;
    state_hash = state_hash_of with_core session;
    patch = none;
  }

  abbrev pub delta_version : Bool → RuntimeSession c → String → c.Structure → RuntimeVersion c
  delta_version with_core session version_id previous_state = record {
    session_id = session.session_id;
    transaction_id = transaction_id_of session;
    knowledge_structure = none;
    metadata = session.metadata;
    version_id = version_id;
    state_hash = state_hash_of with_core session;
    patch = some (c.diff previous_state session.knowledge_structure);
  }

  -- The version that is recorded for a session whose clocks are up to date.
  unfoldable pub version_for :
      Bool → RuntimeSession c → String → Option c.Structure → Result (RuntimeVersion c)
  unfolding records_snapshot
  version_for with_core session version_id previous_state =
      if records_snapshot with_core session
      then ok (snapshot_version with_core session version_id)
      else (elim previous_state [
        | none ↦ raise missing_previous_state
        | some previous ↦ ok (delta_version with_core session version_id previous)
      ])

  abbrev pub attach :
      RuntimeSession c → Result (RuntimeVersion c) → RuntimeSession c × Result (RuntimeVersion c)
  attach session (raise e) = (session, raise e)
  attach session (ok version) = (add_version session version, ok version)

  -- The session after the call beside its result: the clocks are raised before anything can fail.
  unfoldable pub create :
      RuntimeSession c
      → Bool
      → Option c.Structure
      → Option String
      → Option String
      → String
      → RuntimeSession c × Result (RuntimeVersion c)
  unfolding version_for raise_clocks
  create session with_core previous_state node_id replica_id version_id =
      let raised = record session { metadata = raise_clocks session.metadata node_id replica_id } in
      attach raised (version_for with_core raised version_id previous_state)

  unfoldable pub latest : RuntimeSession c → Option (RuntimeVersion c)
  latest session = last? session.version_history

  abbrev pub find_version : List (RuntimeVersion c) → String → Option (RuntimeVersion c)
  find_version [] version_id = none
  find_version (version ∷ versions) version_id =
      if version.version_id == version_id then some version else find_version versions version_id

  unfoldable pub retrieve : RuntimeSession c → String → Option (RuntimeVersion c)
  retrieve session version_id = find_version session.version_history version_id

  unfoldable pub clear : RuntimeSession c → RuntimeSession c
  clear session = record session { version_history = [] }
