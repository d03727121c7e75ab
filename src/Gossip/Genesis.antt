-- ===== src/Gossip/Genesis.antt =====
-- src/cks_runtime/gossip/adapter.py, `GossipAdapter`: sessions before they are exchanged, and the copy
-- that is registered of a remote session that this replica does not track.
use cks_runtime.Prelude.{String, [], Option, none, some, string_eq, false}
use cks_runtime.Core.{Core}
use cks_runtime.Dict.{put}
use cks_runtime.Json.{text}
use cks_runtime.Operations.{empty_state_version_id}
use cks_runtime.Session.{RuntimeSession}
use cks_runtime.Versioning.VersionVector.{VersionVector, from_metadata}

module _ {c : Core} where
  -- `get_local_vector`, of a session that is tracked or not
  abbrev pub get_local_vector : Option (RuntimeSession c) → VersionVector
  get_local_vector none = record { clocks = [] }
  get_local_vector (some session) = from_metadata session.metadata

  abbrev pub anchor_genesis : RuntimeSession c → RuntimeSession c
  anchor_genesis session = record session { parent_version_id = some empty_state_version_id }

  -- The session that `_bootstrap_remote_session` registers, with the fresh id of its node.
  unfoldable pub bootstrap_session : RuntimeSession c → String → RuntimeSession c
  bootstrap_session remote_session node_id = record {
    knowledge_structure = remote_session.knowledge_structure;
    session_id = remote_session.session_id;
    metadata = put remote_session.metadata "node_id" (text node_id);
    snapshot_interval = remote_session.snapshot_interval;
    diagnostics = [];
    version_history = [];
    active_transaction = none;
    closed = false;
    parent_session_id = remote_session.parent_session_id;
    parent_version_id = some empty_state_version_id;
  }
