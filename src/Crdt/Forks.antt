-- ===== src/Crdt/Forks.antt =====
-- src/cks_runtime/crdt/crdt_store.py, `InMemoryCRDTStore`: the conflict events. The fresh id of an
-- event is an argument, and time stamps are left out.
use cks_runtime.Prelude.{String, List, [], ◌∷◌, Option, none, some, string_eq}
use cks_runtime.Dict.{Dict, get, put}
use cks_runtime.Crdt.MerkleTree.{Codes}
use cks_runtime.Crdt.VersionVector.{VersionVector}

pub data Status : Type 0 where
  pending resolved : Status

pub record ConflictEvent : Type 0 where
  pub pointer_key : String
  pub conflicting_object_ids : List Codes
  pub vector_clocks : List VersionVector
  pub status : Status

abbrev pub ConflictEvents : Type 0
ConflictEvents = Dict String ConflictEvent

unfoldable pub escalate_fork :
    ConflictEvents → String → String → List Codes → List VersionVector → ConflictEvents
escalate_fork events event_id pointer_key object_ids vector_clocks = put events event_id (record {
  pointer_key = pointer_key;
  conflicting_object_ids = object_ids;
  vector_clocks = vector_clocks;
  status = pending;
})

-- A pending event as it is listed: with its id, and without the status.
pub record PendingFork : Type 0 where
  pub event_id : String
  pub pointer_key : String
  pub conflicting_object_ids : List Codes
  pub vector_clocks : List VersionVector

abbrev pub listed : String → ConflictEvent → PendingFork
listed event_id event = record {
  event_id = event_id;
  pointer_key = event.pointer_key;
  conflicting_object_ids = event.conflicting_object_ids;
  vector_clocks = event.vector_clocks;
}

unfoldable pub list_pending_forks : ConflictEvents → List PendingFork
list_pending_forks [] = []
list_pending_forks ((event_id, event) ∷ events) =
    let rest = list_pending_forks events in
    elim event.status [ pending ↦ listed event_id event ∷ rest | resolved ↦ rest ]

-- The rest of `mark_fork_resolved`, from the record of the event.
abbrev pub resolve_found : ConflictEvents → String → Option ConflictEvent → ConflictEvents
resolve_found events event_id none = events
resolve_found events event_id (some event) =
    put events event_id (record event { status = resolved })

unfoldable pub mark_fork_resolved : ConflictEvents → String → ConflictEvents
mark_fork_resolved events event_id = resolve_found events event_id (get events event_id)
