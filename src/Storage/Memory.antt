-- ===== src/Storage/Memory.antt =====
-- src/cks_runtime/storage/memory_storage.py: sessions and versions in memory. A deep copy is the
-- value itself. The graph registry, export and import are left out.
pub mod Saves
use cks_runtime.Prelude.{
  String, List, [], ◌∷◌, Bool, true, false, Option, none, some, string_eq, ◌==◌, last?,
  if◌then◌else◌,
}
use cks_runtime.Core.{Core}
use cks_runtime.Dict.{Dict, get, has, put, values}
use cks_runtime.Result.{Result, ok, raise, concurrent_modification}
use cks_runtime.Session.{RuntimeSession}
use cks_runtime.Versioning.Version.{RuntimeVersion}

pub record InMemoryStorage (c : Core) : Type 0 where
  pub sessions : Dict String (RuntimeSession c)
  pub versions : Dict String (RuntimeVersion c)
  pub replica_id : Option String

-- current_latest == expected_version_id, for an expected id that is given
abbrev pub same_id : Option String → String → Bool
same_id none expected = false
same_id (some id) expected = id == expected

module _ {c : Core} where
  abbrev pub version_id_of : Option (RuntimeVersion c) → Option String
  version_id_of none = none
  version_id_of (some version) = some version.version_id

  -- `version_history[-1].version_id`, or none of an empty history
  abbrev pub latest_version_id : RuntimeSession c → Option String
  latest_version_id session = version_id_of (last? session.version_history)

  unfoldable pub current_latest : InMemoryStorage c → String → Option String
  current_latest self session_id = elim (get self.sessions session_id) [
    | none ↦ none
    | some current ↦ latest_version_id current
  ]

  unfoldable pub save_session :
      InMemoryStorage c → RuntimeSession c → Option String → Result (InMemoryStorage c)
  save_session self session none =
      ok (record self { sessions = put self.sessions session.session_id session })
  save_session self session (some expected) =
      if same_id (current_latest self session.session_id) expected
      then ok (record self { sessions = put self.sessions session.session_id session })
      else raise concurrent_modification

  unfoldable pub load_session : InMemoryStorage c → String → Option (RuntimeSession c)
  load_session self session_id = get self.sessions session_id

  unfoldable pub has_session : InMemoryStorage c → String → Bool
  has_session self session_id = has self.sessions session_id

  abbrev pub list_sessions : InMemoryStorage c → List (RuntimeSession c)
  list_sessions self = values self.sessions

  unfoldable pub save_version : InMemoryStorage c → RuntimeVersion c → InMemoryStorage c
  save_version self version = record self {
    versions = put self.versions version.version_id version;
  }

  unfoldable pub load_version : InMemoryStorage c → String → Option (RuntimeVersion c)
  load_version self version_id = get self.versions version_id

  unfoldable pub has_version : InMemoryStorage c → String → Bool
  has_version self version_id = has self.versions version_id

  abbrev pub list_versions : InMemoryStorage c → List (RuntimeVersion c)
  list_versions self = values self.versions

  unfoldable pub clear : InMemoryStorage c → InMemoryStorage c
  clear self = record { sessions = []; versions = []; replica_id = none }

  -- The fresh identifier of `uuid4` is the argument.
  unfoldable pub get_or_create_replica_id : InMemoryStorage c → String → InMemoryStorage c × String
  get_or_create_replica_id self fresh = elim self.replica_id [
    | some id ↦ (self, id)
    | none ↦ (record self { replica_id = some fresh }, fresh)
  ]
