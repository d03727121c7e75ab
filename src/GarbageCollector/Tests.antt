-- ===== src/GarbageCollector/Tests.antt =====
-- Sweeps at concrete inputs.
use cks_runtime.Prelude.{[], ◌∷◌, refl, none, true, false, String, Bool, string_eq}
use cks_runtime.Dict.{get}
use cks_runtime.Core.Small.{small_core}
use cks_runtime.Storage.Stamp.{datetime}
use cks_runtime.Storage.Sqlite.{SqliteCodec, SqliteStorage, SessionRow}
use cks_runtime.GarbageCollector.{GarbageCollector, sweep}
use cks_runtime.GarbageCollector.Sweeping.{IsFiled, Kept, sweep-Kept}

abbrev codec : SqliteCodec small_core
codec = record {
  structures = record { serialize = λ s. "[]"; parse = λ t. [] };
  operators = λ patch. [];
  patch_of = λ operators. [];
  freeze = λ v. v;
}

abbrev row : String → Bool → SessionRow
row id closed = record {
  payload = record {
    session_id = id;
    knowledge_structure = "[]";
    metadata = [];
    snapshot_interval = 10;
    version_history_ids = [];
    parent_session_id = none;
    parent_version_id = none;
    closed = closed;
  };
  latest_version_id = none;
  modified_at = datetime 1000;
}

abbrev storage : SqliteStorage small_core
storage = record {
  sessions = ("a", row "a" false) ∷ ("b", row "b" true) ∷ [];
  versions = [];
  archive_sessions = [];
  replica_id = none;
}

abbrev one_by_one : GarbageCollector
one_by_one = record { retention = 86400; batch_size = 1 }

storage-IsFiled : IsFiled storage
unfolding get
storage-IsFiled = record { unique = (refl, (refl, tt)); filed = (refl, (refl, tt)) }

sweep-Kept_example :
    Kept 113600
      (sweep (record one_by_one { batch_size = 100 }) codec 200000 storage).0
      "b"
      (row "b" true)
unfolding get
sweep-Kept_example =
    sweep-Kept (record one_by_one { batch_size = 100 }) codec 200000 storage "b" (row "b" true)
      storage-IsFiled refl
