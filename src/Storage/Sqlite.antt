-- ===== src/Storage/Sqlite.antt =====
-- src/cks_runtime/storage/sqlite_storage.py: sessions, versions, the archive and the identity. A
-- method is one transaction on the tables. The JSON text of a column is held as the value that it
-- encodes; structures pass through the engine's own text, and patches through Storage/PatchCodec.
pub mod Loading
pub mod Overtaken
mod Tests
use cks_runtime.Prelude.{
  ℕ, String, List, [], ◌∷◌, ◌++◌, Bool, true, false, not, Option, none, some, string_eq, ◌==◌, leb,
  last?, map, select, take, sort_by, if◌then◌else◌,
}
use cks_runtime.Core.{Core, Codec, Patch}
use cks_runtime.Json.{Metadata}
use cks_runtime.Dict.{Dict, get, has, put, remove, keys, values}
use cks_runtime.Result.{Result, ok, raise, ◌>>=◌, concurrent_modification, integrity_error}
use cks_runtime.Session.{RuntimeSession}
use cks_runtime.Storage.Memory.{same_id, latest_version_id}
use cks_runtime.Storage.PatchCodec as PatchCodec
use cks_runtime.Storage.PatchCodec.{Value, Item, serialize_operators, deserialize_operators}
use cks_runtime.Storage.Stamp.{Stamp, datetime, at_most}
use cks_runtime.Versioning.Version.{RuntimeVersion}

-- What the storage takes from the engine: its text of a structure, the operators of a patch by their
-- classes and the patch that they make, and the freezing in the constructors of its objects.
pub record SqliteCodec (c : Core) : Type 0 where
  pub structures : Codec c
  pub operators : Patch c → List PatchCodec.Operator
  pub patch_of : List PatchCodec.Operator → Patch c
  pub freeze : Value → Value

-- The loop of a comprehension whose function may raise.
unfoldable pub map_result {ℓ κ} :
    {A : Type ℓ} {B : Type κ} → (A → Result B) → List A → Result (List B)
map_result f [] = ok []
map_result f (a ∷ rest) = f a >>= λ b. map_result f rest >>= λ bs. ok (b ∷ bs)

-- The JSON text `data` of a row of `sessions`.
pub record SessionData : Type 0 where
  pub session_id : String
  pub knowledge_structure : String
  pub metadata : Metadata
  pub snapshot_interval : ℕ
  pub version_history_ids : List String
  pub parent_session_id : Option String
  pub parent_version_id : Option String
  pub closed : Bool

pub record SessionRow : Type 0 where
  pub payload : SessionData
  pub latest_version_id : Option String
  pub modified_at : Stamp

-- A row of `versions`; `created_at` is in microseconds.
pub record VersionRow (c : Core) : Type 0 where
  pub session_id : String
  pub transaction_id : String
  pub knowledge_structure : Option String
  pub metadata : Metadata
  pub version_id : String
  pub created_at : ℕ
  pub state_hash : Option String
  pub patch : Option (List Item)

-- The tables by their primary keys. A query without ORDER BY promises no order; here it is that of
-- the first insertion.
pub record SqliteStorage (c : Core) : Type 0 where
  pub sessions : Dict String SessionRow
  pub versions : Dict String (VersionRow c)
  pub archive_sessions : Dict String SessionRow
  pub replica_id : Option String

-- latest_version_id IS ?
abbrev pub row_matches : SessionRow → String → Bool
row_matches row expected = same_id row.latest_version_id expected

abbrev pub modified_first : String × SessionRow → String × SessionRow → Bool
modified_first (_, r) (_, s) = at_most r.modified_at s.modified_at

-- WHERE ... ORDER BY modified_at ASC LIMIT ?
unfoldable pub oldest_sessions :
    (SessionRow → Bool) → ℕ → Dict String SessionRow → Dict String SessionRow
oldest_sessions keep limit rows =
    take limit (sort_by modified_first (select (λ (r : String × SessionRow). keep r.1) rows))

-- modified_at < ?
abbrev pub modified_before : ℕ → SessionRow → Bool
modified_before cutoff row = not (at_most (datetime cutoff) row.modified_at)

-- modified_at >= ?
abbrev pub modified_since : ℕ → SessionRow → Bool
modified_since watermark row = at_most (datetime watermark) row.modified_at

abbrev pub archived : Dict String SessionRow → String → Option SessionRow → Dict String SessionRow
archived archive id none = archive
archived archive id (some row) = put archive id row

module _ {c : Core} where
  -- The ids of a history.
  abbrev pub history_ids : List (RuntimeVersion c) → List String
  history_ids [] = []
  history_ids (v ∷ vs) = v.version_id ∷ history_ids vs

  unfoldable pub session_data : SqliteCodec c → RuntimeSession c → SessionData
  session_data codec s = record {
    session_id = s.session_id;
    knowledge_structure = codec.structures.serialize s.knowledge_structure;
    metadata = s.metadata;
    snapshot_interval = s.snapshot_interval;
    version_history_ids = history_ids s.version_history;
    parent_session_id = s.parent_session_id;
    parent_version_id = s.parent_version_id;
    closed = s.closed;
  }

  -- The row with its new text, written at `now`.
  abbrev pub session_row : SqliteCodec c → ℕ → RuntimeSession c → SessionRow
  session_row codec now s = record {
    payload = session_data codec s;
    latest_version_id = latest_version_id s;
    modified_at = datetime now;
  }

  abbrev pub write_session :
      SqliteCodec c → ℕ → RuntimeSession c → SqliteStorage c → SqliteStorage c
  write_session codec now s self = record self {
    sessions = put self.sessions s.session_id (session_row codec now s);
  }

  -- UPDATE ... WHERE session_id = ? AND latest_version_id IS ?, and the INSERT where there is no row.
  abbrev pub compare_and_set :
      Option SessionRow → String → SqliteStorage c → Result (SqliteStorage c)
  compare_and_set none expected written = ok written
  compare_and_set (some row) expected written =
      if row_matches row expected then ok written else raise concurrent_modification

  unfoldable pub save_session :
      SqliteCodec c
      → ℕ
      → SqliteStorage c
      → RuntimeSession c
      → Option String
      → Result (SqliteStorage c)
  save_session codec now self s none = ok (write_session codec now s self)
  save_session codec now self s (some expected) =
      compare_and_set (get self.sessions s.session_id) expected (write_session codec now s self)

  abbrev pub write_patch : SqliteCodec c → Option (Patch c) → Result (Option (List Item))
  write_patch codec none = ok none
  write_patch codec (some patch) =
      serialize_operators (codec.operators patch) >>= λ items. ok (some items)

  -- The text is `None` in a row with a patch, and a patch is written where there is no structure.
  abbrev pub version_texts :
      SqliteCodec c
      → Option c.Structure
      → Option (Patch c)
      → Result (Option String × Option (List Item))
  version_texts codec none patch = write_patch codec patch >>= λ items. ok (none, items)
  version_texts codec (some ks) patch = ok (some (codec.structures.serialize ks), none)

  abbrev pub row_of : ℕ → RuntimeVersion c → Option String × Option (List Item) → VersionRow c
  row_of created_at v texts = record {
    session_id = v.session_id;
    transaction_id = v.transaction_id;
    knowledge_structure = texts.0;
    metadata = v.metadata;
    version_id = v.version_id;
    created_at = created_at;
    state_hash = v.state_hash;
    patch = texts.1;
  }

  unfoldable pub version_row : SqliteCodec c → ℕ → RuntimeVersion c → Result (VersionRow c)
  version_row codec created_at v =
      version_texts codec v.knowledge_structure v.patch >>= λ texts. ok (row_of created_at v texts)

  -- The INSERT.
  abbrev pub insert_version : SqliteStorage c → VersionRow c → Result (SqliteStorage c)
  insert_version self row =
      if has self.versions row.version_id
      then raise integrity_error
      else ok (record self { versions = put self.versions row.version_id row })

  -- The creation time is a field of the version.
  unfoldable pub save_version :
      SqliteCodec c → ℕ → SqliteStorage c → RuntimeVersion c → Result (SqliteStorage c)
  save_version codec created_at self v =
      version_row codec created_at v >>= λ row. insert_version self row

  -- An empty text is read as no structure.
  abbrev pub parse_text : SqliteCodec c → Option String → Option c.Structure
  parse_text codec none = none
  parse_text codec (some ks) = if ks == "" then none else some (codec.structures.parse ks)

  abbrev pub read_patch : SqliteCodec c → Option (List Item) → Result (Option (Patch c))
  read_patch codec none = ok none
  read_patch codec (some items) =
      deserialize_operators codec.freeze items >>= λ operators. ok (some (codec.patch_of operators))

  abbrev pub version_of : SqliteCodec c → VersionRow c → Option (Patch c) → RuntimeVersion c
  version_of codec row patch = record {
    session_id = row.session_id;
    transaction_id = row.transaction_id;
    knowledge_structure = parse_text codec row.knowledge_structure;
    metadata = row.metadata;
    version_id = row.version_id;
    state_hash = row.state_hash;
    patch = patch;
  }

  unfoldable pub read_version : SqliteCodec c → VersionRow c → Result (RuntimeVersion c)
  read_version codec row = read_patch codec row.patch >>= λ patch. ok (version_of codec row patch)

  abbrev pub created_before : VersionRow c → VersionRow c → Bool
  created_before v w = leb v.created_at w.created_at

  -- The rows of `versions` that belong to a session, by their time of creation.
  unfoldable pub version_rows : SqliteStorage c → String → List (VersionRow c)
  version_rows self session_id =
      sort_by created_before
        (select (λ (row : VersionRow c). row.session_id == session_id) (values self.versions))

  unfoldable pub read_session :
      SqliteCodec c → SessionData → List (RuntimeVersion c) → RuntimeSession c
  read_session codec payload versions = record {
    knowledge_structure = codec.structures.parse payload.knowledge_structure;
    session_id = payload.session_id;
    metadata = payload.metadata;
    snapshot_interval = payload.snapshot_interval;
    diagnostics = [];
    version_history = versions;
    active_transaction = none;
    closed = payload.closed;
    parent_session_id = payload.parent_session_id;
    parent_version_id = payload.parent_version_id;
  }

  abbrev pub load_row :
      SqliteCodec c
      → SqliteStorage c
      → String
      → Option SessionRow
      → Result (Option (RuntimeSession c))
  load_row codec self session_id none = ok none
  load_row codec self session_id (some row) =
      map_result (read_version codec) (version_rows self session_id) >>= λ versions.
      ok (some (read_session codec row.payload versions))

  unfoldable pub load_session :
      SqliteCodec c → SqliteStorage c → String → Result (Option (RuntimeSession c))
  load_session codec self session_id = load_row codec self session_id (get self.sessions session_id)

  unfoldable pub has_session : SqliteStorage c → String → Bool
  has_session self session_id = has self.sessions session_id

  -- The loop over the ids of a query.
  abbrev pub with_loaded :
      Option (RuntimeSession c) → List (RuntimeSession c) → List (RuntimeSession c)
  with_loaded none sessions = sessions
  with_loaded (some s) sessions = s ∷ sessions

  unfoldable pub load_all :
      SqliteCodec c → SqliteStorage c → List String → Result (List (RuntimeSession c))
  load_all codec self [] = ok []
  load_all codec self (id ∷ ids) = load_session codec self id >>= λ found.
      load_all codec self ids >>= λ sessions. ok (with_loaded found sessions)

  unfoldable pub list_sessions : SqliteCodec c → SqliteStorage c → Result (List (RuntimeSession c))
  list_sessions codec self = load_all codec self (keys self.sessions)

  unfoldable pub list_sessions_modified_before :
      SqliteCodec c → SqliteStorage c → ℕ → ℕ → Result (List (RuntimeSession c))
  list_sessions_modified_before codec self cutoff limit =
      load_all codec self (keys (oldest_sessions (modified_before cutoff) limit self.sessions))

  unfoldable pub list_sessions_modified_since :
      SqliteCodec c → SqliteStorage c → ℕ → ℕ → Result (List (RuntimeSession c))
  list_sessions_modified_since codec self watermark limit =
      load_all codec self (keys (oldest_sessions (modified_since watermark) limit self.sessions))

  unfoldable pub archive_session : SqliteStorage c → String → SqliteStorage c
  archive_session self session_id = record self {
    archive_sessions = archived self.archive_sessions session_id (get self.sessions session_id);
    sessions = remove self.sessions session_id;
  }

  abbrev pub read_optional :
      SqliteCodec c → Option (VersionRow c) → Result (Option (RuntimeVersion c))
  read_optional codec none = ok none
  read_optional codec (some row) = read_version codec row >>= λ version. ok (some version)

  unfoldable pub load_version :
      SqliteCodec c → SqliteStorage c → String → Result (Option (RuntimeVersion c))
  load_version codec self version_id = read_optional codec (get self.versions version_id)

  unfoldable pub has_version : SqliteStorage c → String → Bool
  has_version self version_id = has self.versions version_id

  unfoldable pub list_versions : SqliteCodec c → SqliteStorage c → Result (List (RuntimeVersion c))
  list_versions codec self = map_result (read_version codec) (values self.versions)

  unfoldable pub clear : SqliteStorage c → SqliteStorage c
  clear self = record self { sessions = []; versions = [] }

  -- The INSERT, and the reading after it was refused since another caller had inserted a row.
  abbrev pub inserted_id : Option String → String → SqliteStorage c → SqliteStorage c × String
  inserted_id none candidate self = (record self { replica_id = some candidate }, candidate)
  inserted_id (some id) candidate self = (self, id)

  -- `seen` is what the first SELECT gave; the state is that at the INSERT, which may be a later one.
  unfoldable pub get_or_create_replica_id :
      Option String → SqliteStorage c → String → SqliteStorage c × String
  get_or_create_replica_id (some id) self candidate = (self, id)
  get_or_create_replica_id none self candidate = inserted_id self.replica_id candidate self
