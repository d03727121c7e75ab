-- ===== src/Storage/Sqlite/Tests.antt =====
-- Runs of the storage in SQLite at concrete inputs, over an engine whose structures are texts.
use Prim.Native.String.{String}
use cks_runtime.Prelude.{
  [], ◌∷◌, ◌≡◌, refl, none, some, false, true, ap, ◌∙◌, map, List, sort_by, string_eq,
}
use cks_runtime.Dict.{get, put, has}
use cks_runtime.Core.{Patch, Operator, add_object, remove_object, other}
use cks_runtime.Storage.PatchCodec as PatchCodec
use cks_runtime.Storage.PatchCodec.{
  Identity, mapping, end, thaw, serialize_operator, serialize_operators,
}
use cks_runtime.Storage.PatchCodec.Small.{freeze, freeze-Freezes}
use cks_runtime.Storage.PatchCodec.Roundtrip.{IsFrozen}
use cks_runtime.Core.Small.{text_core, quoting, quoting-Exact}
use cks_runtime.Result.{Result, ok, raise, concurrent_modification}
use cks_runtime.Session.{RuntimeSession}
use cks_runtime.Versioning.Version.{RuntimeVersion}
use cks_runtime.Storage.Sqlite.{
  SqliteCodec, map_result, SqliteStorage, save_session, save_version, load_session, version_row,
  read_version, version_rows, session_data,
}
use cks_runtime.Storage.Sqlite.Loading.{IsExact, detached, read_back, load_session-commit}
use cks_runtime.Storage.Sqlite.Overtaken.{load_session-overtaken}

-- The patches of the small engine as operators of the four classes, and back.
abbrev named : String → Identity
named id = record { id = id; type = ""; name = "" }

abbrev operator_of : Operator String String → PatchCodec.Operator
operator_of (add_object obj) = PatchCodec.add_object (named obj) (mapping true end)
operator_of (remove_object id) = PatchCodec.remove_object id
operator_of (other x) = PatchCodec.remove_relation x

abbrev from_operator : PatchCodec.Operator → Operator String String
from_operator (PatchCodec.add_object identity structure) = add_object identity.id
from_operator (PatchCodec.add_relation identity participants relation_type structure) = other ""
from_operator (PatchCodec.remove_object id) = remove_object id
from_operator (PatchCodec.remove_relation id) = other id
from_operator PatchCodec.unknown = other ""

abbrev codec : SqliteCodec text_core
codec = record {
  structures = quoting;
  operators = λ patch. map operator_of patch;
  patch_of = λ operators. map from_operator operators;
  freeze = freeze;
}

operator_back : (op : Operator String String) → from_operator (operator_of op) ≡ op
operator_back (add_object obj) = refl
operator_back (remove_object id) = refl
operator_back (other x) = refl

patch_back : (p : Patch text_core) → codec.patch_of (codec.operators p) ≡ p
patch_back [] = refl
patch_back (op ∷ ops) =
    ap (λ x. x ∷ codec.patch_of (codec.operators ops)) (operator_back op)
    ∙ ap (λ xs. op ∷ xs) (patch_back ops)

codec-IsExact : IsExact codec
codec-IsExact = record {
  structures = quoting-Exact;
  patch_of-operators = patch_back;
  freezing = freeze-Freezes;
}

abbrev version : String → RuntimeVersion text_core
version id = record {
  session_id = "s";
  transaction_id = "t";
  knowledge_structure = some "state";
  metadata = [];
  version_id = id;
  state_hash = none;
  patch = none;
}

abbrev with_history : List (RuntimeVersion text_core) → RuntimeSession text_core
with_history history = record {
  knowledge_structure = "state";
  session_id = "s";
  metadata = [];
  snapshot_interval = 10;
  diagnostics = "note" ∷ [];
  version_history = history;
  active_transaction = some "t";
  closed = false;
  parent_session_id = none;
  parent_version_id = none;
}

abbrev empty : SqliteStorage text_core
empty = record { sessions = []; versions = []; archive_sessions = []; replica_id = none }

abbrev ok_or {ℓ} : {A : Type ℓ} → A → Result A → A
ok_or a (ok b) = b
ok_or a (raise e) = a

-- A delta.
abbrev delta : String → RuntimeVersion text_core
delta id = record (version id) {
  knowledge_structure = none;
  patch = some (remove_object "x" ∷ add_object "y" ∷ []);
}

-- One commit on "v0", which is the latest version of the session.
abbrev old : SqliteStorage text_core
old = ok_or empty (save_version codec 1 empty (version "v0"))

abbrev start : SqliteStorage text_core
start = ok_or empty (save_session codec 100 old (with_history (version "v0" ∷ [])) none)

abbrev first : RuntimeSession text_core
first = with_history (version "v0" ∷ delta "a" ∷ [])

abbrev second : RuntimeSession text_core
second = with_history (version "v0" ∷ version "b" ∷ [])

abbrev s1 : SqliteStorage text_core
s1 = ok_or empty (save_version codec 2 start (delta "a"))

abbrev s2 : SqliteStorage text_core
s2 = ok_or empty (save_session codec 200 s1 first (some "v0"))

abbrev s3 : SqliteStorage text_core
s3 = ok_or empty (save_version codec 3 s2 (version "b"))

load_session-commit_example : load_session codec s2 "s" ≡ ok (some (detached first))
unfolding save_version save_session version_row version_rows sort_by session_data get put has
    read_version map_result serialize_operators serialize_operator thaw IsFrozen
load_session-commit_example =
    load_session-commit codec 2 200 start s1 s2 (delta "a") first (some "v0") (version "v0" ∷ [])
      codec-IsExact (tt, ((refl, tt), tt)) refl (refl, tt) refl refl refl refl

load_session-overtaken_example :
    (save_session codec 300 s3 second (some "v0") ≡ raise concurrent_modification)
    × (load_session codec s3 "s"
        ≡ ok (some (read_back first (version "v0" ∷ delta "a" ∷ version "b" ∷ []))))
unfolding save_version save_session version_row version_rows sort_by session_data get put has
    read_version map_result serialize_operators serialize_operator thaw IsFrozen
load_session-overtaken_example =
    load_session-overtaken codec 2 3 200 300 start s1 s2 s3 (delta "a") (version "b") first second
      "v0" (version "v0" ∷ []) codec-IsExact ((tt, ((refl, tt), tt)), refl) (refl, refl, refl)
      ((refl, tt), (refl, (refl, tt))) refl refl refl refl refl refl
