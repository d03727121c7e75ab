-- ===== src/Versioning/Version.antt =====
-- src/cks_runtime/versioning/version.py: an immutable version of a session. Creation times are left
-- out; the deep copies keep a version a value, which it is here anyway.
use cks_runtime.Prelude.{String, Bool, true, false, Option, none, some}
use cks_runtime.Json.{Metadata}
use cks_runtime.Core.{Core, Patch}

pub record RuntimeVersion (c : Core) : Type 0 where
  pub session_id : String
  pub transaction_id : String
  pub knowledge_structure : Option c.Structure
  pub metadata : Metadata
  pub version_id : String
  pub state_hash : Option String
  pub patch : Option (Patch c)

unfoldable pub is_snapshot : {c : Core} → RuntimeVersion c → Bool
is_snapshot self = elim self.knowledge_structure [ none ↦ false | some _ ↦ true ]
