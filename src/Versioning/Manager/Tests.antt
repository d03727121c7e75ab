-- ===== src/Versioning/Manager/Tests.antt =====
-- Runs of commits on the small engine.
use cks_runtime.Prelude.{false, List, [], ◌∷◌, ◌≡◌, refl, String, none, some, true, string_eq}
use cks_runtime.Core.Small.{small_core}
use cks_runtime.Core.{Faithful}
use cks_runtime.Dict.{Dict, get}
use cks_runtime.Result.{ok}
use cks_runtime.Session.{RuntimeSession, get_version_state}
use cks_runtime.Versioning.Manager.Commits.{commit_all, get_version_state-commit_all}

small_core-Faithful : Faithful small_core
small_core-Faithful = record { evolve-diff = λ a b. refl; diff-AddsNew = λ a b. tt }

abbrev fresh : RuntimeSession small_core
fresh = record {
  knowledge_structure = [];
  session_id = "s";
  metadata = [];
  snapshot_interval = 2;
  diagnostics = [];
  version_history = [];
  active_transaction = none;
  closed = false;
  parent_session_id = none;
  parent_version_id = none;
}

abbrev commits : Dict String (List String)
commits = ("v0", "a" ∷ []) ∷ ("v1", "a" ∷ "b" ∷ []) ∷ ("v2", "b" ∷ []) ∷ ("v3", []) ∷ []

get_version_state-commit_all_example :
    get_version_state (commit_all (some "n") none fresh commits) "v1" true ≡ ok ("a" ∷ "b" ∷ [])
unfolding get
get_version_state-commit_all_example =
    get_version_state-commit_all (some "n") none small_core-Faithful fresh commits refl "v1"
      ("a" ∷ "b" ∷ []) refl
