-- ===== src/Operations/Merging.antt =====
-- Merges of sessions neither of which covers the other
-- (src/cks_runtime/operations/operation_types.py).
use cks_runtime.Prelude.{◌≡◌, refl, false, Option, String}
use cks_runtime.Core.{Core}
use cks_runtime.Operations.{
  Engine, MergeOperation, Outcome, merge_with_base, base_of, merge_sources,
}
use cks_runtime.Session.{RuntimeSession, get_version_state}
use cks_runtime.Versioning.VersionVector.{dominates, from_metadata}

module _ {c : Core} (e : Engine c) (operation : MergeOperation c) (source : RuntimeSession c) where
  -- The outcome of the merge proper.
  abbrev pub three_way_outcome : RuntimeSession c → Option (Outcome c)
  three_way_outcome session =
      merge_with_base e operation source session (base_of e operation source session)

  -- The session is left alone.
  pub merge_sources-apart :
      (session : RuntimeSession c)
      → dominates (from_metadata session.metadata) (from_metadata source.metadata) ≡ false
      → dominates (from_metadata source.metadata) (from_metadata session.metadata) ≡ false
      → merge_sources e operation source session ≡ (session, three_way_outcome session)
  unfolding merge_sources
  merge_sources-apart session ahead behind = rw (ahead, behind) refl

  -- The outcome does not depend on the transaction that is active.
  pub three_way_outcome-active :
      (session : RuntimeSession c) (id : Option String)
      → three_way_outcome (record session { active_transaction = id }) ≡ three_way_outcome session
  unfolding get_version_state
  three_way_outcome-active session id = refl
