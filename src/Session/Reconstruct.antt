-- ===== src/Session/Reconstruct.antt =====
-- src/cks_runtime/session/reconstruct.py: a version that is read once more from the storage. What
-- `load_session` gives for the session is an argument; only the matching error is caught.
use cks_runtime.Prelude.{String, Bool, Option, none, some, ◌≡◌, ap, ◌∙◌, inl, inr, ◌⊎◌}
use cks_runtime.Core.{Core}
use cks_runtime.Result.{Result, ok, raise, hash_mismatch}
use cks_runtime.Session.{RuntimeSession, get_version_state}

module _ {c : Core} where
  -- The second attempt, or the first error where the session is gone.
  abbrev pub second_attempt : Option (RuntimeSession c) → String → Bool → Result c.Structure
  second_attempt none version_id with_core = raise hash_mismatch
  second_attempt (some fresh) version_id with_core = get_version_state fresh version_id with_core

  abbrev pub after_first :
      Result c.Structure → Option (RuntimeSession c) → String → Bool → Result c.Structure
  after_first (ok state) loaded version_id with_core = ok state
  after_first (raise hash_mismatch) loaded version_id with_core =
      second_attempt loaded version_id with_core
  after_first (raise e) loaded version_id with_core = raise e

  unfoldable pub reconstruct_with_retry :
      Option (RuntimeSession c) → RuntimeSession c → String → Bool → Result c.Structure
  reconstruct_with_retry loaded session version_id with_core =
      after_first (get_version_state session version_id with_core) loaded version_id with_core

  -- A mismatch that was due to the reading of the session at hand is cleared: where the session that is
  -- loaded afresh reconstructs the version, so does the call, whether the first attempt gave the same
  -- state or a mismatch.
  pub reconstruct_with_retry-fresh :
      (session fresh : RuntimeSession c) (version_id : String) (with_core : Bool)
      (state : c.Structure)
      → get_version_state fresh version_id with_core ≡ ok state
      → (get_version_state session version_id with_core ≡ ok state)
        ⊎ (get_version_state session version_id with_core ≡ raise hash_mismatch)
      → reconstruct_with_retry (some fresh) session version_id with_core ≡ ok state
  unfolding reconstruct_with_retry
  reconstruct_with_retry-fresh session fresh version_id with_core state reads (inl same) =
      ap (λ r. after_first r (some fresh) version_id with_core) same
  reconstruct_with_retry-fresh session fresh version_id with_core state reads (inr mismatch) =
      ap (λ r. after_first r (some fresh) version_id with_core) mismatch ∙ reads
