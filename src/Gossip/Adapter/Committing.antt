-- ===== src/Gossip/Adapter/Committing.antt =====
-- A transaction of one operation, from its begin to its commit (src/cks_runtime/gossip/adapter.py).
use cks_runtime.Prelude.{
  [], ◌∷◌, ◌++◌, Bool, true, false, some, ◌≡◌, sym, ap, Bool-cases, inl, inr, if◌then◌else◌, nat_eq,
  string_eq,
}
use mathlib.Core.Path.{subst}
use cks_runtime.Core.{Core}
use cks_runtime.Result.{Result, ok, raise, active_transaction_exists}
use cks_runtime.Operations.{Engine, Operation, payload, execute, operations}
use cks_runtime.Pipeline.{Validation, Runtime, begin}
use cks_runtime.Session.{has_active_transaction}
use cks_runtime.Transaction.{created}
use cks_runtime.Versioning.Version.{RuntimeVersion}
use cks_runtime.Gossip.Adapter.{Fresh, commit_begun, commit_operation}
use cks_runtime.Gossip.Adapter.Commits.{Adopted, commit-Adopted}

module _ {c : Core} (e : Engine c) (validate : Validation c) (fresh : Fresh) where
  -- A commit raises where a transaction is active, and else adopts what the operation gives.
  pub data Committing (runtime : Runtime c (operations e)) (s : c.Structure)
      (r : Runtime c (operations e) × Result (RuntimeVersion c)) : Type 0 where
    stopped :
        has_active_transaction runtime.session ≡ true
        → r ≡ (runtime, raise active_transaction_exists)
        → Committing runtime s r
    adopted : Adopted runtime.replica_id runtime.session s r.0.session → Committing runtime s r

  -- The runtime with a new transaction.
  abbrev started : Runtime c (operations e) → Runtime c (operations e)
  started runtime = record runtime {
    transaction = record {
      transaction_id = fresh.transaction_id;
      operations = [];
      requests = [];
      results = [];
      status = created;
      initial_state = runtime.session.knowledge_structure;
    };
    tracked = runtime.tracked ++ fresh.transaction_id ∷ [];
    session = record runtime.session { active_transaction = some fresh.transaction_id };
  }

  begin-if :
      (runtime : Runtime c (operations e)) (b : Bool)
      → has_active_transaction runtime.session ≡ b
      → begin runtime fresh.transaction_id
        ≡ (if b then raise active_transaction_exists else ok (started runtime))
  unfolding begin
  begin-if runtime b h =
      ap (λ b. if b then raise active_transaction_exists else ok (started runtime)) h

  pub commit_operation-Committing :
      (operation : Operation c) (runtime : Runtime c (operations e)) (s : c.Structure)
      → (execute e operation
          (record runtime.session { active_transaction = some fresh.transaction_id })).1
        ≡ some (payload s)
      → (execute e operation
          (record runtime.session { active_transaction = some fresh.transaction_id })).0.metadata
        ≡ runtime.session.metadata
      → Committing runtime s (commit_operation e validate fresh operation runtime)
  unfolding commit_operation
  commit_operation-Committing operation runtime s h same =
      elim (Bool-cases (has_active_transaction runtime.session)) [
        | inl active ↦
            stopped active
              (ap (commit_begun e validate fresh operation runtime) (begin-if runtime true active))
        | inr idle ↦ adopted (
            subst
              (λ (r : Runtime c (operations e) × Result (RuntimeVersion c)).
                Adopted runtime.replica_id runtime.session s r.0.session)
              (sym (
                ap (commit_begun e validate fresh operation runtime) (begin-if runtime false idle)))
              (commit-Adopted e validate runtime fresh.transaction_id fresh.version_id operation s h
                same))
      ]
