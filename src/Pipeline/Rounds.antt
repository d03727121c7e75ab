-- ===== src/Pipeline/Rounds.antt =====
-- The rounds of a commit (src/cks_runtime/pipeline/execution_pipeline.py), each of which may fail.
use cks_runtime.Prelude.{
  ◌++◌, Bool, true, false, Option, none, some, ◌≡◌, ◌≢◌, refl, sym, ap, ◌∙◌, inl, inr, ==_refl,
  Bool-cases, if◌then◌else◌, string_eq, arith,
}
use cks_runtime.Core.{Core}
use cks_runtime.Dict.{get}
use cks_runtime.Dict.Laws.{get-put}
use cks_runtime.Result.{Result, ok, raise, operation_failed, core_failed, concurrent_modification}
use cks_runtime.Session.{RuntimeSession}
use cks_runtime.Storage.Memory.{save_session, load_session}
use cks_runtime.Transaction as Tx
use cks_runtime.Transaction.{
  ExecutionResult, add_result, Operations, RuntimeTransaction, OperationStatus, pending, running,
  completed, failed, TransactionStatus, set_status,
}
use cks_runtime.Pipeline.{
  Runtime, finish, store_session, rollback, apply_state_mutation, write_back, is_failed, handle,
  touched,
}

write_back-keeps :
    {c : Core} (status : OperationStatus) (changes : Bool) (payload : Option c.Structure)
    (s : RuntimeSession c)
    → ((write_back status changes payload s).version_history ≡ s.version_history)
      × ((write_back status changes payload s).session_id ≡ s.session_id)
      × ((write_back status changes payload s).active_transaction ≡ s.active_transaction)
write_back-keeps completed true (some structure) s = (refl, refl, refl)
write_back-keeps completed true none s = (refl, refl, refl)
write_back-keeps completed false payload s = (refl, refl, refl)
write_back-keeps pending changes payload s = (refl, refl, refl)
write_back-keeps running changes payload s = (refl, refl, refl)
write_back-keeps failed changes payload s = (refl, refl, refl)

module _ {c : Core} {o : Operations c} where
  -- What the operations of a transaction leave alone.
  pub record Steady (self after : Runtime c o) : Type 0 where
    pub history : after.session.version_history ≡ self.session.version_history
    pub session_id : after.session.session_id ≡ self.session.session_id
    pub initial : after.transaction.initial_state ≡ self.transaction.initial_state
    pub status : after.transaction.status ≡ self.transaction.status
    pub storage : after.storage ≡ self.storage
    pub active : after.session.active_transaction ≡ self.session.active_transaction

  pub touched-Steady :
      (operation : o.Operation) (self : Runtime c o) → Steady self (touched operation self)
  touched-Steady operation self = record {
    history = refl;
    session_id = refl;
    initial = refl;
    status = refl;
    storage = refl;
    active = refl;
  }

  -- The transaction is rolled back: the session has the state and the versions from before the
  -- transaction and takes part in none, and is stored like that; no version is stored. Its metadata
  -- are those that the operations left.
  pub record RolledBack (self after : Runtime c o) : Type 0 where
    pub restored : after.session.knowledge_structure ≡ self.transaction.initial_state
    pub history : after.session.version_history ≡ self.session.version_history
    pub detached : after.session.active_transaction ≡ none
    pub status :
        Tx.is_completed self.transaction.status ≡ false → after.transaction.status ≡ Tx.rolled_back
    pub versions : after.storage.versions ≡ self.storage.versions
    pub saved : load_session after.storage self.session.session_id ≡ some after.session

  pub Steady-refl : (self : Runtime c o) → Steady self self
  Steady-refl self = record {
    history = refl;
    session_id = refl;
    initial = refl;
    status = refl;
    storage = refl;
    active = refl;
  }

  Steady-trans : (x y z : Runtime c o) → Steady x y → Steady y z → Steady x z
  Steady-trans x y z p q = record {
    history = q.history ∙ p.history;
    session_id = q.session_id ∙ p.session_id;
    initial = q.initial ∙ p.initial;
    status = q.status ∙ p.status;
    storage = q.storage ∙ p.storage;
    active = q.active ∙ p.active;
  }

  pub RolledBack-Steady : (x y z : Runtime c o) → Steady x y → RolledBack y z → RolledBack x z
  RolledBack-Steady x y z p q = record {
    restored = q.restored ∙ p.initial;
    history = q.history ∙ p.history;
    detached = q.detached;
    status = λ h. q.status (ap Tx.is_completed p.status ∙ h);
    versions = q.versions ∙ ap (λ s. s.versions) p.storage;
    saved = ap (load_session z.storage) (sym p.session_id) ∙ q.saved;
  }

  pub rollback-RolledBack : (self : Runtime c o) → RolledBack self (rollback self)
  unfolding rollback finish store_session save_session load_session set_status
  rollback-RolledBack self = record {
    restored = refl;
    history = refl;
    detached = refl;
    status = λ h. rw (h, set_status);
    versions = refl;
    saved =
        get-put self.storage.sessions self.session.session_id self.session.session_id
          (rollback self).session
        ∙ ap
            (λ b.
              if b
              then some (rollback self).session
              else get self.storage.sessions self.session.session_id)
            (==_refl self.session.session_id);
  }

  -- A part of a commit goes on with a steady state, or has rolled the transaction back, unless it was
  -- the engine that raised.
  abbrev pub Goes : Runtime c o → Runtime c o → Result (Unit {0}) → Type 0
  Goes self after (ok done) = Steady self after
  Goes self after (raise e) =
      ((e ≢ core_failed) → RolledBack self after) × (e ≢ concurrent_modification)

  pub Goes-Steady :
      (x y z : Runtime c o) (r : Result (Unit {0})) → Steady x y → Goes y z r → Goes x z r
  Goes-Steady x y z (ok done) p q = Steady-trans x y z p q
  Goes-Steady x y z (raise e) p q = ((λ n. RolledBack-Steady x y z p (q.0 n)), q.1)

  pub failure-Goes :
      (result : ExecutionResult c) (self : Runtime c o)
      → Goes self
          (rollback (record self { transaction = add_result result self.transaction }))
          (raise operation_failed)
  failure-Goes result self =
      let noted : Runtime c o = record self { transaction = add_result result self.transaction } in
      (
        (λ n.
            RolledBack-Steady self noted (rollback noted)
              (record {
                history = refl;
                session_id = refl;
                initial = refl;
                status = refl;
                storage = refl;
                active = refl;
              })
              (rollback-RolledBack noted)),
        λ h. absurd (ground (arith, h)),
      )

  pub handle-Goes :
      (operation : o.Operation) (result : ExecutionResult c) (self : Runtime c o)
      → Goes self (handle operation result self).0 (handle operation result self).1
  unfolding handle apply_state_mutation
  handle-Goes operation result self = elim (Bool-cases (is_failed result.status)) [
    | inl bad ↦ rw bad (failure-Goes result self)
    | inr good ↦
        let s : RuntimeSession c = record self.session {
          diagnostics = self.session.diagnostics ++ result.diagnostics;
        } in
        let (h, i, a) =
          write_back-keeps result.status (o.changes_state operation) result.payload s in
        rw good (record {
          history = h;
          session_id = i;
          initial = refl;
          status = refl;
          storage = refl;
          active = a;
        })
  ]
