-- ===== src/Pipeline/Success.antt =====
-- src/cks_runtime/pipeline/execution_pipeline.py: commits that return a version.
use cks_runtime.Prelude.{
  String, [], ◌∷◌, ◌++◌, false, Option, none, some, ◌≡◌, refl, sym, ap, ◌∙◌, ==_refl, if◌then◌else◌,
  string_eq,
}
use mathlib.Core.Path.{subst}
use cks_runtime.Core.{Core}
use cks_runtime.Dict.{get}
use cks_runtime.Dict.Laws.{get-put}
use cks_runtime.Result.{Result, ok, raise, ok-raise, ok_injective}
use cks_runtime.Session.{add_version}
use cks_runtime.Storage.Memory.{
  InMemoryStorage, save_session, load_session, load_version, save_version, latest_version_id,
}
use cks_runtime.Storage.Memory.Saves.{save-stored, load_session-save_session}
use cks_runtime.Versioning.Manager.History.{create-made}
use cks_runtime.Transaction as Tx
use cks_runtime.Transaction.{Operations, set_status}
use cks_runtime.Versioning.Version.{RuntimeVersion}
use cks_runtime.Pipeline.{
  Validation, Runtime, continue, publish, finish, finalize, persist, version_created, first_half,
  conclude, commit, node_id_of,
}
use cks_runtime.Pipeline.Rounds.{Steady, Goes}
use cks_runtime.Pipeline.Outcome.{first_half-Goes, clocked}

module _ {c : Core} {o : Operations c} where
  -- The version is the new latest one of the session and is stored. The session takes part in no
  -- transaction any more, but its stored copy still does.
  pub record Committed (self after : Runtime c o) (v : RuntimeVersion c) : Type 0 where
    pub history : after.session.version_history ≡ self.session.version_history ++ v ∷ []
    pub detached : after.session.active_transaction ≡ none
    pub status :
        Tx.is_completed self.transaction.status ≡ false → after.transaction.status ≡ Tx.committed
    pub version : load_version after.storage v.version_id ≡ some v
    pub saved :
        load_session after.storage self.session.session_id
        ≡ some (record after.session { active_transaction = self.session.active_transaction })

  Committed-Steady :
      (x y z : Runtime c o) (v : RuntimeVersion c) → Steady x y → Committed y z v → Committed x z v
  Committed-Steady x y z v p q = record {
    history = q.history ∙ ap (λ h. h ++ v ∷ []) p.history;
    detached = q.detached;
    status = λ h. q.status (ap Tx.is_completed p.status ∙ h);
    version = q.version;
    saved =
        ap (load_session z.storage) (sym p.session_id)
        ∙ q.saved
        ∙ ap (λ t. some (record z.session { active_transaction = t })) p.active;
  }

  finalize-Committed :
      (self : Runtime c o) (v w : RuntimeVersion c) (expected : Option String)
      (saved : Result (InMemoryStorage c))
      → save_session (save_version self.storage v) (add_version (clocked self) v) expected ≡ saved
      → (finalize v
          (publish (version_created v.version_id) (record self {
            session = add_version (clocked self) v;
            storage = save_version self.storage v;
          }))
          saved).1
        ≡ ok w
      → Committed self
          (finalize v
            (publish (version_created v.version_id) (record self {
              session = add_version (clocked self) v;
              storage = save_version self.storage v;
            }))
            saved).0
          w
  unfolding finalize finish set_status load_version save_version
  finalize-Committed self v w expected (raise e) saved h = absurd (ok-raise w e (sym h))
  finalize-Committed self v w expected (ok storage) saved h =
      let session = add_version (clocked self) v in
      let versioned = save_version self.storage v in
      let there : load_version storage v.version_id ≡ some v =
        ap (λ t. load_version t v.version_id)
          (sym (save-stored versioned storage session expected saved))
        ∙ get-put self.storage.versions v.version_id v.version_id v
        ∙ ap (λ b. if b then some v else get self.storage.versions v.version_id)
            (==_refl v.version_id) in
      let kept : load_session storage self.session.session_id ≡ some session =
        load_session-save_session versioned storage session expected saved self.session.session_id
        ∙ ap (λ b. if b then some session else load_session versioned self.session.session_id)
            (==_refl self.session.session_id) in
      subst
        (λ x.
          Committed self
            (finalize v
              (publish (version_created v.version_id)
                (record self { session = session; storage = versioned }))
              (ok storage)).0
            x)
        (ok_injective v w h)
        (record {
          history = refl;
          detached = refl;
          status = λ going. rw (going, set_status);
          version = there;
          saved = kept;
        })

  conclude-Committed :
      (initial : c.Structure) (expected : Option String) (id : String) (self : Runtime c o)
      (v : RuntimeVersion c)
      → (conclude initial expected id self).1 ≡ ok v
      → Committed self (conclude initial expected id self).0 v
  unfolding conclude persist
  conclude-Committed initial expected id self v h =
      let (made, pair, name) =
        create-made self.session initial (node_id_of self.session) self.replica_id id in
      let same = ap (λ r. persist expected self r.0 r.1) pair in
      subst (λ r. r.1 ≡ ok v → Committed self r.0 v) (sym same)
        (finalize-Committed self made v expected
          (save_session (save_version self.storage made) (add_version (clocked self) made) expected)
          refl)
        h

  continue-Committed :
      (self after : Runtime c o) (r : Result (Unit {0}))
      (rest : Runtime c o × Result (RuntimeVersion c)) (v : RuntimeVersion c)
      → Goes self after r
      → (rest.1 ≡ ok v → Committed after rest.0 v)
      → (continue after r rest).1 ≡ ok v
      → Committed self (continue after r rest).0 v
  continue-Committed self after (ok done) rest v g last h =
      Committed-Steady self after rest.0 v g (last h)
  continue-Committed self after (raise d) rest v g last h = absurd (ok-raise v d (sym h))

  -- A commit that returns a version has appended it to the versions of the session, stored it,
  -- detached the transaction and, unless it was completed before, marked it as committed. The stored
  -- copy of the session has the new version too, but is still attached to the transaction.
  pub commit-Committed :
      (validate : Validation c) (id : String) (self : Runtime c o) (v : RuntimeVersion c)
      → (commit validate id self).1 ≡ ok v
      → Committed self (commit validate id self).0 v
  unfolding commit
  commit-Committed validate id self v h =
      let first = first_half validate self in
      continue-Committed self first.0 first.1
        (conclude self.session.knowledge_structure (latest_version_id self.session) id first.0) v
        (first_half-Goes validate self)
        (conclude-Committed self.session.knowledge_structure (latest_version_id self.session) id
          first.0 v)
        h
