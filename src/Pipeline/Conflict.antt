-- ===== src/Pipeline/Conflict.antt =====
-- src/cks_runtime/pipeline/execution_pipeline.py: commits that another writer has overtaken.
use cks_runtime.Prelude.{
  String, Option, [], ◌∷◌, ◌++◌, ◌≡◌, refl, sym, ap, ◌∙◌, ==_refl, some, if◌then◌else◌, string_eq,
}
use mathlib.Core.Path.{subst}
use cks_runtime.Core.{Core}
use cks_runtime.Dict.{get}
use cks_runtime.Dict.Laws.{get-put}
use cks_runtime.Result.{Result, ok, raise, Error, ok-raise, raise_unique, concurrent_modification}
use cks_runtime.Session.{add_version}
use cks_runtime.Storage.Memory.{
  InMemoryStorage, save_session, load_version, save_version, latest_version_id,
}
use cks_runtime.Versioning.Manager.History.{create-made}
use cks_runtime.Transaction.{Operations}
use cks_runtime.Versioning.Version.{RuntimeVersion}
use cks_runtime.Pipeline.{
  Validation, Runtime, continue, publish, finalize, persist, version_created, first_half, conclude,
  commit, node_id_of,
}
use cks_runtime.Pipeline.Rounds.{Steady, Goes}
use cks_runtime.Pipeline.Outcome.{first_half-Goes, clocked}

module _ {c : Core} {o : Operations c} where
  -- Nothing is undone: the session in memory keeps the new version, which is stored as a version,
  -- and the transaction goes on; the stored sessions are as before.
  pub record Conflict (self after : Runtime c o) (v : RuntimeVersion c) : Type 0 where
    pub history : after.session.version_history ≡ self.session.version_history ++ v ∷ []
    pub version : load_version after.storage v.version_id ≡ some v
    pub sessions : after.storage.sessions ≡ self.storage.sessions
    pub attached : after.session.active_transaction ≡ self.session.active_transaction
    pub status : after.transaction.status ≡ self.transaction.status

  Conflict-Steady :
      (x y z : Runtime c o) (v : RuntimeVersion c) → Steady x y → Conflict y z v → Conflict x z v
  Conflict-Steady x y z v p q = record {
    history = q.history ∙ ap (λ h. h ++ v ∷ []) p.history;
    version = q.version;
    sessions = q.sessions ∙ ap (λ s. s.sessions) p.storage;
    attached = q.attached ∙ p.active;
    status = q.status ∙ p.status;
  }

  abbrev announced : Runtime c o → RuntimeVersion c → Runtime c o
  announced self v = publish (version_created v.version_id) (record self {
    session = add_version (clocked self) v;
    storage = save_version self.storage v;
  })

  finalize-Conflict :
      (self : Runtime c o) (v : RuntimeVersion c) (saved : Result (InMemoryStorage c)) (e : Error)
      → (finalize v (announced self v) saved).1 ≡ raise e
      → Conflict self (finalize v (announced self v) saved).0 v
  unfolding finalize load_version save_version
  finalize-Conflict self v (ok storage) e h = absurd (ok-raise v e h)
  finalize-Conflict self v (raise d) e h = record {
    history = refl;
    version =
        get-put self.storage.versions v.version_id v.version_id v
        ∙ ap (λ b. if b then some v else get self.storage.versions v.version_id)
            (==_refl v.version_id);
    sessions = refl;
    attached = refl;
    status = refl;
  }

  conclude-Conflict :
      (initial : c.Structure) (expected : Option String) (id : String) (self : Runtime c o)
      (e : Error)
      → (conclude initial expected id self).1 ≡ raise e
      → (v : RuntimeVersion c) × (v.version_id ≡ id)
        × Conflict self (conclude initial expected id self).0 v
  unfolding conclude persist
  conclude-Conflict initial expected id self e h =
      let (made, pair, name) =
        create-made self.session initial (node_id_of self.session) self.replica_id id in
      let same = ap (λ r. persist expected self r.0 r.1) pair in
      (
        made,
        name,
        subst (λ r. r.1 ≡ raise e → Conflict self r.0 made) (sym same)
            (finalize-Conflict self made
              (save_session (save_version self.storage made) (add_version (clocked self) made)
                expected)
              e)
            h,
      )

  continue-Conflict :
      (self after : Runtime c o) (r : Result (Unit {0}))
      (rest : Runtime c o × Result (RuntimeVersion c)) (id : String)
      → Goes self after r
      → (rest.1 ≡ raise concurrent_modification
          → (v : RuntimeVersion c) × (v.version_id ≡ id) × Conflict after rest.0 v)
      → (continue after r rest).1 ≡ raise concurrent_modification
      → (v : RuntimeVersion c) × (v.version_id ≡ id) × Conflict self (continue after r rest).0 v
  continue-Conflict self after (ok done) rest id g last h =
      let (v, name, q) = last h in (v, name, Conflict-Steady self after rest.0 v g q)
  continue-Conflict self after (raise d) rest id g last h =
      absurd (g.1 (raise_unique (continue after (raise d) rest).1 d concurrent_modification refl h))

  -- A commit that raises a concurrent modification is not rolled back: the session in memory has
  -- one more version, under the id that was given, which is stored as a version; the session is
  -- still attached and the status unchanged; the stored sessions are the ones from before.
  pub commit-Conflict :
      (validate : Validation c) (id : String) (self : Runtime c o)
      → (commit validate id self).1 ≡ raise concurrent_modification
      → (v : RuntimeVersion c) × (v.version_id ≡ id) × Conflict self (commit validate id self).0 v
  unfolding commit
  commit-Conflict validate id self h =
      let first = first_half validate self in
      continue-Conflict self first.0 first.1
        (conclude self.session.knowledge_structure (latest_version_id self.session) id first.0) id
        (first_half-Goes validate self)
        (conclude-Conflict self.session.knowledge_structure (latest_version_id self.session) id
          first.0 concurrent_modification)
        h
