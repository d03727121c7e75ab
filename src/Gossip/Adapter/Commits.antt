-- ===== src/Gossip/Adapter/Commits.antt =====
-- What the commit of one operation does to the session of an adapter
-- (src/cks_runtime/gossip/adapter.py), whether the storage accepts it or not.
use cks_runtime.Prelude.{
  ℕ, ◌+◌, ◌≤◌, String, [], ◌∷◌, ◌++◌, Bool, false, Option, none, some, ◌≡◌, refl, sym, ap, ◌∙◌,
  arith, ◌==◌, string_eq, if◌then◌else◌,
}
use mathlib.Core.Path.{subst}
use cks_runtime.Core.{Core}
use cks_runtime.Json.{Metadata}
use cks_runtime.Result.{Result, ok, raise}
use cks_runtime.Operations.{
  Engine, Operation, Outcome, payload, result_of, maybe_result, execute, operations,
}
use cks_runtime.Pipeline as Pipeline
use cks_runtime.Pipeline.{
  Validation, touched, Runtime, node_id_of, finalize, persist, conclude, commit, first_half,
  execute_operations, run_operations, handle, run_requests, apply_state_mutation, publish,
  version_created, finish, collect, begin, continue,
}
use cks_runtime.Pipeline.Outcome.{clocked}
use cks_runtime.Session.{RuntimeSession, add_version}
use cks_runtime.Storage.Memory.{InMemoryStorage, save_session, save_version, latest_version_id}
use cks_runtime.Transaction.{add_result, created, Operations, ExecutionResult, failed}
use cks_runtime.Versioning.Version.{RuntimeVersion}
use cks_runtime.Versioning.Manager.{raise_clocks, bump_if}
use cks_runtime.Versioning.Manager.History.{create-made}
use cks_runtime.Versioning.VersionVector.{VersionVector, from_metadata, to_metadata, clock_of}
use cks_runtime.Versioning.VersionVector.Dominance.{bump-clock, from_metadata-to_metadata}

abbrev pub is_name : Option String → String → Bool
is_name none k = false
is_name (some n) k = n == k

abbrev clock_in : Metadata → String → ℕ
clock_in m k = clock_of (from_metadata m) k

bump_if-clock :
    (v : VersionVector) (n : Option String) (k : String)
    → (clock_of v k ≤ clock_of (bump_if v n) k)
      × (is_name n k ≡ false → clock_of (bump_if v n) k ≡ clock_of v k)
bump_if-clock v none k = (omega arith, λ h. refl)
bump_if-clock v (some n) k = (
  ground (arith, bump-clock v n k, string_eq.agrees_iff n k),
  λ h. bump-clock v n k ∙ ap (λ b. if b then clock_of v n + 1 else clock_of v k) h,
)

raised-clock :
    (m : Metadata) (n r : Option String) (k : String)
    → (clock_in m k ≤ clock_in (to_metadata (bump_if (bump_if (from_metadata m) n) r) m) k)
      × (is_name n k ≡ false
          → is_name r k ≡ false
          → clock_in (to_metadata (bump_if (bump_if (from_metadata m) n) r) m) k ≡ clock_in m k)
raised-clock m n r k =
    let v = from_metadata m in
    let (up, same) = bump_if-clock v n k in
    let (up', same') = bump_if-clock (bump_if v n) r k in
    let read = ap (λ w. clock_of w k) (from_metadata-to_metadata (bump_if (bump_if v n) r) m) in
    (omega (arith, up, up', read), λ h h'. read ∙ same' h' ∙ same h)

-- Raising the clocks lowers none, and changes only those of the node and of the replica.
pub raise_clocks-clock :
    (m : Metadata) (n r : Option String) (k : String)
    → (clock_in m k ≤ clock_in (raise_clocks m n r) k)
      × (is_name n k ≡ false → is_name r k ≡ false → clock_in (raise_clocks m n r) k ≡ clock_in m k)
unfolding raise_clocks
raise_clocks-clock m none none k = (omega arith, λ h h'. refl)
raise_clocks-clock m none (some r) k = raised-clock m none (some r) k
raise_clocks-clock m (some n) none k = raised-clock m (some n) none k
raise_clocks-clock m (some n) (some r) k = raised-clock m (some n) (some r) k

-- A session after a commit that took it to a structure: the structure, and the clocks.
pub record Adopted {c : Core} (replica_id : Option String) (before : RuntimeSession c)
    (s : c.Structure) (after : RuntimeSession c) : Type 0 where
  pub structure : after.knowledge_structure ≡ s
  pub metadata : after.metadata ≡ raise_clocks before.metadata (node_id_of before) replica_id

module _ {c : Core} {o : Operations c} where
  finalize-Adopted :
      (before : RuntimeSession c) (s : c.Structure) (v : RuntimeVersion c) (self : Runtime c o)
      (saved : Result (InMemoryStorage c))
      → Adopted self.replica_id before s self.session
      → Adopted self.replica_id before s (finalize v self saved).0.session
  unfolding finalize finish
  finalize-Adopted before s v self (raise x) a = a
  finalize-Adopted before s v self (ok storage) a = record {
    structure = a.structure;
    metadata = a.metadata;
  }

  conclude-Adopted :
      (initial : c.Structure) (expected : Option String) (id : String) (self : Runtime c o)
      → Adopted self.replica_id self.session self.session.knowledge_structure
          (conclude initial expected id self).0.session
  unfolding conclude persist
  conclude-Adopted initial expected id self =
      let (v, made, name) =
        create-made self.session initial (node_id_of self.session) self.replica_id id in
      let session = add_version (clocked self) v in
      let announced : Runtime c o =
        publish (version_created v.version_id)
          (record self { session = session; storage = save_version self.storage v }) in
      subst
        (λ r.
          Adopted self.replica_id self.session self.session.knowledge_structure
            (persist expected self r.0 r.1).0.session)
        (sym made)
        (finalize-Adopted self.session self.session.knowledge_structure v announced
          (save_session announced.storage session expected)
          (record { structure = refl; metadata = refl }))

module _ {c : Core} (e : Engine c) (validate : Validation c) where
  -- The transaction of one operation, as it is begun.
  abbrev pub one : Runtime c (operations e) → String → Operation c → Runtime c (operations e)
  one runtime id operation = record runtime {
    transaction = record {
      transaction_id = id;
      operations = operation ∷ [];
      requests = [];
      results = [];
      status = created;
      initial_state = runtime.session.knowledge_structure;
    };
    tracked = runtime.tracked ++ id ∷ [];
    session = record runtime.session { active_transaction = some id };
  }

  -- The runtime after the operation.
  abbrev ran : Runtime c (operations e) → c.Structure → Runtime c (operations e)
  ran self s =
      let collected =
        collect (result_of c (payload s))
          (record self { transaction = add_result (result_of c (payload s)) self.transaction }) in
      record collected { session = record collected.session { knowledge_structure = s } }

  executed :
      (operation : Operation c) (session : RuntimeSession c) (s : c.Structure)
      → (execute e operation session).1 ≡ some (payload s)
      → Pipeline.execute (operations e) operation session ≡ result_of c (payload s)
  unfolding Pipeline.execute
  executed operation session s h =
      ap
        (λ (m : Option (Outcome c)). elim (maybe_result e m) [
          | none ↦ record {
            status = failed;
            payload = none;
            diagnostics = "the engine raised" ∷ [];
          }
          | some result ↦ result
        ])
        h

  abbrev went : Runtime c (operations e) → Runtime c (operations e) × Result (Unit {0})
  went self = (self, ok tt)

  -- Both loops over a transaction of one operation, from its result.
  abbrev loops :
      Runtime c (operations e)
      → Operation c
      → ExecutionResult c
      → Runtime c (operations e) × Result (Unit {0})
  loops self operation result =
      let first = handle operation result self in
      let second = continue first.0 first.1 (first.0, ok tt) in
      continue second.0 second.1 (run_requests second.0.transaction.requests second.0)

  -- The runtime with metadata for its session.
  abbrev with_metadata : Runtime c (operations e) → Metadata → Runtime c (operations e)
  with_metadata self metadata = record self {
    session = record self.session { metadata = metadata };
  }

  first_half-one :
      (runtime : Runtime c (operations e)) (id : String) (operation : Operation c) (s : c.Structure)
      → (execute e operation (one runtime id operation).session).1 ≡ some (payload s)
      → (execute e operation (one runtime id operation).session).0.metadata
        ≡ runtime.session.metadata
      → first_half validate (one runtime id operation) ≡ (ran (one runtime id operation) s, ok tt)
  unfolding first_half execute_operations run_operations run_requests handle apply_state_mutation
  first_half-one runtime id operation s h same =
      let self = one runtime id operation in
      ap (loops (touched operation self) operation) (executed operation self.session s h)
      ∙ ap (λ (m : Metadata). went (ran (with_metadata self m) s)) same

  -- A commit of one operation that gives a structure and leaves the metadata alone takes the session to
  -- the structure, whatever it returns.
  pub commit-Adopted :
      (runtime : Runtime c (operations e)) (id version_id : String) (operation : Operation c)
      (s : c.Structure)
      → (execute e operation (one runtime id operation).session).1 ≡ some (payload s)
      → (execute e operation (one runtime id operation).session).0.metadata
        ≡ runtime.session.metadata
      → Adopted runtime.replica_id runtime.session s
          (commit validate version_id (one runtime id operation)).0.session
  unfolding commit node_id_of
  commit-Adopted runtime id version_id operation s h same =
      let self = one runtime id operation in
      let initial = runtime.session.knowledge_structure in
      let expected = latest_version_id runtime.session in
      let a = conclude-Adopted initial expected version_id (ran self s) in
      subst
        (λ (r : Runtime c (operations e) × Result (Unit {0})).
          Adopted runtime.replica_id runtime.session s
            (continue r.0 r.1 (conclude initial expected version_id r.0)).0.session)
        (sym (first_half-one runtime id operation s h same))
        (record { structure = a.structure; metadata = a.metadata })
