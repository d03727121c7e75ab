-- ===== src/Pipeline/Outcome.antt =====
-- src/cks_runtime/pipeline/execution_pipeline.py: commits that fail.
use cks_runtime.Prelude.{
  String, List, [], ◌∷◌, ◌++◌, Bool, true, false, Option, none, some, refl, inl, inr, Bool-cases,
  string_eq, arith,
}
use cks_runtime.Core.{Core}
use cks_runtime.Result.{Result, ok, raise}
use cks_runtime.Session.{RuntimeSession}
use cks_runtime.Versioning.Manager.{raise_clocks}
use cks_runtime.Transaction.{Operations, failed}
use cks_runtime.Pipeline.{
  Runtime, continue, handle_created, node_id_of, rollback, execute, handle, touched, Validation,
  run_operations, handle_request, run_requests, execute_operations, quality_gate, first_half,
  nothing_to_run,
}
use cks_runtime.Pipeline.Rounds.{
  Goes, Steady-refl, Goes-Steady, RolledBack-Steady, rollback-RolledBack, failure-Goes, handle-Goes,
  touched-Steady,
}

module _ {c : Core} {o : Operations c} where
  continue-Goes :
      (self after : Runtime c o) (r : Result (Unit {0})) (rest : Runtime c o × Result (Unit {0}))
      → Goes self after r
      → Goes after rest.0 rest.1
      → Goes self (continue after r rest).0 (continue after r rest).1
  continue-Goes self after (ok done) rest g g' = Goes-Steady self after rest.0 rest.1 g g'
  continue-Goes self after (raise e) rest g g' = g

  run_operations-Goes :
      (operations : List o.Operation) (self : Runtime c o)
      → Goes self (run_operations operations self).0 (run_operations operations self).1
  unfolding run_operations
  run_operations-Goes [] self = Steady-refl self
  run_operations-Goes (operation ∷ operations) self =
      let result = execute o operation self.session in
      let ready = touched operation self in
      let first = handle operation result ready in
      continue-Goes self first.0 first.1 (run_operations operations first.0)
        (Goes-Steady self ready first.0 first.1 (touched-Steady operation self)
          (handle-Goes operation result ready))
        (run_operations-Goes operations first.0)

  handle_created-Goes :
      (request : o.Request) (made : Option o.Operation) (self : Runtime c o)
      → Goes self (handle_created request made self).0 (handle_created request made self).1
  unfolding handle_created
  handle_created-Goes request none self =
      failure-Goes
        (record { status = failed; payload = none; diagnostics = o.request_error request ∷ [] })
        self
  handle_created-Goes request (some operation) self =
      let result = execute o operation self.session in
      let ready = touched operation self in
      let first = handle operation result ready in
      Goes-Steady self ready first.0 first.1 (touched-Steady operation self)
        (handle-Goes operation result ready)

  handle_request-Goes :
      (request : o.Request) (self : Runtime c o)
      → Goes self (handle_request request self).0 (handle_request request self).1
  unfolding handle_request
  handle_request-Goes request self = handle_created-Goes request (o.create_operation request) self

  run_requests-Goes :
      (requests : List o.Request) (self : Runtime c o)
      → Goes self (run_requests requests self).0 (run_requests requests self).1
  unfolding run_requests
  run_requests-Goes [] self = Steady-refl self
  run_requests-Goes (request ∷ requests) self =
      let first = handle_request request self in
      continue-Goes self first.0 first.1 (run_requests requests first.0)
        (handle_request-Goes request self) (run_requests-Goes requests first.0)

  execute_operations-Goes :
      (self : Runtime c o) → Goes self (execute_operations self).0 (execute_operations self).1
  unfolding execute_operations
  execute_operations-Goes self =
      let first = run_operations self.transaction.operations self in
      continue-Goes self first.0 first.1 (run_requests first.0.transaction.requests first.0)
        (run_operations-Goes self.transaction.operations self)
        (run_requests-Goes first.0.transaction.requests first.0)

  quality_gate-Goes :
      (verdict : Option (Bool × List String)) (self : Runtime c o)
      → Goes self (quality_gate verdict self).0 (quality_gate verdict self).1
  unfolding quality_gate
  quality_gate-Goes none self = ((λ n. absurd (n refl)), λ h. absurd (ground (arith, h)))
  quality_gate-Goes (some (true, messages)) self = record {
    history = refl;
    session_id = refl;
    initial = refl;
    status = refl;
    storage = refl;
    active = refl;
  }
  quality_gate-Goes (some (false, messages)) self =
      let collected : Runtime c o = record self { diagnostics = self.diagnostics ++ messages } in
      let r =
        RolledBack-Steady self collected (rollback collected)
          (record {
            history = refl;
            session_id = refl;
            initial = refl;
            status = refl;
            storage = refl;
            active = refl;
          })
          (rollback-RolledBack collected) in
      (
        λ n. record {
          restored = r.restored;
          history = r.history;
          detached = r.detached;
          status = r.status;
          versions = r.versions;
          saved = r.saved;
        },
        λ h. absurd (ground (arith, h)),
      )

  pub first_half-Goes :
      (validate : Validation c) (self : Runtime c o)
      → Goes self (first_half validate self).0 (first_half validate self).1
  unfolding first_half
  first_half-Goes validate self = elim (Bool-cases (nothing_to_run self.transaction)) [
    | inl idle ↦
        let verdict = validate self.session.knowledge_structure in
        rw idle (quality_gate-Goes verdict self)
    | inr busy ↦ rw busy (execute_operations-Goes self)
  ]

  -- The session of a run with its clocks raised.
  abbrev pub clocked : Runtime c o → RuntimeSession c
  clocked self = record self.session {
    metadata = raise_clocks self.session.metadata (node_id_of self.session) self.replica_id;
  }
