-- ===== src/Transaction/Status.antt =====
-- The status of a transaction (src/cks_runtime/transaction/transaction.py) as a state machine.
use cks_runtime.Prelude.{◌≡◌, refl, true, Bool-cases, inl, inr, sym, ap, ◌∙◌, false≢true}
use cks_runtime.Core.{Core}
use cks_runtime.Transaction.{
  TransactionStatus, executing, validating, committed, rolled_back, aborted, Operations,
  RuntimeTransaction, ExecutionResult, is_completed, set_status, mark_executing, mark_validating,
  commit, rollback, abort, add_operation, add_request, add_result,
}

module _ {c : Core} {o : Operations c} where
  -- One call of a method that changes a transaction.
  pub data Call : RuntimeTransaction c o → RuntimeTransaction c o → Type 0 where
    executes : (t : RuntimeTransaction c o) → Call t (mark_executing t)
    validates : (t : RuntimeTransaction c o) → Call t (mark_validating t)
    commits : (t : RuntimeTransaction c o) → Call t (commit t)
    rolls_back : (t : RuntimeTransaction c o) → Call t (rollback t)
    aborts : (t : RuntimeTransaction c o) → Call t (abort t)
    adds :
        (t : RuntimeTransaction c o) (operation : o.Operation) → Call t (add_operation operation t)
    asks : (t : RuntimeTransaction c o) (request : o.Request) → Call t (add_request request t)
    reports :
        (t : RuntimeTransaction c o) (result : ExecutionResult c) → Call t (add_result result t)

  pub data Calls : RuntimeTransaction c o → RuntimeTransaction c o → Type 0 where
    done : (t : RuntimeTransaction c o) → Calls t t
    then : (t u v : RuntimeTransaction c o) → Call t u → Calls u v → Calls t v

  status-set_status :
      (s : TransactionStatus) (t : RuntimeTransaction c o)
      → (is_completed t.status ≡ true → (set_status s t).status ≡ t.status)
        × ((set_status s t).initial_state ≡ t.initial_state)
  unfolding set_status
  status-set_status s t = elim (Bool-cases (is_completed t.status)) [
    | inl completed ↦ (λ h. rw completed, rw completed)
    | inr going ↦ (λ h. absurd (false≢true (sym going ∙ h)), rw going)
  ]

  status-Call :
      (t u : RuntimeTransaction c o)
      → Call t u
      → (is_completed t.status ≡ true → u.status ≡ t.status) × (u.initial_state ≡ t.initial_state)
  status-Call t _ (executes _) = status-set_status executing t
  status-Call t _ (validates _) = status-set_status validating t
  status-Call t _ (commits _) = status-set_status committed t
  status-Call t _ (rolls_back _) = status-set_status rolled_back t
  status-Call t _ (aborts _) = status-set_status aborted t
  status-Call t _ (adds _ operation) = (λ h. refl, refl)
  status-Call t _ (asks _ request) = (λ h. refl, refl)
  status-Call t _ (reports _ result) = (λ h. refl, refl)

  -- No sequence of calls changes the state that a transaction started from, and once it is
  -- committed, rolled back or aborted, none changes its status.
  pub status-Calls :
      (t v : RuntimeTransaction c o)
      → Calls t v
      → (is_completed t.status ≡ true → v.status ≡ t.status) × (v.initial_state ≡ t.initial_state)
  status-Calls t _ (done _) = (λ h. refl, refl)
  status-Calls t v (then _ u _ call rest) =
      let (keep, from) = status-Call t u call in
      let (keep', from') = status-Calls u v rest in
      (λ h. keep' (ap is_completed (keep h) ∙ h) ∙ keep h, from' ∙ from)
