-- ===== src/Registry/Steps.antt =====
-- What can happen to the managers (src/cks_runtime/session/session_manager.py and
-- src/cks_runtime/transaction/transaction_manager.py), one call at a time.
use mathlib.Core.Path.{subst}
use cks_runtime.Prelude.{
  ℕ, String, Option, none, some, nat_eq, string_eq, [], ◌≡◌, refl, sym, ap, ◌∙◌, arith,
  some_injective, Bool-cases, inl, inr, if_true, if_false,
}
use cks_runtime.Core.{Core}
use cks_runtime.Dict.{get}
use cks_runtime.Result.{ok}
use cks_runtime.Session.{RuntimeSession}
use cks_runtime.Transaction.{Operations, TransactionStatus}
use cks_runtime.Registry.{
  Handle, Registry, begin, finish, clear_transactions, register, fresh_session, create_session,
  create_branch, close_session, clear_sessions, restore,
}
use cks_runtime.Registry.Store.{active_at}
use cks_runtime.Registry.Consistent.{
  IsConsistent, begin-IsConsistent, finish-IsConsistent, clear_transactions-IsConsistent,
  register-IsConsistent, close_session-IsConsistent, clear_sessions-IsConsistent,
}

module _ {c : Core} {o : Operations c} where
  -- One call. References and ids that are new are fresh, a transaction that is finished is still
  -- tracked, and a session that is restored from storage is attached to no transaction.
  pub data Step : Registry c o → Registry c o → Type 0 where
    begins :
        {w v : Registry c o} (a : ℕ) (s : RuntimeSession c) (id : String)
        → get w.objects a ≡ some s
        → get w.transactions id ≡ none
        → begin a s id w ≡ ok v
        → Step w v
    finishes :
        {w : Registry c o} (status : TransactionStatus) (id : String) (h : Handle c o)
        → get w.transactions id ≡ some h
        → Step w (finish status h w).0
    clears_transactions : {w : Registry c o} → Step w (clear_transactions w)
    creates :
        {w : Registry c o} (a : ℕ) (session_id node_id : String) (ks : c.Structure)
        → get w.objects a ≡ none
        → Step w (create_session a session_id node_id ks w)
    branches :
        {w : Registry c o} (a : ℕ) (session_id node_id : String) (parent : RuntimeSession c)
        (ks : c.Structure) (version_id : Option String)
        → get w.objects a ≡ none
        → Step w (create_branch a session_id node_id parent ks version_id w)
    closes : {w : Registry c o} (session_id : String) → Step w (close_session session_id w).0
    clears_sessions : {w : Registry c o} → Step w (clear_sessions w)
    restores :
        {w : Registry c o} (a : ℕ) (s : RuntimeSession c)
        → get w.objects a ≡ none
        → s.active_transaction ≡ none
        → Step w (restore a s w)

  abbrev pub empty : Registry c o
  empty = record { objects = []; sessions = []; transactions = [] }

  pub data Reach : Registry c o → Type 0 where
    start : Reach empty
    next : {w v : Registry c o} → Reach w → Step w v → Reach v

  restore-IsConsistent :
      (a : ℕ) (s : RuntimeSession c) (self : Registry c o)
      → get self.objects a ≡ none
      → s.active_transaction ≡ none
      → IsConsistent self
      → IsConsistent (restore a s self)
  unfolding restore
  restore-IsConsistent a s self fresh idle h = elim (Bool-cases s.closed) [
    | inl closed ↦ subst IsConsistent (sym (if_true s.closed self (register a s self) closed)) h
    | inr live ↦
        subst IsConsistent (sym (if_false s.closed self (register a s self) live))
          (register-IsConsistent a s self fresh idle h)
  ]

  Step-IsConsistent : {w v : Registry c o} → Step w v → IsConsistent w → IsConsistent v
  unfolding create_session create_branch
  Step-IsConsistent (begins a s id found fresh e) h = begin-IsConsistent a s id _ _ found fresh e h
  Step-IsConsistent (finishes status id g found) h = finish-IsConsistent status id g _ found h
  Step-IsConsistent clears_transactions h = clear_transactions-IsConsistent _ h
  Step-IsConsistent (creates a session_id node_id ks fresh) h =
      register-IsConsistent a (fresh_session ks session_id node_id none none) _ fresh refl h
  Step-IsConsistent (branches a session_id node_id parent ks version_id fresh) h =
      register-IsConsistent a
        (fresh_session ks session_id node_id (some parent.session_id) version_id) _ fresh refl h
  Step-IsConsistent (closes session_id) h = close_session-IsConsistent session_id _ h
  Step-IsConsistent clears_sessions h = clear_sessions-IsConsistent _ h
  Step-IsConsistent (restores a s fresh idle) h = restore-IsConsistent a s _ fresh idle h

  empty-IsConsistent : IsConsistent empty
  unfolding get
  empty-IsConsistent = record {
    tracked = λ id h found. absurd (ground (arith, found));
    attached = λ a id at. absurd (ground (arith, at));
  }

  Reach-IsConsistent : {w : Registry c o} → Reach w → IsConsistent w
  Reach-IsConsistent start = empty-IsConsistent
  Reach-IsConsistent (next r s) = Step-IsConsistent s (Reach-IsConsistent r)

  -- From the empty state, and in every state that calls of the two managers lead to, as long as only
  -- tracked transactions are finished, only sessions that are attached to none are restored from
  -- storage, and references and ids are fresh: a transaction is tracked under its own id and its
  -- session is attached to it, a session that is attached to a transaction is the one
  -- that this transaction, which is tracked, refers to, and so no two tracked transactions have the
  -- same session: each session has at most one transaction that is running.
  pub Reach-one_transaction :
      {w : Registry c o}
      → Reach w
      → IsConsistent w
        × ((i j : String) (g h : Handle c o)
            → get w.transactions i ≡ some g
            → get w.transactions j ≡ some h
            → g.session ≡ h.session
            → i ≡ j)
  Reach-one_transaction r =
      let consistent = Reach-IsConsistent r in
      (
        consistent,
        λ i j g h first second same. some_injective i j (
            sym (consistent.tracked i g first).1
            ∙ ap (active_at _) same
            ∙ (consistent.tracked j h second).1),
      )
