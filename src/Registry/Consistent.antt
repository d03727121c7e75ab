-- ===== src/Registry/Consistent.antt =====
-- That the two managers (src/cks_runtime/session/session_manager.py and
-- src/cks_runtime/transaction/transaction_manager.py) agree on the transactions that are running.
use mathlib.Core.Path.{subst}
use cks_runtime.Prelude.{
  ℕ, String, false, Option, none, some, nat_eq, string_eq, ◌==◌, ==_refl, ◌≡◌, refl, sym, ap, ◌∙◌,
  inl, inr, arith, Bool-cases, Option-cases, if◌then◌else◌, if_true, if_false, some_injective,
  false≢true, is_some,
}
use cks_runtime.Core.{Core}
use cks_runtime.Dict.{Dict, get, put, values}
use cks_runtime.Dict.Laws.{get-put, get-remove}
use cks_runtime.Result.{ok, raise, ok_injective, ok-raise, active_transaction_exists}
use cks_runtime.Session.{RuntimeSession, has_active_transaction}
use cks_runtime.Transaction.{Operations, TransactionStatus}
use cks_runtime.Registry.{
  Handle, Registry, new_handle, call, attach_transaction, begin, finish, clear_transactions,
  register, closing, close_session, clear_sessions,
}
use cks_runtime.Registry.Store.{
  active_at, active_of, active_at-put, active_at-detach, active_at-close, active_at-close_all,
  active_at-attach, attach-other, detach-other, referred, active_at-detach_all, referred-get,
}

module _ {c : Core} {o : Operations c} where
  -- A transaction is tracked under its id exactly where its session is attached to it.
  pub record IsConsistent (self : Registry c o) : Type 0 where
    pub tracked :
        (id : String) (h : Handle c o)
        → get self.transactions id ≡ some h
        → (h.transaction.transaction_id ≡ id) × (active_at self.objects h.session ≡ some id)
    pub attached :
        (a : ℕ) (id : String)
        → active_at self.objects a ≡ some id
        → (h : Handle c o) × (get self.transactions id ≡ some h) × (h.session ≡ a)

  -- A change of the objects that leaves every attachment alone.
  same-IsConsistent :
      (self after : Registry c o)
      → after.transactions ≡ self.transactions
      → ((a : ℕ) → active_at after.objects a ≡ active_at self.objects a)
      → IsConsistent self
      → IsConsistent after
  same-IsConsistent self after same active h = record {
    tracked = λ id g found.
        let (named, at) = h.tracked id g (ap (λ t. get t id) (sym same) ∙ found) in
        (named, active g.session ∙ at);
    attached = λ a id at.
        let (g, found, here) = h.attached a id (sym (active a) ∙ at) in
        (g, ap (λ t. get t id) same ∙ found, here);
  }

  closing-IsConsistent :
      (session_id : String) (found : Option ℕ) (self : Registry c o)
      → IsConsistent self
      → IsConsistent (closing session_id found self).0
  closing-IsConsistent session_id none self h = h
  closing-IsConsistent session_id (some a) self h =
      same-IsConsistent self (closing session_id (some a) self).0 refl
        (active_at-close self.objects a) h

  pub close_session-IsConsistent :
      (session_id : String) (self : Registry c o)
      → IsConsistent self
      → IsConsistent (close_session session_id self).0
  unfolding close_session
  close_session-IsConsistent session_id self h =
      closing-IsConsistent session_id (get self.sessions session_id) self h

  pub clear_sessions-IsConsistent :
      (self : Registry c o) → IsConsistent self → IsConsistent (clear_sessions self)
  unfolding clear_sessions
  clear_sessions-IsConsistent self h =
      same-IsConsistent self (clear_sessions self) refl
        (active_at-close_all (values self.sessions) self.objects) h

  untouched :
      (a b : ℕ) (s : RuntimeSession c) (self : Registry c o)
      → get self.objects a ≡ none
      → s.active_transaction ≡ none
      → (if a == b then s.active_transaction else active_at self.objects b)
        ≡ active_at self.objects b
  untouched a b s self fresh idle =
      let now = active_at self.objects b in
      elim (Bool-cases (a == b)) [
        | inl same ↦
            if_true (a == b) s.active_transaction now same
            ∙ idle
            ∙ sym (
                ap (active_at self.objects) (sym ((nat_eq.agrees_iff a b).0 same))
                ∙ ap active_of fresh)
        | inr other ↦ if_false (a == b) s.active_transaction now other
      ]

  -- A new object, which is attached to nothing.
  pub register-IsConsistent :
      (a : ℕ) (s : RuntimeSession c) (self : Registry c o)
      → get self.objects a ≡ none
      → s.active_transaction ≡ none
      → IsConsistent self
      → IsConsistent (register a s self)
  unfolding register
  register-IsConsistent a s self fresh idle h =
      same-IsConsistent self (register a s self) refl
        (λ b. active_at-put self.objects a b s ∙ untouched a b s self fresh idle) h

  new_id :
      (id i : String) (g : Handle c o) (old : Dict String (Handle c o))
      → get old id ≡ none
      → get old i ≡ some g
      → id == i ≡ false
  new_id id i g old fresh there = elim (Bool-cases (id == i)) [
    | inl same ↦
        absurd
          (ground (arith, sym fresh ∙ ap (get old) ((string_eq.agrees_iff id i).0 same) ∙ there))
    | inr other ↦ other
  ]

  started-IsConsistent :
      (a : ℕ) (s : RuntimeSession c) (id : String) (self : Registry c o)
      → get self.objects a ≡ some s
      → s.active_transaction ≡ none
      → get self.transactions id ≡ none
      → IsConsistent self
      → IsConsistent (record self {
        transactions = put self.transactions id (new_handle a s id);
        objects = call (attach_transaction id) a self.objects;
      })
  started-IsConsistent a s id self found idle fresh h =
      let new = new_handle a s id in
      let old = self.transactions in
      let objects = self.objects in
      record {
        tracked = λ i g there.
            let lookup = sym (get-put old id i new) ∙ there in
            elim (Bool-cases (id == i)) [
              | inl same ↦
                  (let name = (string_eq.agrees_iff id i).0 same in
                    subst
                      (λ (x : Handle c o).
                        (x.transaction.transaction_id ≡ i)
                        × (active_at (call (attach_transaction id) a objects) x.session ≡ some i))
                      (some_injective new g
                        (sym (if_true (id == i) (some new) (get old i) same) ∙ lookup))
                      (
                        name,
                        active_at-attach objects a a s id found
                            ∙ if_true (a == a) (some id) (active_at objects a) (==_refl a)
                            ∙ ap some name,
                      ))
              | inr other ↦
                  (let (named, at) =
                      h.tracked i g
                        (sym (if_false (id == i) (some new) (get old i) other) ∙ lookup) in
                    (named, attach-other a s id i g.session objects found idle at))
            ];
        attached = λ b i at.
            let now = sym (active_at-attach objects a b s id found) ∙ at in
            elim (Bool-cases (a == b)) [
              | inl same ↦
                  (let name =
                      some_injective id i
                        (sym (if_true (a == b) (some id) (active_at objects b) same) ∙ now) in
                    (
                      new,
                      get-put old id i new
                          ∙ if_true (id == i) (some new) (get old i)
                              ((string_eq.agrees_iff id i).1 name),
                      (nat_eq.agrees_iff a b).0 same,
                    ))
              | inr other ↦
                  (let (g, there, here) =
                      h.attached b i
                        (sym (if_false (a == b) (some id) (active_at objects b) other) ∙ now) in
                    (
                      g,
                      get-put old id i new
                          ∙ if_false (id == i) (some new) (get old i)
                              (new_id id i g old fresh there)
                          ∙ there,
                      here,
                    ))
            ];
      }

  pub begin-IsConsistent :
      (a : ℕ) (s : RuntimeSession c) (id : String) (self after : Registry c o)
      → get self.objects a ≡ some s
      → get self.transactions id ≡ none
      → begin a s id self ≡ ok after
      → IsConsistent self
      → IsConsistent after
  unfolding begin
  begin-IsConsistent a s id self after found fresh h consistent =
      let started : Registry c o = record self {
        transactions = put self.transactions id (new_handle a s id);
        objects = call (attach_transaction id) a self.objects;
      } in
      elim (Option-cases s.active_transaction) [
        | inl idle ↦
            subst IsConsistent
              (ok_injective started after (
                sym (
                  if_false (has_active_transaction s) (raise active_transaction_exists) (ok started)
                    (ap is_some idle))
                ∙ h))
              (started-IsConsistent a s id self found idle fresh consistent)
        | inr (t, busy) ↦ absurd (
            ok-raise after active_transaction_exists (
              sym h
              ∙ if_true (has_active_transaction s) (raise active_transaction_exists) (ok started)
                  (ap is_some busy)))
      ]

  not_finished :
      (h g : Handle c o) (hid id i : String) (a : ℕ) (old : Dict String (Handle c o))
      → get old id ≡ some h
      → hid ≡ id
      → get old i ≡ some g
      → g.session ≡ a
      → h.session == a ≡ false
      → hid == i ≡ false
  not_finished h g hid id i a old found name there here other = elim (Bool-cases (hid == i)) [
    | inl same ↦
        (let one =
            some_injective h g
              (sym found ∙ ap (get old) (sym name ∙ (string_eq.agrees_iff hid i).0 same) ∙ there) in
          absurd (
            false≢true (
              sym other
              ∙ (nat_eq.agrees_iff h.session a).1 (ap (λ (x : Handle c o). x.session) one ∙ here))))
    | inr differs ↦ differs
  ]

  pub finish-IsConsistent :
      (status : TransactionStatus) (id : String) (h : Handle c o) (self : Registry c o)
      → get self.transactions id ≡ some h
      → IsConsistent self
      → IsConsistent (finish status h self).0
  unfolding finish
  finish-IsConsistent status id h self found consistent =
      let old = self.transactions in
      let objects = self.objects in
      let hid = h.transaction.transaction_id in
      let (name, mine) = consistent.tracked id h found in
      record {
        tracked = λ i g there.
            let lookup = sym (get-remove old hid i) ∙ there in
            elim (Bool-cases (hid == i)) [
              | inl same ↦
                  absurd (ground (arith, sym (if_true (hid == i) none (get old i) same) ∙ lookup))
              | inr other ↦
                  (let (named, at) =
                      consistent.tracked i g
                        (sym (if_false (hid == i) none (get old i) other) ∙ lookup) in
                    (
                      named,
                      detach-other h.session g.session hid i objects (mine ∙ ap some (sym name))
                          other at,
                    ))
            ];
        attached = λ a i at.
            let now = sym (active_at-detach objects h.session a) ∙ at in
            elim (Bool-cases (h.session == a)) [
              | inl same ↦ absurd (
                  ground
                    (arith, sym (if_true (h.session == a) none (active_at objects a) same) ∙ now))
              | inr other ↦
                  (let (g, there, here) =
                      consistent.attached a i
                        (sym (if_false (h.session == a) none (active_at objects a) other) ∙ now) in
                    (
                      g,
                      get-remove old hid i
                          ∙ if_false (hid == i) none (get old i)
                              (not_finished h g hid id i a old found name there here other)
                          ∙ there,
                      here,
                    ))
            ];
      }

  pub clear_transactions-IsConsistent :
      (self : Registry c o) → IsConsistent self → IsConsistent (clear_transactions self)
  unfolding clear_transactions get
  clear_transactions-IsConsistent self h = record {
    tracked = λ id g found. absurd (ground (arith, found));
    attached = λ a id at.
        let objects = self.objects in
        let handles = values self.transactions in
        let now = sym (active_at-detach_all handles objects a) ∙ at in
        elim (Bool-cases (referred handles a)) [
          | inl gone ↦ absurd (
              ground
                (arith, sym (if_true (referred handles a) none (active_at objects a) gone) ∙ now))
          | inr kept ↦
              (let (g, there, here) =
                  h.attached a id
                    (sym (if_false (referred handles a) none (active_at objects a) kept) ∙ now) in
                absurd (
                  false≢true (
                    sym kept
                    ∙ ap (referred handles) (sym here)
                    ∙ referred-get self.transactions id g there)))
        ];
  }
