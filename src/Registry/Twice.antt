-- ===== src/Registry/Twice.antt =====
-- A transaction that is finished a second time, in
-- src/cks_runtime/transaction/transaction_manager.py.
use cks_runtime.Prelude.{
  ℕ, String, some, nat_eq, string_eq, false, ◌==◌, ==_refl, ◌≡◌, refl, ap, ◌∙◌, if_true, if_false,
  none,
}
use cks_runtime.Core.{Core}
use cks_runtime.Dict.{get, put, remove}
use cks_runtime.Dict.Laws.{get-put, get-remove}
use cks_runtime.Result.{ok}
use cks_runtime.Session.{RuntimeSession}
use cks_runtime.Transaction.{Operations, TransactionStatus}
use cks_runtime.Registry.{
  Handle, Registry, new_handle, changed, call, attach_transaction, detach_transaction, begin,
  finish,
}

module _ {c : Core} {o : Operations c} where
  -- The registry after the second `begin`.
  abbrev pub begun : ℕ → RuntimeSession c → String → Registry c o → Registry c o
  begun a s id self = record self {
    transactions = put self.transactions id (new_handle a s id);
    objects = call (attach_transaction id) a self.objects;
  }

  -- Finishing a transaction h again, after its session has begun another one g that is running,
  -- detaches the session although g stays tracked: begin then succeeds on this session, and there are
  -- two transactions tracked for it.
  pub finish-again :
      (w : Registry c o) (status : TransactionStatus) (h g : Handle c o) (s : RuntimeSession c)
      (running id : String)
      → get w.objects h.session ≡ some s
      → get w.transactions running ≡ some g
      → g.session ≡ h.session
      → h.transaction.transaction_id == running ≡ false
      → id == running ≡ false
      → let w1 = (finish status h w).0 in
        let idle = detach_transaction s in
        let w2 = begun h.session idle id w1 in
        (get w1.objects h.session ≡ some idle)
        × (begin h.session idle id w1 ≡ ok w2)
        × (get w2.transactions running ≡ some g)
        × (get w2.transactions id ≡ some (new_handle h.session idle id))
        × (g.session ≡ (new_handle {o = o} h.session idle id).session)
  unfolding begin finish call
  finish-again w status h g s running id found there same differs new =
      let a = h.session in
      let hid = h.transaction.transaction_id in
      let idle = detach_transaction s in
      let rest = remove w.transactions hid in
      (
        ap (λ r. get (changed detach_transaction a w.objects r) a) found
            ∙ get-put w.objects a a idle
            ∙ if_true (a == a) (some idle) (get w.objects a) (==_refl a),
        refl,
        get-put rest id running (new_handle a idle id)
            ∙ if_false (id == running) (some (new_handle a idle id)) (get rest running) new
            ∙ get-remove w.transactions hid running
            ∙ if_false (hid == running) none (get w.transactions running) differs
            ∙ there,
        get-put rest id id (new_handle a idle id)
            ∙ if_true (id == id) (some (new_handle a idle id)) (get rest id) (==_refl id),
        same,
      )
