-- ===== src/Registry/Tests.antt =====
-- Sessions and transactions at concrete inputs.
use cks_runtime.Prelude.{[], ◌∷◌, ◌≡◌, refl, none, some, true, String, nat_eq, string_eq}
use cks_runtime.Core.Small.{text_core}
use cks_runtime.Dict.{get, put}
use cks_runtime.Result.{ok}
use cks_runtime.Session.{RuntimeSession}
use cks_runtime.Transaction.{Operations, rolled_back}
use cks_runtime.Registry.{
  Handle, Registry, new_handle, call, fresh_session, attach_transaction, begin, finish,
  create_session, register,
}
use cks_runtime.Registry.Consistent.{IsConsistent}
use cks_runtime.Registry.Steps.{Reach, start, next, begins, creates, Reach-one_transaction}
use cks_runtime.Registry.Twice.{begun, finish-again}

abbrev text_operations : Operations text_core
text_operations = record {
  Operation = String;
  Request = String;
  run = λ operation session. none;
  metadata_after = λ operation session. session.metadata;
  error_text = λ operation session. "it raised";
  changes_state = λ operation. true;
  create_operation = λ request. none;
  request_error = λ request. request;
}

abbrev session : RuntimeSession text_core
session = fresh_session "state" "s" "node" none none

abbrev created : Registry text_core text_operations
created = record { objects = (1, session) ∷ []; sessions = ("s", 1) ∷ []; transactions = [] }

abbrev running : Registry text_core text_operations
running = record {
  objects = (1, attach_transaction "t1" session) ∷ [];
  sessions = ("s", 1) ∷ [];
  transactions = ("t1", new_handle 1 session "t1") ∷ [];
}

reached : Reach running
unfolding create_session register begin call get put
reached =
    next (next start (creates 1 "s" "node" "state" refl)) (begins 1 session "t1" refl refl refl)

Reach-one_transaction_example :
    IsConsistent running
    × ((i j : String) (g h : Handle text_core text_operations)
        → get running.transactions i ≡ some g
        → get running.transactions j ≡ some h
        → g.session ≡ h.session
        → i ≡ j)
Reach-one_transaction_example = Reach-one_transaction reached

-- The transaction that was finished before "t1" began.
abbrev earlier : Handle text_core text_operations
earlier = new_handle 1 session "t0"

finish-again_example :
    let w1 = (finish rolled_back earlier running).0 in
    let w2 = begun 1 session "t2" w1 in
    (get w1.objects 1 ≡ some session)
    × (begin 1 session "t2" w1 ≡ ok w2)
    × (get w2.transactions "t1" ≡ some (new_handle 1 session "t1"))
    × (get w2.transactions "t2" ≡ some (new_handle 1 session "t2"))
    × ((new_handle {o = text_operations} 1 session "t1").session
        ≡ (new_handle {o = text_operations} 1 session "t2").session)
unfolding get
finish-again_example =
    finish-again running rolled_back earlier (new_handle 1 session "t1")
      (attach_transaction "t1" session) "t1" "t2" refl refl refl refl refl
