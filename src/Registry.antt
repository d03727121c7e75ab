-- ===== src/Registry.antt =====
-- src/cks_runtime/session/session_manager.py and src/cks_runtime/transaction/transaction_manager.py:
-- all sessions and transactions of a runtime. Session objects are shared: both managers, and every
-- transaction, refer to them by a reference into one store. Fresh references and ids are arguments.
mod Store
mod Consistent
mod Steps
mod Twice
mod Tests
use cks_runtime.Prelude.{
  ℕ, String, List, [], ◌∷◌, Bool, true, false, not, Option, none, some, string_eq, nat_eq,
  if◌then◌else◌, length, is_some, map,
}
use cks_runtime.Core.{Core}
use cks_runtime.Dict.{Dict, get, has, put, remove, values}
use cks_runtime.Json.{text}
use cks_runtime.Result.{Result, ok, raise, active_transaction_exists, unknown_transaction}
use cks_runtime.Session.{RuntimeSession, has_active_transaction, close}
use cks_runtime.Transaction.{Operations, RuntimeTransaction, TransactionStatus, created, set_status}

-- A transaction object and the session that it refers to.
pub record Handle (c : Core) (o : Operations c) : Type 0 where
  pub session : ℕ
  pub transaction : RuntimeTransaction c o

-- The session objects by reference, `SessionManager._sessions` and
-- `TransactionManager._transactions`.
pub record Registry (c : Core) (o : Operations c) : Type 0 where
  pub objects : Dict ℕ (RuntimeSession c)
  pub sessions : Dict String ℕ
  pub transactions : Dict String (Handle c o)

module _ {c : Core} where
  -- A method of the object behind a reference.
  abbrev pub changed :
      (RuntimeSession c → RuntimeSession c)
      → ℕ
      → Dict ℕ (RuntimeSession c)
      → Option (RuntimeSession c)
      → Dict ℕ (RuntimeSession c)
  changed f a objects none = objects
  changed f a objects (some s) = put objects a (f s)

  unfoldable pub call :
      (RuntimeSession c → RuntimeSession c)
      → ℕ
      → Dict ℕ (RuntimeSession c)
      → Dict ℕ (RuntimeSession c)
  call f a objects = changed f a objects (get objects a)

  abbrev pub attach_transaction : String → RuntimeSession c → RuntimeSession c
  attach_transaction id s = record s { active_transaction = some id }

  abbrev pub detach_transaction : RuntimeSession c → RuntimeSession c
  detach_transaction s = record s { active_transaction = none }

  abbrev pub fresh_session :
      c.Structure → String → String → Option String → Option String → RuntimeSession c
  fresh_session knowledge_structure session_id node_id parent_session_id parent_version_id =
      record {
        knowledge_structure = knowledge_structure;
        session_id = session_id;
        metadata = ("node_id", text node_id) ∷ [];
        snapshot_interval = 10;
        diagnostics = [];
        version_history = [];
        active_transaction = none;
        closed = false;
        parent_session_id = parent_session_id;
        parent_version_id = parent_version_id;
      }

  -- The loop closes what is still active; closing what is closed changes nothing.
  unfoldable pub close_all : List ℕ → Dict ℕ (RuntimeSession c) → Dict ℕ (RuntimeSession c)
  close_all [] objects = objects
  close_all (a ∷ references) objects = close_all references (call close a objects)

module _ {c : Core} {o : Operations c} where
  abbrev pub new_handle : ℕ → RuntimeSession c → String → Handle c o
  new_handle a s id = record {
    session = a;
    transaction = record {
      transaction_id = id;
      operations = [];
      requests = [];
      results = [];
      status = created;
      initial_state = s.knowledge_structure;
    };
  }

  -- `TransactionManager.begin` of the session `s` at the reference `a`
  unfoldable pub begin : ℕ → RuntimeSession c → String → Registry c o → Result (Registry c o)
  begin a s id self =
      if has_active_transaction s
      then raise active_transaction_exists
      else ok (record self {
        transactions = put self.transactions id (new_handle a s id);
        objects = call (attach_transaction id) a self.objects;
      })

  unfoldable pub retrieve : Registry c o → String → Option (Handle c o)
  retrieve self id = get self.transactions id

  abbrev pub required : Option (Handle c o) → Result (Handle c o)
  required none = raise unknown_transaction
  required (some h) = ok h

  -- `TransactionManager.get`, which raises a KeyError
  unfoldable pub get_transaction : Registry c o → String → Result (Handle c o)
  get_transaction self id = required (get self.transactions id)

  unfoldable pub has_transaction : Registry c o → String → Bool
  has_transaction self id = has self.transactions id

  abbrev pub transaction_count : Registry c o → ℕ
  transaction_count self = length self.transactions

  abbrev pub list_transactions : Registry c o → List (Handle c o)
  list_transactions self = values self.transactions

  -- `commit`, `rollback` and `abort` of a transaction object, with `_finish`
  unfoldable pub finish : TransactionStatus → Handle c o → Registry c o → Registry c o × Handle c o
  finish status h self = (
    record self {
      objects = call detach_transaction h.session self.objects;
      transactions = remove self.transactions h.transaction.transaction_id;
    },
    record h { transaction = set_status status h.transaction },
  )

  unfoldable pub detach_all :
      List (Handle c o) → Dict ℕ (RuntimeSession c) → Dict ℕ (RuntimeSession c)
  detach_all [] objects = objects
  detach_all (h ∷ handles) objects = detach_all handles (call detach_transaction h.session objects)

  -- `TransactionManager.clear`
  unfoldable pub clear_transactions : Registry c o → Registry c o
  clear_transactions self = record self {
    objects = detach_all (values self.transactions) self.objects;
    transactions = [];
  }

  -- self._sessions[session.session_id] = session
  unfoldable pub register : ℕ → RuntimeSession c → Registry c o → Registry c o
  register a s self = record self {
    objects = put self.objects a s;
    sessions = put self.sessions s.session_id a;
  }

  unfoldable pub create_session : ℕ → String → String → c.Structure → Registry c o → Registry c o
  create_session a session_id node_id knowledge_structure self =
      register a (fresh_session knowledge_structure session_id node_id none none) self

  unfoldable pub create_branch :
      ℕ
      → String
      → String
      → RuntimeSession c
      → c.Structure
      → Option String
      → Registry c o
      → Registry c o
  create_branch a session_id node_id parent_session knowledge_structure parent_version_id self =
      register a
        (fresh_session knowledge_structure session_id node_id (some parent_session.session_id)
          parent_version_id)
        self

  unfoldable pub get_session : Registry c o → String → Option ℕ
  get_session self session_id = get self.sessions session_id

  unfoldable pub has_session : Registry c o → String → Bool
  has_session self session_id = has self.sessions session_id

  abbrev pub session_count : Registry c o → ℕ
  session_count self = length self.sessions

  abbrev pub closing : String → Option ℕ → Registry c o → Registry c o × Bool
  closing session_id none self = (self, false)
  closing session_id (some a) self = (
    record self { objects = call close a self.objects; sessions = remove self.sessions session_id },
    true,
  )

  unfoldable pub close_session : String → Registry c o → Registry c o × Bool
  close_session session_id self = closing session_id (get self.sessions session_id) self

  -- `SessionManager.clear`
  unfoldable pub clear_sessions : Registry c o → Registry c o
  clear_sessions self = record self {
    objects = close_all (values self.sessions) self.objects;
    sessions = [];
  }

  unfoldable pub restore : ℕ → RuntimeSession c → Registry c o → Registry c o
  restore a s self = if s.closed then self else register a s self
