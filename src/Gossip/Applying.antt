-- ===== src/Gossip/Applying.antt =====
-- src/cks_runtime/gossip/adapter.py, `_apply_remote_session_locked`: both of its parts. The first merges
-- the objects of the remote session into the object store, if the adapter has one (Gossip/Objects, over
-- the in-memory store), the second reconciles the sessions (Gossip/Adapter).
pub mod Again
use cks_runtime.Prelude.{ℕ, String, Bool, Option, none, some}
use cks_runtime.Core.{Core}
use cks_runtime.Operations.{Engine}
use cks_runtime.Pipeline.{Validation}
use cks_runtime.Result.{Result, ok, raise}
use cks_runtime.Session.{RuntimeSession}
use cks_runtime.Crdt.Store.{Objects}
use cks_runtime.Crdt.Quarantine.{Validator}
use cks_runtime.Gossip.Adapter as Sessions
use cks_runtime.Gossip.Adapter.{Fresh}
use cks_runtime.Gossip.Objects as Store
use cks_runtime.Gossip.Objects.{RemoteObjects}

-- `crdt_store` is `none` for an adapter that was built without one.
pub record GossipAdapter (o : Objects) (c : Core) (e : Engine c) : Type 0 where
  pub crdt_store : Option (Store.Adapter o)
  pub sessions : Sessions.Adapter c e

-- What the merge of objects takes from elsewhere: the application's names, the fresh ids of conflict
-- events, the validator, and the objects and the clock that the engine's structure and the metadata of a
-- session hold.
pub record Merging (o : Objects) (c : Core) : Type 0 where
  pub name : o.Identity → String
  pub fresh_id : ℕ → String
  pub validator : Validator o
  pub objects_of : RuntimeSession c → RemoteObjects o

module _ {o : Objects} {c : Core} (m : Merging o c) where
  -- `_merge_crdt_objects`
  unfoldable pub merge_crdt_objects :
      Option (Store.Adapter o) → RuntimeSession c → Option (Store.Adapter o) × Result ℕ
  merge_crdt_objects none remote_session = (none, ok 0)
  merge_crdt_objects (some store) remote_session =
      let merged =
        Store.merge_crdt_objects m.fresh_id m.name m.validator store
          (m.objects_of remote_session) in
      (some merged.0, merged.1)

module _ {o : Objects} {c : Core} {e : Engine c} (m : Merging o c) (validate : Validation c)
    (fresh : Fresh) where
  -- The second part, where the first has not raised.
  abbrev pub after_merge :
      GossipAdapter o c e
      → RuntimeSession c
      → Option (Store.Adapter o) × Result ℕ
      → GossipAdapter o c e × Result Bool
  after_merge self remote_session (store, raise x) = (record self { crdt_store = store }, raise x)
  after_merge self remote_session (store, ok admitted) =
      let applied = Sessions.apply_remote_session e validate fresh self.sessions remote_session in
      (record { crdt_store = store; sessions = applied.0 }, applied.1)

  unfoldable pub apply_remote_session_locked :
      GossipAdapter o c e → RuntimeSession c → GossipAdapter o c e × Result Bool
  apply_remote_session_locked self remote_session =
      after_merge self remote_session (merge_crdt_objects m self.crdt_store remote_session)
