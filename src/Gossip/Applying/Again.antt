-- ===== src/Gossip/Applying/Again.antt =====
-- Applying a remote copy once more after it was refused (src/cks_runtime/gossip/adapter.py).
use cks_runtime.Prelude.{
  ℕ, string_eq, Bool, map, select, false, Option, none, some, ◌≡◌, refl, sym, ap, ◌∙◌,
}
use mathlib.Core.Path.{subst}
use cks_runtime.Core.{Core}
use cks_runtime.Dict.{IsDict}
use cks_runtime.Operations.{Engine}
use cks_runtime.Pipeline.{Validation}
use cks_runtime.Result.{Result, ok}
use cks_runtime.Session.{RuntimeSession}
use cks_runtime.Crdt.Store.{Objects, InMemoryCrdtStore, live, merge_objects}
use cks_runtime.Crdt.Quarantine.{is_structurally_valid}
use cks_runtime.Crdt.Quarantine.Batch.{process_batch-merge_objects}
use cks_runtime.Gossip.Adapter as Sessions
use cks_runtime.Gossip.Adapter.{Fresh}
use cks_runtime.Gossip.Adapter.Again.{apply_remote_session-again}
use cks_runtime.Gossip.Adapter.Outcomes.{vector}
use cks_runtime.Gossip.Objects as Store
use cks_runtime.Gossip.Objects.{RemoteObjects, after_batch}
use cks_runtime.Gossip.Applying.{
  GossipAdapter, Merging, merge_crdt_objects, after_merge, apply_remote_session_locked,
}

module _ {o : Objects} {c : Core} (m : Merging o c) where
  -- Merging the objects into the in-memory store does not raise.
  merge_crdt_objects-ok :
      (store : Option (Store.Adapter o)) (remote : RuntimeSession c)
      → (n : ℕ) × ((merge_crdt_objects m store remote).1 ≡ ok n)
  unfolding merge_crdt_objects Store.merge_crdt_objects
  merge_crdt_objects-ok none remote = (0, refl)
  merge_crdt_objects-ok (some store) remote =
      let payloads = map live (m.objects_of remote).objects in
      let accepted = select (is_structurally_valid m.validator) payloads in
      (
        (merge_objects store.crdt_store accepted).1,
        ap
            (λ (r : InMemoryCrdtStore o × Result ℕ).
              (after_batch m.fresh_id m.name store (m.objects_of remote) r).1)
            (process_batch-merge_objects m.validator store.crdt_store payloads),
      )

  module _ {e : Engine c} (validate : Validation c) where
    -- A call is the merge of the objects and the reconciliation of the sessions.
    apply-both :
        (fresh : Fresh) (self : GossipAdapter o c e) (remote : RuntimeSession c)
        → let applied = Sessions.apply_remote_session e validate fresh self.sessions remote in
          apply_remote_session_locked m validate fresh self remote ≡ (
            record {
              crdt_store = (merge_crdt_objects m self.crdt_store remote).0;
              sessions = applied.0;
            },
            applied.1,
          )
    unfolding apply_remote_session_locked
    apply-both fresh self remote =
        let merged = merge_crdt_objects m self.crdt_store remote in
        ap (λ r. after_merge m validate fresh self remote (merged.0, r))
          (merge_crdt_objects-ok self.crdt_store remote).1

    -- A remote copy that was refused (false) and arrives again, with whatever fresh ids, is refused
    -- again, and the session, its branches, its storage and the events of its reconciliation stay as
    -- they are: no further branch is registered and no further conflict or duplicate published. In the
    -- object store, which is the one in memory, its objects are merged once more; an adapter without
    -- an object store does not change at all.
    pub apply_remote_session_locked-again :
        (fresh fresh' : Fresh) (self : GossipAdapter o c e) (remote : RuntimeSession c)
        → IsDict (vector remote).clocks
        → (apply_remote_session_locked m validate fresh self remote).1 ≡ ok false
        → let first = (apply_remote_session_locked m validate fresh self remote).0 in
          apply_remote_session_locked m validate fresh' first remote ≡ (
            record first { crdt_store = (merge_crdt_objects m first.crdt_store remote).0 },
            ok false,
          )
    apply_remote_session_locked-again fresh fresh' self remote d h =
        let first = apply_remote_session_locked m validate fresh self remote in
        let both = apply-both fresh self remote in
        let settled =
          apply_remote_session-again e validate fresh fresh' remote d self.sessions
            (ap (λ (r : GossipAdapter o c e × Result Bool). r.1) (sym both) ∙ h) in
        let same : Sessions.apply_remote_session e validate fresh' first.0.sessions remote
            ≡ (first.0.sessions, ok false) =
          subst
            (λ (s : Sessions.Adapter c e).
              Sessions.apply_remote_session e validate fresh' s remote ≡ (s, ok false))
            (ap (λ (r : GossipAdapter o c e × Result Bool). r.0.sessions) (sym both)) settled in
        apply-both fresh' first.0 remote
        ∙ ap
            (λ (r : Sessions.Adapter c e × Result Bool). (
              record first.0 {
                crdt_store = (merge_crdt_objects m first.0.crdt_store remote).0;
                sessions = r.0;
              },
              r.1,
            ))
            same
