-- ===== src/Gossip/Adapter/Lost.antt =====
-- Remote copies that have overtaken a session: while another transaction of it is active, and while
-- this replica has commits of its own in it (src/cks_runtime/gossip/adapter.py).
use cks_runtime.Prelude.{
  ℕ, ◌<◌, ◌≤◌, [], Bool, true, false, ◌≡◌, refl, ap, ◌∙◌, arith, nat_eq, ◌==◌, string_eq, ◌&&◌,
  ◌||◌, not, ltb, max,
}
use cks_runtime.Core.{Core}
use cks_runtime.Dict.{IsDict}
use cks_runtime.Result.{Result, ok, raise, active_transaction_exists}
use cks_runtime.Operations.{Engine}
use cks_runtime.Pipeline.{Validation, begin}
use cks_runtime.Session.{RuntimeSession, has_active_transaction}
use cks_runtime.Versioning.VersionVector.{absorb, is_empty, dominates, clock_of}
use cks_runtime.Versioning.VersionVector.Dominance.{
  absorb-clock, dominates_iff, dominates-absorb, from_metadata-to_metadata,
}
use cks_runtime.Gossip.Adapter.{
  Adapter, Fresh, with_session, absorbed, resolved, duplicate_id_detected, report_duplicate,
  commit_operation, fast_forward, reconcile, apply_remote_session,
}
use cks_runtime.Gossip.Adapter.Outcomes.{vector}

-- The guard on the two clocks, and on whether the contents are the same.
abbrev guard : (l r : ℕ) → Bool → Bool
guard l r same = ltb l r || (ltb 0 r && (r == l) && not same)

-- Raising the local clock to the remote one does not set off the guard.
guard-max :
    (l r : ℕ) (same : Bool) → (ltb l r || (ltb 0 r && (r == l) && not same)) ≡ false → max l r ≡ l
guard-max l r same h = ground (arith, h)

module _ {c : Core} (e : Engine c) (validate : Validation c) (fresh : Fresh) (self : Adapter c e)
    (remote : RuntimeSession c) where
  abbrev pub local : RuntimeSession c
  local = self.runtime.session

  abbrev pub ahead : Adapter c e
  ahead = with_session (record self { pending_duplicates = [] }) (absorbed self remote)

  -- What is asked of the two sessions: another transaction of the local one is active, the copy is not
  -- taken for that of a duplicate identity, the remote clocks cover the local ones, which are not empty
  -- and do not cover them, and the contents differ.
  pub record Overtaken : Type 0 where
    pub active : has_active_transaction local ≡ true
    pub own : duplicate_id_detected self remote ≡ false
    pub differ :
        e.structurally_equivalent local.knowledge_structure remote.knowledge_structure ≡ false
    pub behind : dominates (vector local) (vector remote) ≡ false
    pub over : dominates (vector remote) (vector local) ≡ true
    pub committed : is_empty (vector local) ≡ false
    pub dict : IsDict (vector remote).clocks

  first-call :
      Overtaken
      → apply_remote_session e validate fresh self remote ≡ (ahead, raise active_transaction_exists)
  unfolding apply_remote_session reconcile fast_forward commit_operation begin
  first-call o = rw (o.own, o.differ, o.behind, o.over) (rw o.active refl)

  own_clock :
      Overtaken
      → clock_of (vector (absorbed self remote)) self.replica_id
        ≡ max (clock_of (vector local) self.replica_id) (clock_of (vector remote) self.replica_id)
  own_clock o =
      ap (λ v. clock_of v self.replica_id)
        (from_metadata-to_metadata (absorb (vector local) (vector remote)) local.metadata)
      ∙ absorb-clock (vector local) (vector remote) self.replica_id o.dict

  still_own : Overtaken → duplicate_id_detected ahead remote ≡ false
  unfolding duplicate_id_detected
  still_own o =
      let l = clock_of (vector local) self.replica_id in
      let r = clock_of (vector remote) self.replica_id in
      let same = e.structurally_equivalent local.knowledge_structure remote.knowledge_structure in
      ap (λ n. guard n r same) (own_clock o ∙ guard-max l r same o.own) ∙ o.own

  covered_now : Overtaken → dominates (vector (absorbed self remote)) (vector remote) ≡ true
  covered_now o =
      ap (λ v. dominates v (vector remote))
        (from_metadata-to_metadata (absorb (vector local) (vector remote)) local.metadata)
      ∙ dominates-absorb (vector local) (vector remote) o.dict o.committed

  second-call :
      (fresh' : Fresh)
      → Overtaken
      → apply_remote_session e validate fresh' ahead remote ≡ (resolved ahead, ok true)
  unfolding apply_remote_session reconcile
  second-call fresh' o = rw (still_own o, o.differ, covered_now o) refl

  -- Where another transaction of the local session is active, its clocks are not empty, the remote
  -- clocks cover them and not conversely, the contents differ, and the copy is not taken for that of a
  -- duplicate identity: applying the remote copy raises, but the local clocks have risen, so applying
  -- it once more returns true, and the local content is still the old one.
  pub apply_remote_session-lost :
      (fresh' : Fresh)
      → Overtaken
      → ((apply_remote_session e validate fresh self remote).1 ≡ raise active_transaction_exists)
        × (apply_remote_session e validate fresh'
              (apply_remote_session e validate fresh self remote).0
              remote
            ≡ (resolved ahead, ok true))
        × (ahead.runtime.session.knowledge_structure ≡ local.knowledge_structure)
  apply_remote_session-lost fresh' o = (
    ap (λ r. r.1) (first-call o),
    ap (λ (r : Adapter c e × Result Bool). apply_remote_session e validate fresh' r.0 remote)
          (first-call o)
        ∙ second-call fresh' o,
    refl,
  )

guard-overtaken :
    (l r : ℕ) (same : Bool)
    → 0 < l
    → l ≤ r
    → same ≡ false
    → (ltb l r || (ltb 0 r && (r == l) && not same)) ≡ true
guard-overtaken l r same h k n = ground (arith, h, k, n)

module _ {c : Core} (e : Engine c) (validate : Validation c) (fresh : Fresh) where
  -- A remote copy whose clocks cover those of the local session and whose content differs from it is
  -- refused (false) as that of a duplicate identity once the local session has a commit of this
  -- replica, so that the copy of a peer that has seen this commit and gone on is never adopted.
  pub apply_remote_session-overtaken :
      (self : Adapter c e) (remote : RuntimeSession c)
      → 0 < clock_of (vector self.runtime.session) self.replica_id
      → IsDict (vector self.runtime.session).clocks
      → dominates (vector remote) (vector self.runtime.session) ≡ true
      → e.structurally_equivalent self.runtime.session.knowledge_structure
          remote.knowledge_structure
        ≡ false
      → apply_remote_session e validate fresh self remote ≡ (report_duplicate self remote, ok false)
  unfolding apply_remote_session duplicate_id_detected
  apply_remote_session-overtaken self remote own d over differ =
      let local = vector self.runtime.session in
      let caught =
        guard-overtaken (clock_of local self.replica_id) (clock_of (vector remote) self.replica_id)
          (e.structurally_equivalent self.runtime.session.knowledge_structure
            remote.knowledge_structure)
          own (((dominates_iff (vector remote) local d).0 over).1 self.replica_id) differ in
      rw caught refl
