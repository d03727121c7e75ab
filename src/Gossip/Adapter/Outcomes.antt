-- ===== src/Gossip/Adapter/Outcomes.antt =====
-- The ways in which a remote session can be applied (src/cks_runtime/gossip/adapter.py).
use cks_runtime.Prelude.{
  ◌≤◌, String, List, [], ◌∷◌, Bool, true, false, Option, none, some, ◌≡◌, refl, sym, ap, ◌∙◌, arith,
  Bool-cases, inl, inr, max, contains, nat_eq, string_eq,
}
use mathlib.Core.Path.{subst}
use cks_runtime.Core.{Core}
use cks_runtime.Dict.{IsDict}
use cks_runtime.Result.{Result, ok, raise, active_transaction_exists}
use cks_runtime.Operations.{
  Engine, Outcome, payload, conflict, error, replace_state, execute, operations,
}
use cks_runtime.Operations.Merging.{
  merge_sources-apart, three_way_outcome, three_way_outcome-active,
}
use cks_runtime.Pipeline.{Validation, Runtime, store_session, node_id_of}
use cks_runtime.Session.{RuntimeSession, has_active_transaction}
use cks_runtime.Storage.Memory.{save_session}
use cks_runtime.Versioning.Version.{RuntimeVersion}
use cks_runtime.Versioning.VersionVector.{VersionVector, absorb, dominates, from_metadata, clock_of}
use cks_runtime.Versioning.VersionVector.Dominance.{absorb-clock, from_metadata-to_metadata}
use cks_runtime.Gossip.Adapter.{
  Adapter, Fresh, with_session, absorbed, is_pending, merge_operation, merge_request,
  duplicate_id_detected, report_duplicate, converge, commit_operation, settle, fast_forward,
  register_conflict_branch, escalate, after_probe, three_way, reconcile, apply_remote_session,
}
use cks_runtime.Gossip.Adapter.Commits.{Adopted, raise_clocks-clock}
use cks_runtime.Gossip.Adapter.Committing.{
  Committing, stopped, adopted, commit_operation-Committing,
}

module _ {c : Core} where
  abbrev pub vector : RuntimeSession c → VersionVector
  vector session = from_metadata session.metadata

  -- Every clock of either session is at or below that of the session after.
  abbrev pub Ahead : RuntimeSession c → RuntimeSession c → RuntimeSession c → Type 0
  Ahead local remote after =
      (k : String)
      → max (clock_of (vector local) k) (clock_of (vector remote) k) ≤ clock_of (vector after) k

-- What a call did, from the session before it, the remote one, that after it, and the result.
pub data Applied {c : Core} (e : Engine c) (replica_id : Option String)
    (local remote after : RuntimeSession c) (r : Result Bool) : Type 0 where
  -- a duplicate identity or a conflict: the session is untouched
  refused : r ≡ ok false → after ≡ local → Applied e replica_id local remote after r
  -- the local clocks cover the remote ones: the session is untouched
  covered :
      r ≡ ok true
      → dominates (vector local) (vector remote) ≡ true
      → after ≡ local
      → Applied e replica_id local remote after r
  -- the contents were the same: only clocks change
  converged :
      r ≡ ok true
      → e.structurally_equivalent local.knowledge_structure remote.knowledge_structure ≡ true
      → after.knowledge_structure ≡ local.knowledge_structure
      → after.version_history ≡ local.version_history
      → Ahead local remote after
      → Applied e replica_id local remote after r
  -- the remote clocks cover the local ones and go beyond them: the remote content is adopted
  forwarded :
      e.structurally_equivalent local.knowledge_structure remote.knowledge_structure ≡ false
      → dominates (vector local) (vector remote) ≡ false
      → dominates (vector remote) (vector local) ≡ true
      → after.knowledge_structure ≡ remote.knowledge_structure
      → Ahead local remote after
      → Applied e replica_id local remote after r
  -- neither covers the other: the content of a merge, with the local clocks raised by a commit
  merged :
      (structure : c.Structure)
      → e.structurally_equivalent local.knowledge_structure remote.knowledge_structure ≡ false
      → dominates (vector local) (vector remote) ≡ false
      → dominates (vector remote) (vector local) ≡ false
      → (execute e (merge_operation remote) local).1 ≡ some (payload structure)
      → Adopted replica_id local structure after
      → Applied e replica_id local remote after r
  -- another transaction of the session is active: no content is adopted
  blocked :
      r ≡ raise active_transaction_exists
      → has_active_transaction local ≡ true
      → after.knowledge_structure ≡ local.knowledge_structure
      → after.version_history ≡ local.version_history
      → Applied e replica_id local remote after r

module _ {c : Core} (e : Engine c) (validate : Validation c) (fresh : Fresh) where
  -- Each way applies to a call on the adapter, whatever stands for its result.
  abbrev pub Ends : Adapter c e → RuntimeSession c → Adapter c e × Result Bool → Type 0
  Ends self remote r =
      Applied e self.runtime.replica_id self.runtime.session remote r.0.runtime.session r.1

  pub report_duplicate-session :
      (self : Adapter c e) (remote : RuntimeSession c)
      → (report_duplicate self remote).runtime ≡ self.runtime
  unfolding report_duplicate
  report_duplicate-session self remote =
      elim (Bool-cases
        (contains self.pending_duplicates (clock_of (vector remote) self.replica_id))) [
          | inl known ↦ rw known refl
          | inr new ↦ rw new refl
        ]

  escalate-Ends :
      (self : Adapter c e) (remote : RuntimeSession c) (conflicts : List String)
      → Ends self remote (escalate e validate fresh self remote conflicts)
  unfolding escalate register_conflict_branch
  escalate-Ends self remote conflicts =
      elim (Bool-cases (is_pending self.pending_conflict (vector remote))) [
        | inl known ↦ rw known (refused refl refl)
        | inr new ↦ rw new (refused refl refl)
      ]

  pub settle-runtime :
      (self : Adapter c e) (r : Runtime c (operations e) × Result (RuntimeVersion c))
      → (settle e validate fresh self r).0.runtime ≡ r.0
  settle-runtime self (runtime, ok version) = refl
  settle-runtime self (runtime, raise x) = refl

  module _ (self : Adapter c e) (remote : RuntimeSession c) where
    abbrev local : RuntimeSession c
    local = self.runtime.session

    module _ (d : IsDict (vector remote).clocks) where
      absorbed-Ahead : Ahead local remote (absorbed self remote)
      absorbed-Ahead k = omega (
        arith,
        ap (λ w. clock_of w k)
            (from_metadata-to_metadata (absorb (vector local) (vector remote)) local.metadata),
        absorb-clock (vector local) (vector remote) k d,
      )

      converge-Ends :
          e.structurally_equivalent local.knowledge_structure remote.knowledge_structure ≡ true
          → Ends self remote (converge self remote, ok true)
      unfolding converge store_session save_session
      converge-Ends same = elim (Bool-cases (dominates (vector local) (vector remote))) [
        | inl covers ↦ rw covers (covered refl covers refl)
        | inr behind ↦ rw behind (converged refl same refl refl absorbed-Ahead)
      ]

      forwarded-Ends :
          (r : Runtime c (operations e) × Result (RuntimeVersion c))
          → e.structurally_equivalent local.knowledge_structure remote.knowledge_structure ≡ false
          → dominates (vector local) (vector remote) ≡ false
          → dominates (vector remote) (vector local) ≡ true
          → Committing e validate fresh
              (with_session self (absorbed self remote)).runtime
              remote.knowledge_structure
              r
          → Ends self remote (settle e validate fresh (with_session self (absorbed self remote)) r)
      forwarded-Ends r differ behind covers (stopped active same) =
          let ahead = with_session self (absorbed self remote) in
          subst (λ x. Ends self remote (settle e validate fresh ahead x)) (sym same)
            (blocked refl active refl refl)
      forwarded-Ends r differ behind covers (adopted a) =
          let ahead = with_session self (absorbed self remote) in
          let same = settle-runtime ahead r in
          forwarded differ behind covers
            (ap (λ (x : Runtime c (operations e)). x.session.knowledge_structure) same
              ∙ a.structure)
            (λ k. omega (
              arith,
              absorbed-Ahead k,
              (raise_clocks-clock (absorbed self remote).metadata
                  (node_id_of (absorbed self remote)) self.runtime.replica_id k).0,
              ap (λ (x : Runtime c (operations e)). clock_of (vector x.session) k) same,
              ap (λ m. clock_of (from_metadata m) k) a.metadata,
            ))

      fast_forward-Ends :
          e.structurally_equivalent local.knowledge_structure remote.knowledge_structure ≡ false
          → dominates (vector local) (vector remote) ≡ false
          → dominates (vector remote) (vector local) ≡ true
          → Ends self remote (fast_forward e validate fresh self remote)
      unfolding fast_forward execute
      fast_forward-Ends differ behind covers =
          let runtime = (with_session self (absorbed self remote)).runtime in
          let operation = replace_state (some remote.knowledge_structure) in
          forwarded-Ends (commit_operation e validate fresh operation runtime) differ behind covers
            (commit_operation-Committing e validate fresh operation runtime
              remote.knowledge_structure refl refl)

    -- The two sessions differ in content, and neither covers the other.
    record IsApart : Type 0 where
      differ :
          e.structurally_equivalent local.knowledge_structure remote.knowledge_structure ≡ false
      behind : dominates (vector local) (vector remote) ≡ false
      apart : dominates (vector remote) (vector local) ≡ false

    merged-Ends :
        IsApart
        → (r : Runtime c (operations e) × Result (RuntimeVersion c)) → (s : c.Structure)
        → (execute e (merge_operation remote) local).1 ≡ some (payload s)
        → Committing e validate fresh self.runtime s r
        → Ends self remote (settle e validate fresh self r)
    merged-Ends w r s h (stopped active same) =
        subst (λ x. Ends self remote (settle e validate fresh self x)) (sym same)
          (blocked refl active refl refl)
    merged-Ends w r s h (adopted a) = merged s w.differ w.behind w.apart h (
        subst (λ (x : Runtime c (operations e)). Adopted self.runtime.replica_id local s x.session)
          (sym (settle-runtime self r)) a)

    probe-Ends :
        IsApart
        → (x : Option (Outcome c)) → (execute e (merge_operation remote) local).1 ≡ x
        → (execute e
            (merge_operation remote)
            (record local { active_transaction = some fresh.transaction_id })).1
          ≡ x
        → (execute e
            (merge_operation remote)
            (record local { active_transaction = some fresh.transaction_id })).0.metadata
          ≡ local.metadata
        → Ends self remote (after_probe e validate fresh self remote x)
    probe-Ends w none h h' same = escalate-Ends self remote ("the engine raised" ∷ [])
    probe-Ends w (some (error message)) h h' same = escalate-Ends self remote (message ∷ [])
    probe-Ends w (some (conflict ids)) h h' same = escalate-Ends self remote ids
    probe-Ends w (some (payload s)) h h' same =
        merged-Ends w (commit_operation e validate fresh (merge_operation remote) self.runtime) s h
          (commit_operation-Committing e validate fresh (merge_operation remote) self.runtime s h'
            same)

    three_way-Ends : IsApart → Ends self remote (three_way e validate fresh self remote)
    unfolding three_way execute
    three_way-Ends w =
        let merging = merge_sources-apart e (merge_request remote) remote in
        let outcome = three_way_outcome e (merge_request remote) remote local in
        let begun = record local { active_transaction = some fresh.transaction_id } in
        subst
          (λ (r : RuntimeSession c × Option (Outcome c)).
            Ends self remote (after_probe e validate fresh (with_session self r.0) remote r.1))
          (sym (merging local w.behind w.apart))
          (probe-Ends w outcome
            (ap (λ (r : RuntimeSession c × Option (Outcome c)). r.1)
              (merging local w.behind w.apart))
            (ap (λ (r : RuntimeSession c × Option (Outcome c)). r.1)
                (merging begun w.behind w.apart)
              ∙ three_way_outcome-active e (merge_request remote) remote local
                  (some fresh.transaction_id))
            (ap (λ (r : RuntimeSession c × Option (Outcome c)). r.0.metadata)
              (merging begun w.behind w.apart)))

    reconcile-Ends :
        IsDict (vector remote).clocks → Ends self remote (reconcile e validate fresh self remote)
    unfolding reconcile
    reconcile-Ends d =
        let same = e.structurally_equivalent local.knowledge_structure remote.knowledge_structure in
        elim (Bool-cases same) [
          | inl equal ↦ rw equal (converge-Ends d equal)
          | inr differ ↦ (elim (Bool-cases (dominates (vector local) (vector remote))) [
            | inl covers ↦ rw (differ, covers) (covered refl covers refl)
            | inr behind ↦ (elim (Bool-cases (dominates (vector remote) (vector local))) [
              | inl over ↦ rw (differ, behind, over) (fast_forward-Ends d differ behind over)
              | inr apart ↦
                  rw (differ, behind, apart)
                    (three_way-Ends record { differ = differ; behind = behind; apart = apart })
            ])
          ])
        ]

  -- For a session that the replica tracks, and after the objects of the remote copy have been merged,
  -- applying the copy ends in one of six ways, also where it raises: it is refused
  -- (false) with the session untouched; the local clocks cover the remote ones (true), the session
  -- untouched; the contents are the same (true), only the clocks rise, and they cover both sides; the
  -- remote clocks cover the local ones but not conversely and the contents differ, the remote content
  -- is adopted and the clocks cover both sides; neither covers the other and the contents differ, the
  -- content is that of a merge, and only the clocks of the node and of the replica rise; or another
  -- transaction of the session is active, it raises and adopts nothing.
  pub apply_remote_session-Applied :
      (self : Adapter c e) (remote : RuntimeSession c)
      → IsDict (vector remote).clocks
      → Ends self remote (apply_remote_session e validate fresh self remote)
  unfolding apply_remote_session
  apply_remote_session-Applied self remote d =
      elim (Bool-cases (duplicate_id_detected self remote)) [
        | inl duplicate ↦ rw duplicate (
            refused refl (
              ap (λ (x : Runtime c (operations e)). x.session)
                (report_duplicate-session self remote)))
        | inr unique ↦ rw unique (reconcile-Ends (record self { pending_duplicates = [] }) remote d)
      ]
