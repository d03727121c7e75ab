-- ===== src/Gossip/Adapter/Again.antt =====
-- A remote session that is applied again after it was refused (src/cks_runtime/gossip/adapter.py).
use cks_runtime.Prelude.{
  ℕ, String, List, [], ◌∷◌, Bool, true, false, Option, none, some, ◌≡◌, refl, sym, ap, ◌∙◌, arith,
  Bool-cases, inl, inr, if◌then◌else◌, contains, nat_eq, string_eq,
}
use mathlib.Core.Path.{subst}
use cks_runtime.Core.{Core}
use cks_runtime.Dict.{IsDict}
use cks_runtime.Result.{Result, ok, raise, ok_injective, ok-raise}
use cks_runtime.Operations.{Engine, Outcome, payload, conflict, error, execute, operations}
use cks_runtime.Pipeline.{Validation, Runtime}
use cks_runtime.Session.{RuntimeSession}
use cks_runtime.Versioning.Version.{RuntimeVersion}
use cks_runtime.Versioning.VersionVector.{dominates, clock_of}
use cks_runtime.Gossip.Adapter.{
  Adapter, Fresh, with_session, is_pending, merge_operation, merge_request, duplicate_id_detected,
  report_duplicate, commit_operation, settle, fast_forward, register_conflict_branch, escalate,
  after_probe, three_way, reconcile, apply_remote_session,
}
use cks_runtime.Operations.Merging.{merge_sources-apart, three_way_outcome}
use cks_runtime.Gossip.Adapter.Outcomes.{vector}
use cks_runtime.Gossip.Adapter.Same.{contains-last, is_pending_refl}

module _ {c : Core} (e : Engine c) (validate : Validation c) (fresh fresh' : Fresh)
    (remote : RuntimeSession c) (d : IsDict (vector remote).clocks) where
  abbrev applied : Adapter c e → Adapter c e × Result Bool
  applied self = apply_remote_session e validate fresh self remote

  report_duplicate-again :
      (self : Adapter c e)
      → report_duplicate (report_duplicate self remote) remote ≡ report_duplicate self remote
  unfolding report_duplicate
  report_duplicate-again self =
      let clock = clock_of (vector remote) self.replica_id in
      elim (Bool-cases (contains self.pending_duplicates clock)) [
        | inl known ↦ rw (known, known) refl
        | inr new ↦ rw new (rw (contains-last self.pending_duplicates clock) refl)
      ]

  -- What an escalation leaves: the adapter, with the conflict pending.
  record Pending (self after : Adapter c e) : Type 0 where
    session : after.runtime.session ≡ self.runtime.session
    replica_id : after.replica_id ≡ self.replica_id
    duplicates : after.pending_duplicates ≡ self.pending_duplicates
    pending : is_pending after.pending_conflict (vector remote) ≡ true

  escalate-Pending :
      (self : Adapter c e) (conflicts : List String)
      → Pending self (escalate e validate fresh self remote conflicts).0
  unfolding escalate register_conflict_branch
  escalate-Pending self conflicts =
      elim (Bool-cases (is_pending self.pending_conflict (vector remote))) [
        | inl known ↦
            rw known
              (record { session = refl; replica_id = refl; duplicates = refl; pending = known })
        | inr new ↦ rw new (record {
          session = refl;
          replica_id = refl;
          duplicates = refl;
          pending = is_pending_refl (vector remote) d;
        })
      ]

  escalate-again :
      (self : Adapter c e) (conflicts : List String)
      → is_pending self.pending_conflict (vector remote) ≡ true
      → escalate e validate fresh' self remote conflicts ≡ (self, ok false)
  unfolding escalate
  escalate-again self conflicts known = rw known refl

  settle-true :
      (self : Adapter c e) (r : Runtime c (operations e) × Result (RuntimeVersion c))
      → (settle e validate fresh self r).1 ≡ ok false
      → true ≡ false
  settle-true self (runtime, ok version) h = ok_injective true false h
  settle-true self (runtime, raise x) h = absurd (ok-raise false x (sym h))

  -- The same probe refuses the same way.
  probe-again :
      (self after : Adapter c e) (x : Option (Outcome c))
      → (after_probe e validate fresh self remote x).1 ≡ ok false
      → (Pending self (after_probe e validate fresh self remote x).0)
        × (is_pending after.pending_conflict (vector remote) ≡ true
            → after_probe e validate fresh' after remote x ≡ (after, ok false))
  probe-again self after none h = (
    escalate-Pending self ("the engine raised" ∷ []),
    escalate-again after ("the engine raised" ∷ []),
  )
  probe-again self after (some (error message)) h =
      (escalate-Pending self (message ∷ []), escalate-again after (message ∷ []))
  probe-again self after (some (conflict ids)) h =
      (escalate-Pending self ids, escalate-again after ids)
  probe-again self after (some (payload s)) h = absurd (
      ground (
        arith,
        settle-true self (commit_operation e validate fresh (merge_operation remote) self.runtime)
            h,
      ))

  three_way-probe :
      (f : Fresh) (self : Adapter c e)
      → dominates (vector self.runtime.session) (vector remote) ≡ false
      → dominates (vector remote) (vector self.runtime.session) ≡ false
      → three_way e validate f self remote
        ≡ after_probe e validate f self remote
            (three_way_outcome e (merge_request remote) remote self.runtime.session)
  unfolding three_way execute
  three_way-probe f self ahead behind =
      ap
        (λ (r : RuntimeSession c × Option (Outcome c)).
          after_probe e validate f (with_session self r.0) remote r.1)
        (merge_sources-apart e (merge_request remote) remote self.runtime.session ahead behind)

  abbrev alike : Adapter c e → Bool
  alike self =
      e.structurally_equivalent self.runtime.session.knowledge_structure remote.knowledge_structure

  -- A call of `reconcile` that refuses has got to the merge.
  record Apart (self : Adapter c e) : Type 0 where
    differ : alike self ≡ false
    ahead : dominates (vector self.runtime.session) (vector remote) ≡ false
    behind : dominates (vector remote) (vector self.runtime.session) ≡ false

  reconcile-Apart :
      (self : Adapter c e) → (reconcile e validate fresh self remote).1 ≡ ok false → Apart self
  unfolding reconcile fast_forward
  reconcile-Apart self h = elim (Bool-cases (alike self)) [
    | inl equal ↦ absurd (ground (arith, rw equal at h))
    | inr differ ↦ (elim (Bool-cases (dominates (vector self.runtime.session) (vector remote))) [
      | inl covers ↦ absurd (ground (arith, rw (differ, covers) at h))
      | inr ahead ↦ (elim (Bool-cases (dominates (vector remote) (vector self.runtime.session))) [
        | inl over ↦ absurd (ground (arith, rw (differ, ahead, over) at h))
        | inr behind ↦ record { differ = differ; ahead = ahead; behind = behind }
      ])
    ])
  ]

  reconcile-probe :
      (f : Fresh) (self after : Adapter c e)
      → Apart self
      → after.runtime.session ≡ self.runtime.session
      → reconcile e validate f after remote
        ≡ after_probe e validate f after remote
            (three_way_outcome e (merge_request remote) remote self.runtime.session)
  unfolding reconcile
  reconcile-probe f self after a same =
      let x = three_way_outcome e (merge_request remote) remote in
      let differ : alike after ≡ false =
        ap
          (λ (s : RuntimeSession c).
            e.structurally_equivalent s.knowledge_structure remote.knowledge_structure)
          same
        ∙ a.differ in
      let ahead =
        ap (λ (s : RuntimeSession c). dominates (vector s) (vector remote)) same ∙ a.ahead in
      let behind =
        ap (λ (s : RuntimeSession c). dominates (vector remote) (vector s)) same ∙ a.behind in
      rw (differ, ahead, behind) (three_way-probe f after ahead behind)
      ∙ ap (λ (s : RuntimeSession c). after_probe e validate f after remote (x s)) same

  -- What a refusing call of `reconcile` leaves, and what the next one does.
  Refuses : Adapter c e → Adapter c e × Result Bool → Type 0
  Refuses self r = Pending self r.0 × (reconcile e validate fresh' r.0 remote ≡ (r.0, ok false))

  reconcile-Refuses :
      (self : Adapter c e)
      → (reconcile e validate fresh self remote).1 ≡ ok false
      → Refuses self (reconcile e validate fresh self remote)
  unfolding Refuses
  reconcile-Refuses self h =
      let a = reconcile-Apart self h in
      let x = three_way_outcome e (merge_request remote) remote self.runtime.session in
      let first = reconcile-probe fresh self self a refl in
      let after = (after_probe e validate fresh self remote x).0 in
      let (left, again) = probe-again self after x (ap (λ r. r.1) (sym first) ∙ h) in
      subst (Refuses self) (sym first)
        (left, reconcile-probe fresh' self after a left.session ∙ again left.pending)

  -- The guard looks at the identity of the replica and at the session only.
  guard-same :
      (self after : Adapter c e)
      → after.replica_id ≡ self.replica_id
      → after.runtime.session ≡ self.runtime.session
      → duplicate_id_detected after remote ≡ duplicate_id_detected self remote
  unfolding duplicate_id_detected
  guard-same self after i s =
      ap
        (λ x.
          duplicate_id_detected
            (record (with_session self after.runtime.session) { replica_id = x }) remote)
        i
      ∙ ap (λ x. duplicate_id_detected (with_session self x) remote) s

  report_duplicate-guard :
      (self : Adapter c e)
      → duplicate_id_detected (report_duplicate self remote) remote
        ≡ duplicate_id_detected self remote
  unfolding report_duplicate
  report_duplicate-guard self =
      elim (Bool-cases
        (contains self.pending_duplicates (clock_of (vector remote) self.replica_id))) [
          | inl known ↦ rw known refl
          | inr new ↦ rw new (guard-same self _ refl refl)
        ]

  apply-if :
      (f : Fresh) (self : Adapter c e) (b : Bool)
      → duplicate_id_detected self remote ≡ b
      → apply_remote_session e validate f self remote ≡ (
          if b
          then (report_duplicate self remote, ok false)
          else reconcile e validate f (record self { pending_duplicates = [] }) remote)
  unfolding apply_remote_session
  apply-if f self b h =
      ap
        (λ b.
          if b
          then (report_duplicate self remote, ok false)
          else reconcile e validate f (record self { pending_duplicates = [] }) remote)
        h

  -- The same remote copy, applied to what a call left, is refused and changes nothing.
  abbrev Settled : Adapter c e × Result Bool → Type 0
  Settled r = apply_remote_session e validate fresh' r.0 remote ≡ (r.0, ok false)

  duplicate-Settled :
      (self : Adapter c e)
      → duplicate_id_detected self remote ≡ true
      → Settled (report_duplicate self remote, ok false)
  duplicate-Settled self h =
      apply-if fresh' (report_duplicate self remote) true (report_duplicate-guard self ∙ h)
      ∙ ap (λ (x : Adapter c e). (x, ok false)) (report_duplicate-again self)

  Refuses-Settled :
      (self : Adapter c e) (r : Adapter c e × Result Bool)
      → duplicate_id_detected self remote ≡ false
      → self.pending_duplicates ≡ []
      → Refuses self r
      → Settled r
  unfolding Refuses
  Refuses-Settled self r unique none_pending (left, again) =
      apply-if fresh' r.0 false (guard-same self r.0 left.replica_id left.session ∙ unique)
      ∙ ap
          (λ (x : List ℕ).
            reconcile e validate fresh' (record r.0 { pending_duplicates = x }) remote)
          (sym (left.duplicates ∙ none_pending))
      ∙ again

  -- A remote copy that was refused (false) and arrives again, with whatever fresh ids, is refused again
  -- and changes nothing at all: no further branch is registered and no further event published.
  pub apply_remote_session-again :
      (self : Adapter c e)
      → (apply_remote_session e validate fresh self remote).1 ≡ ok false
      → apply_remote_session e validate fresh'
          (apply_remote_session e validate fresh self remote).0
          remote
        ≡ ((apply_remote_session e validate fresh self remote).0, ok false)
  apply_remote_session-again self h = elim (Bool-cases (duplicate_id_detected self remote)) [
    | inl duplicate ↦
        subst Settled (sym (apply-if fresh self true duplicate)) (duplicate-Settled self duplicate)
    | inr unique ↦
        (let first = apply-if fresh self false unique in
          let cleared = record self { pending_duplicates = [] } in
          subst Settled (sym first) (
            Refuses-Settled cleared (reconcile e validate fresh cleared remote)
              (guard-same self cleared refl refl ∙ unique) refl
              (reconcile-Refuses cleared (ap (λ r. r.1) (sym first) ∙ h))))
  ]
