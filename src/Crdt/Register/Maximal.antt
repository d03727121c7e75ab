-- ===== src/Crdt/Register/Maximal.antt =====
-- The pointers that a run of writes leaves (src/cks_runtime/crdt/crdt_store.py), against the writes.
use cks_runtime.Prelude.{
  String, List, [], ◌∷◌, ◌≡◌, sym, ap, ◌∙◌, Bool, true, false, some, ◌==◌, codes_eq, inl, inr,
  contains, arith, Bool-cases, codes_beq_iff, ◌||◌,
}
use mathlib.Core.Path.{subst}
use mathlib.Core.Option.{some-injective}
use cks_runtime.Dict.{get, IsDict}
use cks_runtime.Crdt.MerkleTree.{Codes}
use cks_runtime.Crdt.VersionVector.{VersionVector}
use cks_runtime.Crdt.Causality.{concurrent}
use cks_runtime.Crdt.Causality.Order.{Below, Describes}
use cks_runtime.Crdt.Register.{Pointer, Bucket, stale, verdict, update_bucket}
use cks_runtime.Crdt.Register.Scan.{none-some}
use cks_runtime.Crdt.Register.Update.{
  new, Accepts, Updated, rejected, accepted, update_bucket-Updated, update_bucket-IsDict,
}
use cks_runtime.Crdt.Register.Verdicts.{stale-Below, superseded-Below, stays-concurrent, turned}

-- A call of `update_pointer` for one key.
pub record Write : Type 0 where
  pub object_id : Codes
  pub clock : VersionVector
  pub origin_node : String

abbrev pub write_ids : List Write → List Codes
write_ids [] = []
write_ids (w ∷ writes) = w.object_id ∷ write_ids writes

unfoldable pub run : Bucket → List Write → Bucket
run bucket [] = bucket
run bucket (w ∷ writes) = run (update_bucket bucket w.object_id w.clock w.origin_node).0 writes

-- An object is always written with the same clock.
abbrev pub Steady : (Codes → VersionVector) → List Write → Type 0
Steady content [] = Unit
Steady content (w ∷ writes) = (w.clock ≡ content w.object_id) × Steady content writes

module _ (content : Codes → VersionVector) where
  -- The pointers are the maximal ones of the objects that were written.
  pub record Holds (bucket : Bucket) (ids : List Codes) : Type 0 where
    pub dict : IsDict bucket
    pub from :
        (i : Codes) (p : Pointer)
        → get bucket i ≡ some p
        → (contains ids i ≡ true) × (p.clock ≡ content i)
    pub covers :
        (i : Codes)
        → contains ids i ≡ true
        → (j : Codes) × (q : Pointer) × (get bucket j ≡ some q) × Below (content i) q.clock
    pub apart :
        (i j : Codes) (p q : Pointer)
        → get bucket i ≡ some p
        → get bucket j ≡ some q
        → (i == j) ≡ false
        → Describes concurrent p.clock q.clock

  pub empty-Holds : Holds [] []
  unfolding get
  empty-Holds = record {
    dict = tt;
    from = λ i p h. absurd (none-some p h);
    covers = λ i h. absurd (ground (arith, h));
    apart = λ i j p q h k other. absurd (none-some p h);
  }

  module _ (bucket : Bucket) (ids : List Codes) (w : Write) (h : Holds bucket ids)
      (own : w.clock ≡ content w.object_id) where
    reject-Holds :
        (i : Codes) (p : Pointer)
        → get bucket i ≡ some p
        → verdict w.clock w.object_id i p ≡ stale
        → Holds bucket (w.object_id ∷ ids)
    reject-Holds i p there v = record {
      dict = h.dict;
      from = λ j q e. let (m, k) = h.from j q e in (ground arith, k);
      covers = λ j m. elim (Bool-cases (w.object_id == j)) [
        | inl here ↦ (
          i,
          p,
          there,
          subst (λ c. Below c p.clock) (own ∙ ap content ((codes_beq_iff w.object_id j).0 here))
              (stale-Below w.clock w.object_id i p v),
        )
        | inr other ↦ h.covers j (sym (ap (λ b. b || contains ids j) other) ∙ m)
      ];
      apart = h.apart;
    }

    module _ (after : Bucket) (a : Accepts w.clock w.object_id w.origin_node bucket after)
        (d : IsDict after) where
      abbrev mine : Pointer
      mine = new w.clock w.object_id w.origin_node

      at_own :
          (i : Codes) (p : Pointer) → get after i ≡ some p → (w.object_id == i) ≡ true → p ≡ mine
      at_own i p e here =
          some-injective p mine
            (sym e ∙ ap (get after) (sym ((codes_beq_iff w.object_id i).0 here)) ∙ a.written)

      accept-from :
          (i : Codes) (p : Pointer)
          → get after i ≡ some p
          → (contains (w.object_id ∷ ids) i ≡ true) × (p.clock ≡ content i)
      accept-from i p e = elim (Bool-cases (w.object_id == i)) [
        | inl here ↦ (
          rw here,
          ap (λ (q : Pointer). q.clock) (at_own i p e here)
              ∙ own
              ∙ ap content ((codes_beq_iff w.object_id i).0 here),
        )
        | inr other ↦ (let (m, k) = h.from i p (a.kept i p e other).0 in (ground arith, k))
      ]

      covered_old :
          (i j : Codes) (q : Pointer)
          → get bucket j ≡ some q
          → Below (content i) q.clock
          → (j' : Codes) × (q' : Pointer) × (get after j' ≡ some q') × Below (content i) q'.clock
      covered_old i j q there below = elim (Bool-cases (w.object_id == j)) [
        | inl here ↦ (
          w.object_id,
          mine,
          a.written,
          subst (λ c. Below (content i) c)
              ((h.from j q there).1
                ∙ ap content (sym ((codes_beq_iff w.object_id j).0 here))
                ∙ sym own)
              below,
        )
        | inr other ↦ (elim (a.old j q there other) [
          | inl (v, gone) ↦ (
            w.object_id,
            mine,
            a.written,
            λ k. omega (arith, below k, superseded-Below w.clock w.object_id j q v k),
          )
          | inr (v, stands) ↦ (j, q, stands, below)
        ])
      ]

      accept-covers :
          (i : Codes)
          → contains (w.object_id ∷ ids) i ≡ true
          → (j : Codes) × (q : Pointer) × (get after j ≡ some q) × Below (content i) q.clock
      accept-covers i m = elim (Bool-cases (w.object_id == i)) [
        | inl here ↦ (
          w.object_id,
          mine,
          a.written,
          subst (λ c. Below c w.clock) (own ∙ ap content ((codes_beq_iff w.object_id i).0 here))
              (λ k. omega arith),
        )
        | inr other ↦
            (let (j, q, there, below) =
                h.covers i (sym (ap (λ b. b || contains ids i) other) ∙ m) in
              covered_old i j q there below)
      ]

      against_own :
          (j : Codes) (q : Pointer)
          → get after j ≡ some q
          → (w.object_id == j) ≡ false
          → Describes concurrent w.clock q.clock
      against_own j q e other =
          stays-concurrent w.clock w.object_id j q (a.kept j q e other).1
            (turned w.object_id j other)

      accept-apart :
          (i j : Codes) (p q : Pointer)
          → get after i ≡ some p
          → get after j ≡ some q
          → (i == j) ≡ false
          → Describes concurrent p.clock q.clock
      accept-apart i j p q e f differ = elim (Bool-cases (w.object_id == i)) [
        | inl here ↦
            (let same = (codes_beq_iff w.object_id i).0 here in
              subst (λ (r : Pointer). Describes concurrent r.clock q.clock)
                (sym (at_own i p e here)) (against_own j q f (ap (λ k. k == j) same ∙ differ)))
        | inr other ↦ (elim (Bool-cases (w.object_id == j)) [
          | inl there ↦
              (let (x, y) = against_own i p e other in
                subst (λ (r : Pointer). Describes concurrent p.clock r.clock)
                  (sym (at_own j q f there)) (y, x))
          | inr other' ↦ h.apart i j p q (a.kept i p e other).0 (a.kept j q f other').0 differ
        ])
      ]

      accept-Holds : Holds after (w.object_id ∷ ids)
      accept-Holds = record {
        dict = d;
        from = accept-from;
        covers = accept-covers;
        apart = accept-apart;
      }

    updated-Holds :
        (r : Bucket × Bool)
        → Updated w.clock w.object_id w.origin_node bucket r
        → IsDict r.0
        → Holds r.0 (w.object_id ∷ ids)
    updated-Holds (_, false) (rejected (i, p, there, v)) d = reject-Holds i p there v
    updated-Holds (after, true) (accepted _ a) d = accept-Holds after a d

    pub update-Holds :
        Holds (update_bucket bucket w.object_id w.clock w.origin_node).0 (w.object_id ∷ ids)
    update-Holds =
        updated-Holds (update_bucket bucket w.object_id w.clock w.origin_node)
          (update_bucket-Updated w.clock w.object_id w.origin_node bucket h.dict)
          (update_bucket-IsDict bucket w.object_id w.clock w.origin_node h.dict)
