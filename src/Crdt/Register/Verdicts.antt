-- ===== src/Crdt/Register/Verdicts.antt =====
-- What a verdict of `update_pointer` says of two clocks (src/cks_runtime/crdt/crdt_store.py).
use cks_runtime.Prelude.{
  ◌≡◌, refl, sym, ap, ◌∙◌, true, false, ◌==◌, codes_eq, ◌⊎◌, inl, inr, if◌then◌else◌, arith,
  Bool-cases, codes_beq_iff, false≢true,
}
use cks_runtime.Crdt.MerkleTree.{Codes}
use cks_runtime.Crdt.VersionVector.{VersionVector}
use cks_runtime.Crdt.Causality.{
  CausalityResult, dominates, dominated, concurrent, equal, causality_check,
}
use cks_runtime.Crdt.Causality.Order.{Below, Describes, causality_check_iff}
use cks_runtime.Crdt.Register.{Pointer, Verdict, stale, superseded, stays, judge, verdict}

judge-stale : (r : CausalityResult) → judge r ≡ stale → r ≡ dominated
judge-stale dominated h = refl
judge-stale concurrent h = absurd (ground (arith, h))
judge-stale dominates h = absurd (ground (arith, h))
judge-stale equal h = absurd (ground (arith, h))

judge-stays : (r : CausalityResult) → judge r ≡ stays → r ≡ concurrent
judge-stays concurrent h = refl
judge-stays dominated h = absurd (ground (arith, h))
judge-stays dominates h = absurd (ground (arith, h))
judge-stays equal h = absurd (ground (arith, h))

judge-superseded : (r : CausalityResult) → judge r ≡ superseded → (r ≡ dominates) ⊎ (r ≡ equal)
judge-superseded dominates h = inl refl
judge-superseded equal h = inr refl
judge-superseded concurrent h = absurd (ground (arith, h))
judge-superseded dominated h = absurd (ground (arith, h))

module _ (vv : VersionVector) (id i : Codes) (p : Pointer) where
  judged :
      (v : Verdict)
      → verdict vv id i p ≡ v
      → (i == id) ≡ false
      → judge (causality_check vv p.clock) ≡ v
  unfolding verdict
  judged v e other =
      sym (ap (λ b. if b then stays else judge (causality_check vv p.clock)) other) ∙ e

  same_id : (i == id) ≡ true → verdict vv id i p ≡ stays
  unfolding verdict
  same_id here = ap (λ b. if b then stays else judge (causality_check vv p.clock)) here

  pub stale-Below : verdict vv id i p ≡ stale → Below vv p.clock
  stale-Below e = elim (Bool-cases (i == id)) [
    | inl here ↦ absurd (ground (arith, sym (same_id here) ∙ e))
    | inr other ↦
        ((causality_check_iff vv p.clock dominated).0
          (judge-stale (causality_check vv p.clock) (judged stale e other))).0
  ]

  pub superseded-Below : verdict vv id i p ≡ superseded → Below p.clock vv
  superseded-Below e = elim (Bool-cases (i == id)) [
    | inl here ↦ absurd (ground (arith, sym (same_id here) ∙ e))
    | inr other ↦
        (elim (judge-superseded (causality_check vv p.clock) (judged superseded e other)) [
          | inl d ↦ ((causality_check_iff vv p.clock dominates).0 d).0
          | inr q ↦ ((causality_check_iff vv p.clock equal).0 q).1
        ])
  ]

  pub stays-concurrent :
      verdict vv id i p ≡ stays → (i == id) ≡ false → Describes concurrent vv p.clock
  stays-concurrent e other =
      (causality_check_iff vv p.clock concurrent).0
        (judge-stays (causality_check vv p.clock) (judged stays e other))

pub turned : (i j : Codes) → (i == j) ≡ false → (j == i) ≡ false
turned i j h = elim (Bool-cases (j == i)) [
  | inl e ↦ absurd (false≢true (sym h ∙ (codes_beq_iff i j).1 (sym ((codes_beq_iff j i).0 e))))
  | inr e ↦ e
]
