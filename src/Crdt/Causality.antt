-- ===== src/Crdt/Causality.antt =====
-- src/cks_runtime/crdt/causality.py: the causal relation of two vector clocks.
pub mod Order
use cks_runtime.Prelude.{
  ℕ, String, List, [], ◌∷◌, Bool, true, false, ltb, if◌then◌else◌, string_eq, union,
}
use cks_runtime.Dict.{get_or, keys}
use cks_runtime.Crdt.VersionVector.{VersionVector}

pub data CausalityResult : Type 0 where
  dominates dominated concurrent equal : CausalityResult

-- The loop over the node ids, with its two flags `a_has_greater` and `b_has_greater`.
unfoldable pub scan : VersionVector → VersionVector → List String → Bool → Bool → Bool × Bool
scan vv_a vv_b [] a_has_greater b_has_greater = (a_has_greater, b_has_greater)
scan vv_a vv_b (node_id ∷ node_ids) a_has_greater b_has_greater =
    let a_clock = get_or vv_a.clocks node_id 0 in
    let b_clock = get_or vv_b.clocks node_id 0 in
    scan vv_a vv_b node_ids (if ltb b_clock a_clock then true else a_has_greater) (
      if ltb b_clock a_clock
      then b_has_greater
      else if ltb a_clock b_clock
      then true
      else b_has_greater)

-- The tests at the end of `causality_check`.
unfoldable pub classify : Bool × Bool → CausalityResult
classify (a_has_greater, b_has_greater) =
    if a_has_greater
    then (if b_has_greater then concurrent else dominates)
    else if b_has_greater
    then dominated
    else equal

unfoldable pub causality_check : VersionVector → VersionVector → CausalityResult
unfolding scan classify
causality_check vv_a vv_b =
    classify (scan vv_a vv_b (union (keys vv_a.clocks) (keys vv_b.clocks)) false false)
