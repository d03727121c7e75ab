-- ===== src/Crdt/MerkleTree/Canonical.antt =====
-- The tree as a function of the set of ids alone.
use cks_runtime.Prelude.{
  ℕ, zero, suc, List, [], ◌∷◌, ◌++◌, ◌≡◌, refl, ap, sym, ◌∙◌, Bool, true, false, length, take,
  contains, ◌==◌, codes_eq, if◌then◌else◌, map, arith, ◌||◌, fun_ext, Bool-cases, inl, inr, ==_refl,
  codes_beq_iff,
}
use mathlib.Core.Path.{subst}
use cks_runtime.Crdt.MerkleTree.{Codes, nibbles, empty_subtree_hash, node_hash}

-- `object_id.startswith(prefix)`
abbrev pub has_prefix : Codes → Codes → Bool
has_prefix prefix object_id = take (length prefix) object_id == prefix

unfoldable pub occurs : Codes → List Codes → Bool
occurs prefix [] = false
occurs prefix (object_id ∷ ids) = has_prefix prefix object_id || occurs prefix ids

module _ (sha256 : Codes → Codes) where
  -- The hash of the node at `prefix`, `depth` levels above the leaves, for a collection of ids.
  unfoldable pub node : ℕ → Codes → List Codes → Codes
  node zero prefix ids = if occurs prefix ids then prefix else empty_subtree_hash sha256
  node (suc depth) prefix ids =
      if occurs prefix ids
      then node_hash sha256 prefix (map (λ nibble. node depth (prefix ++ nibble ∷ []) ids) nibbles)
      else empty_subtree_hash sha256

-- Two collections with the same members.
abbrev pub SameIds : List Codes → List Codes → Type 0
SameIds ids ids' = (i : Codes) → contains ids i ≡ contains ids' i

occurs-found :
    (prefix : Codes) (ids : List Codes)
    → occurs prefix ids ≡ true
    → (i : Codes) × (contains ids i ≡ true) × (has_prefix prefix i ≡ true)
unfolding occurs
occurs-found prefix [] h = absurd (ground arith)
occurs-found prefix (j ∷ ids) h = elim (Bool-cases (has_prefix prefix j)) [
  | inl e ↦ (j, ground (arith, ==_refl j), e)
  | inr e ↦ let (i, m, p) = occurs-found prefix ids (ground arith) in (i, ground arith, p)
]

pub occurs-member :
    (prefix i : Codes) (ids : List Codes)
    → contains ids i ≡ true
    → has_prefix prefix i ≡ true
    → occurs prefix ids ≡ true
unfolding occurs
occurs-member prefix i [] m p = absurd (ground arith)
occurs-member prefix i (j ∷ ids) m p = elim (Bool-cases (j == i)) [
  | inl e ↦
      let here : has_prefix prefix j ≡ true =
        subst (λ k. has_prefix prefix k ≡ true) (sym ((codes_beq_iff j i).0 e)) p in
      rw here
  | inr e ↦ ground (arith, occurs-member prefix i ids)
]

occurs-SameIds :
    (prefix : Codes) (ids ids' : List Codes)
    → SameIds ids ids'
    → occurs prefix ids ≡ occurs prefix ids'
occurs-SameIds prefix ids ids' same = decide (occurs prefix ids) (occurs prefix ids') refl refl
  where
    decide : (a b : Bool) → occurs prefix ids ≡ a → occurs prefix ids' ≡ b → a ≡ b
    decide true true p q = refl
    decide false false p q = refl
    decide true false p q =
        let (i, m, h) = occurs-found prefix ids p in
        sym (occurs-member prefix i ids' (sym (same i) ∙ m) h) ∙ q
    decide false true p q =
        let (i, m, h) = occurs-found prefix ids' q in
        sym p ∙ occurs-member prefix i ids (same i ∙ m) h

module _ (sha256 : Codes → Codes) where
  -- The order and the multiplicity of the ids do not matter.
  pub node-SameIds :
      (depth : ℕ) (prefix : Codes) (ids ids' : List Codes)
      → SameIds ids ids'
      → node sha256 depth prefix ids ≡ node sha256 depth prefix ids'
  unfolding node
  node-SameIds zero prefix ids ids' same = rw (occurs-SameIds prefix ids ids' same)
  node-SameIds (suc depth) prefix ids ids' same = rw (occurs-SameIds prefix ids ids' same) (
      ap
        (λ (f : ℕ → Codes).
          if occurs prefix ids'
          then node_hash sha256 prefix (map f nibbles)
          else empty_subtree_hash sha256)
        (fun_ext (λ nibble. node-SameIds depth (prefix ++ nibble ∷ []) ids ids' same)))
