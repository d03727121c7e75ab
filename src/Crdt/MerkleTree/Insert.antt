-- ===== src/Crdt/MerkleTree/Insert.antt =====
-- One insert (src/cks_runtime/crdt/merkle_tree.py) against the canonical tree.
use cks_runtime.Prelude.{
  ℕ, zero, suc, ◌+◌, ◌-◌, ◌≤◌, List, [], ◌∷◌, ◌++◌, ◌≡◌, refl, ap, sym, ◌∙◌, true, false, length,
  take, contains, ◌==◌, codes_eq, if◌then◌else◌, map, arith, fun_ext, Bool-cases, inl, inr, ◌⊎◌,
  ==_refl, codes_beq_iff, eqb, length-append, eqb_iff,
}
use mathlib.Core.Path.{subst, ap₂}
use cks_runtime.Crdt.MerkleTree.{
  Codes, nibbles, Table, upsert, empty_subtree_hash, node_hash, get_hash, child_hash,
  get_children_hashes, climb,
}
use cks_runtime.Crdt.MerkleTree.Canonical.{has_prefix, occurs, occurs-member, node}
use cks_runtime.Crdt.MerkleTree.Climb.{
  Levelled, upsert-Levelled, get_hash-upsert, child_hash-get_hash, length-take_le,
}

has_prefix-snoc : (p i : Codes) (n : ℕ) → has_prefix (p ++ n ∷ []) i ≡ true → has_prefix p i ≡ true
has_prefix-snoc [] i n h = refl
has_prefix-snoc (x ∷ p) [] n h = absurd (ground arith)
has_prefix-snoc (x ∷ p) (y ∷ i) n h = ground (arith, has_prefix-snoc p i n)

has_prefix-take : (n : ℕ) (i : Codes) → n ≤ length i → has_prefix (take n i) i ≡ true
has_prefix-take n i h = rw (length-take_le n i h) (==_refl (take n i))

take_all : (i : Codes) → take (length i) i ≡ i
take_all [] = refl
take_all (x ∷ i) = ap (◌∷◌ x) (take_all i)

module _ (sha256 : Codes → Codes) where
  -- An id that does not go through a node leaves its hash alone.
  node_skips :
      (d : ℕ) (p i : Codes) (ids : List Codes)
      → has_prefix p i ≡ false
      → node sha256 d p (i ∷ ids) ≡ node sha256 d p ids
  unfolding node occurs
  node_skips zero p i ids h = rw h
  node_skips (suc d) p i ids h = rw h (
      ap
        (λ (f : ℕ → Codes).
          if occurs p ids then node_hash sha256 p (map f nibbles) else empty_subtree_hash sha256)
        (fun_ext (λ n. node_skips d (p ++ n ∷ []) i ids (outside n))))
    where
      outside : (n : ℕ) → has_prefix (p ++ n ∷ []) i ≡ false
      outside n = ground (arith, has_prefix-snoc p i n)

  -- The table holds the hashes of the canonical tree for `ids`, except perhaps those on the path to
  -- `object_id` above `level`.
  abbrev InStep : Table → List Codes → Codes → ℕ → Type 0
  InStep table ids object_id level =
      (p : Codes) (d : ℕ)
      → length p + d ≡ length object_id
      → (level ≤ length p) ⊎ (has_prefix p object_id ≡ false)
      → get_hash sha256 table p ≡ node sha256 d p ids

  -- One round of the loop of `climb`.
  abbrev rise : Table → Codes → ℕ → Table
  rise table object_id level = upsert table (take level object_id) level (
      node_hash sha256 (take level object_id)
        (get_children_hashes sha256 table (take level object_id)))

  -- The node that one round of the loop writes.
  written :
      (table : Table) (ids : List Codes) (object_id : Codes) (level d : ℕ)
      → level + suc d ≡ length object_id
      → contains ids object_id ≡ true
      → Levelled table
      → InStep table ids object_id (suc level)
      → node_hash sha256
          (take level object_id)
          (get_children_hashes sha256 table (take level object_id))
        ≡ node sha256 (suc d) (take level object_id) ids
  unfolding node get_children_hashes
  written table ids object_id level d e m l s =
      let p = take level object_id in
      let sized : length p ≡ level = length-take_le level object_id (omega arith) in
      let child : (n : ℕ) → child_hash sha256 table p n ≡ node sha256 d (p ++ n ∷ []) ids = λ n.
        child_hash-get_hash sha256 table p n l
        ∙ s (p ++ n ∷ []) d (omega (arith, length-append p (n ∷ [])))
            (inl (omega (arith, length-append p (n ∷ [])))) in
      rw (occurs-member p object_id ids m (has_prefix-take level object_id (omega arith)))
        (ap (λ (f : ℕ → Codes). node_hash sha256 p (map f nibbles)) (fun_ext child))

  round :
      (table : Table) (ids : List Codes) (object_id : Codes) (level : ℕ)
      → suc level ≤ length object_id
      → contains ids object_id ≡ true
      → Levelled table
      → InStep table ids object_id (suc level)
      → InStep (rise table object_id level) ids object_id level
  round table ids object_id level h m l s p d e side =
      elim (Bool-cases (take level object_id == p)) [
        | inl here ↦
            let q : take level object_id ≡ p = (codes_beq_iff (take level object_id) p).0 here in
            let sized : length p ≡ level =
              ap length (sym q) ∙ length-take_le level object_id (omega arith) in
            let up : d ≡ suc (d - 1) = omega arith in
            get_hash-upsert sha256 table (take level object_id) level _ p
            ∙ rw here (
                written table ids object_id level (d - 1) (omega arith) m l s
                ∙ ap₂ (λ k r. node sha256 k r ids) (sym up) q)
        | inr other ↦
            get_hash-upsert sha256 table (take level object_id) level _ p
            ∙ rw other (s p d e (elsewhere other side))
      ]
    where
      elsewhere :
          (take level object_id == p) ≡ false
          → (level ≤ length p) ⊎ (has_prefix p object_id ≡ false)
          → (suc level ≤ length p) ⊎ (has_prefix p object_id ≡ false)
      elsewhere other (inr outside) = inr outside
      elsewhere other (inl low) = elim (Bool-cases (eqb level (length p))) [
        | inl same ↦ inr (subst (λ k. (take k object_id == p) ≡ false) ((eqb_iff _ _).0 same) other)
        | inr longer ↦ inl (ground (arith, eqb_iff level (length p)))
      ]

  climb-InStep :
      (table : Table) (ids : List Codes) (object_id : Codes) (level : ℕ)
      → level ≤ length object_id
      → contains ids object_id ≡ true
      → Levelled table
      → InStep table ids object_id level
      → InStep (climb sha256 table object_id level) ids object_id 0
        × Levelled (climb sha256 table object_id level)
  unfolding climb
  climb-InStep table ids object_id zero h m l s = (s, l)
  climb-InStep table ids object_id (suc level) h m l s =
      climb-InStep (rise table object_id level) ids object_id level (omega arith) m
        (upsert-Levelled table (take level object_id) level _
          (sym (length-take_le level object_id (omega arith))) l)
        (round table ids object_id level h m l s)

  -- The whole table is in step with the ids, whose length is `width`.
  abbrev pub Whole : ℕ → Table → List Codes → Type 0
  Whole width table ids =
      Levelled table
      × ((p : Codes) (d : ℕ) → length p + d ≡ width → get_hash sha256 table p ≡ node sha256 d p ids)

  node-leaf : (leaf : Codes) (ids : List Codes) → node sha256 0 leaf (leaf ∷ ids) ≡ leaf
  unfolding node occurs
  node-leaf leaf ids = rw (take_all leaf, ==_refl leaf)

  leaf-InStep :
      (table : Table) (ids : List Codes) (leaf : Codes)
      → Whole (length leaf) table ids
      → InStep (upsert table leaf (length leaf) leaf) (leaf ∷ ids) leaf (length leaf)
  leaf-InStep table ids leaf w p d e side = elim (Bool-cases (leaf == p)) [
    | inl here ↦
        let q : leaf ≡ p = (codes_beq_iff leaf p).0 here in
        let bottom : 0 ≡ d = omega (arith, ap length q) in
        get_hash-upsert sha256 table leaf (length leaf) leaf p
        ∙ rw here (sym (node-leaf leaf ids) ∙ ap₂ (λ k r. node sha256 k r (leaf ∷ ids)) bottom q)
    | inr other ↦
        get_hash-upsert sha256 table leaf (length leaf) leaf p
        ∙ rw other (w.1 p d e ∙ sym (node_skips d p leaf ids (outside other side)))
  ]
    where
      outside :
          (leaf == p) ≡ false
          → (length leaf ≤ length p) ⊎ (has_prefix p leaf ≡ false)
          → has_prefix p leaf ≡ false
      outside other (inr h) = h
      outside other (inl low) =
          let same : length p ≡ length leaf = omega arith in rw (same, take_all leaf) other

  pub insert-Whole :
      (table : Table) (ids : List Codes) (leaf : Codes)
      → Whole (length leaf) table ids
      → Whole
          (length leaf)
          (climb sha256 (upsert table leaf (length leaf) leaf) leaf (length leaf))
          (leaf ∷ ids)
  insert-Whole table ids leaf w =
      let (s, l) =
        climb-InStep (upsert table leaf (length leaf) leaf) (leaf ∷ ids) leaf (length leaf)
          (omega arith) (ground (arith, ==_refl leaf))
          (upsert-Levelled table leaf (length leaf) leaf refl w.0) (leaf-InStep table ids leaf w) in
      (l, λ p d e. s p d e (inl (omega arith)))
