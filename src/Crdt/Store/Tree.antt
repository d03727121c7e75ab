-- ===== src/Crdt/Store/Tree.antt =====
-- The tree that the in-memory store (src/cks_runtime/crdt/crdt_store.py) rebuilds, against the
-- canonical tree and the one that SQLite maintains.
use cks_runtime.Prelude.{
  ℕ, zero, suc, ◌+◌, ◌-◌, ◌≤◌, ◌<◌, List, [], ◌∷◌, ◌++◌, ◌≡◌, refl, sym, ap, ◌∙◌, Bool, true, false,
  ◌==◌, codes_eq, if◌then◌else◌, contains, take, length, map, arith, Bool-cases, and-eq-true, ◌&&◌,
  nat_eq, eqb, eqb_iff, false≢true, inl, inr, ◌||◌, codes_beq_iff, fun_ext, All, length-append,
  some,
}
use mathlib.Core.Path.{subst}
use cks_runtime.Dict.{Dict, get_or, put}
use cks_runtime.Dict.Laws.{get_or-put}
use cks_runtime.Crdt.MerkleTree.{
  Codes, Table, nibbles, empty_subtree_hash, node_hash, get_hash, update_all, lower, all_nibbles,
  validate_id, to_lower, id_hex_length,
}
use cks_runtime.Crdt.MerkleTree.Canonical.{occurs, node}
use cks_runtime.Crdt.MerkleTree.Convergence.{IsObjectId, update_all-node}
use cks_runtime.Crdt.Store.{prefixes, fill, leaves, fill_levels, with_empty_root, rebuild}
use cks_runtime.Crdt.Store.Levels.{
  Long, prefixes-OfLength, contains-prefixes, hash_at, inner, fill-elsewhere, fill-level,
}

deeper : (a b : ℕ) → a ≤ b → eqb a b ≡ false → suc a ≤ b
deeper a b h e = ground arith

take_all : (n : ℕ) (xs : Codes) → length xs ≡ n → take n xs ≡ xs
take_all zero [] h = refl
take_all zero (x ∷ xs) h = absurd (omega (arith, h))
take_all (suc n) [] h = refl
take_all (suc n) (x ∷ xs) h = ap (◌∷◌ x) (take_all n xs (omega (arith, h)))

occurs-contains :
    (ids : List Codes) (q : Codes) → Long ids → length q ≡ 64 → occurs q ids ≡ contains ids q
unfolding occurs
occurs-contains [] q l h = refl
occurs-contains (i ∷ ids) q l h =
    ap (λ p. p == q || occurs q ids) (take_all (length q) i (l.0 ∙ sym h))
    ∙ ap (λ b. i == q || b) (occurs-contains ids q l.1 h)

absent : (ids : List Codes) (q : Codes) → Long ids → length q < 64 → contains ids q ≡ false
absent [] q l h = refl
absent (i ∷ ids) q l h = elim (Bool-cases (i == q)) [
  | inl e ↦ absurd (omega (arith, l.0, h, ap length ((codes_beq_iff i q).0 e)))
  | inr e ↦ ap (λ b. b || contains ids q) e ∙ absent ids q l.1 h
]

-- Ids in the form that `bytes.hex` writes them.
abbrev pub IsHex : Codes → Type 0
IsHex i = (length i ≡ id_hex_length) × (all_nibbles i ≡ true)

to_lower-nibble : (c : ℕ) → contains nibbles c ≡ true → to_lower c ≡ c
unfolding to_lower
to_lower-nibble c h = ground (arith, h)

lower-nibbles : (cs : Codes) → all_nibbles cs ≡ true → lower cs ≡ cs
unfolding all_nibbles
lower-nibbles [] h = refl
lower-nibbles (c ∷ cs) h =
    let (first, rest) = and-eq-true (contains nibbles c) (all_nibbles cs) h in
    ap (λ d. d ∷ lower cs) (to_lower-nibble c first) ∙ ap (◌∷◌ c) (lower-nibbles cs rest)

pub IsHex-IsObjectId : (i : Codes) → IsHex i → IsObjectId i
unfolding validate_id
IsHex-IsObjectId i h =
    rw (lower-nibbles i h.1, h.1) (ap (λ b. b && true) ((eqb_iff (length i) id_hex_length).1 h.0))

IsHex-ids : (ids : List Codes) → All IsHex ids → All IsObjectId ids
IsHex-ids [] h = tt
IsHex-ids (i ∷ ids) h = (IsHex-IsObjectId i h.0, IsHex-ids ids h.1)

pub IsHex-Long : (ids : List Codes) → All IsHex ids → Long ids
IsHex-Long [] h = tt
IsHex-Long (i ∷ ids) h = (h.0.0, IsHex-Long ids h.1)

lower-ids : (ids : List Codes) → All IsHex ids → map lower ids ≡ ids
lower-ids [] h = refl
lower-ids (i ∷ ids) h =
    ap (λ j. j ∷ map lower ids) (lower-nibbles i h.0.1) ∙ ap (◌∷◌ i) (lower-ids ids h.1)

module _ (sha256 : Codes → Codes) where
  leaves-hash :
      (nodes : Dict Codes Codes) (ids : List Codes) (q : Codes)
      → hash_at sha256 (leaves sha256 nodes ids) q
        ≡ (if contains ids q then q else hash_at sha256 nodes q)
  unfolding leaves
  leaves-hash nodes [] q = refl
  leaves-hash nodes (i ∷ ids) q =
      leaves-hash (put nodes i i) ids q
      ∙ ap (λ x. if contains ids q then q else x)
          (get_or-put nodes i q i (empty_subtree_hash sha256))
      ∙ settle (i == q) (contains ids q) (hash_at sha256 nodes q) (λ e. (codes_beq_iff i q).0 e)
    where
      settle :
          (b c : Bool) (x : Codes)
          → (b ≡ true → i ≡ q)
          → (if c then q else (if b then i else x)) ≡ (if b || c then q else x)
      settle true true x h = refl
      settle true false x h = h refl
      settle false true x h = refl
      settle false false x h = refl

  -- The levels from one on down to the leaves are those of the canonical tree; above it nothing is.
  record Built (ids : List Codes) (level : ℕ) (nodes : Dict Codes Codes) : Type 0 where
    done :
        (q : Codes) (d : ℕ)
        → level ≤ length q
        → length q + d ≡ 64
        → hash_at sha256 nodes q ≡ node sha256 d q ids
    above : (q : Codes) → length q < level → hash_at sha256 nodes q ≡ empty_subtree_hash sha256

  leaves-Built : (ids : List Codes) → Long ids → Built ids 64 (leaves sha256 [] ids)
  unfolding node get_or
  leaves-Built ids l = record {
    done = λ q d low e.
        let bottom : d ≡ 0 = omega (arith, low, e) in
        subst (λ k. hash_at sha256 (leaves sha256 [] ids) q ≡ node sha256 k q ids) (sym bottom)
          (leaves-hash [] ids q
            ∙ ap (λ b. if b then q else empty_subtree_hash sha256)
                (sym (occurs-contains ids q l (omega (arith, low, e)))));
    above = λ q high.
        leaves-hash [] ids q
        ∙ ap (λ b. if b then q else empty_subtree_hash sha256) (absent ids q l high);
  }

  module _ (ids : List Codes) (l : Long ids) (level : ℕ) (low : suc level ≤ 64) where
    abbrev next : Dict Codes Codes → Dict Codes Codes
    next nodes = fill sha256 nodes (prefixes level ids)

    next-at :
        (nodes : Dict Codes Codes) (q : Codes)
        → Built ids (suc level) nodes
        → level ≡ length q
        → (d : ℕ) → length q + suc d ≡ 64
        → hash_at sha256 (next nodes) q ≡ node sha256 (suc d) q ids
    unfolding node
    next-at nodes q b same d e =
        fill-level sha256 level (prefixes level ids) nodes q
          (prefixes-OfLength level ids (omega (arith, low)) l) same
        ∙ ap (λ x. if x then inner sha256 nodes q else hash_at sha256 nodes q)
            (contains-prefixes level ids q (sym same))
        ∙ ap (λ y. if occurs q ids then inner sha256 nodes q else y)
            (b.above q (omega (arith, same)))
        ∙ ap
            (λ (f : ℕ → Codes).
              if occurs q ids
              then node_hash sha256 q (map f nibbles)
              else empty_subtree_hash sha256)
            (fun_ext (λ n.
              b.done (q ++ n ∷ []) d (omega (arith, same, length-append q (n ∷ [])))
                (omega (arith, e, length-append q (n ∷ [])))))

    next-Built :
        (nodes : Dict Codes Codes) → Built ids (suc level) nodes → Built ids level (next nodes)
    next-Built nodes b = record {
      done = λ q d high e. elim (Bool-cases (eqb level (length q))) [
        | inl here ↦
            (let same = (eqb_iff level (length q)).0 here in
              let up : d ≡ suc (d - 1) = omega (arith, same, low, e) in
              subst (λ k. hash_at sha256 (next nodes) q ≡ node sha256 k q ids) (sym up)
                (next-at nodes q b same (d - 1) (omega (arith, up, e))))
        | inr other ↦
            fill-elsewhere sha256 level (prefixes level ids) nodes q
              (prefixes-OfLength level ids (omega (arith, low)) l)
              (λ same. false≢true (sym other ∙ (eqb_iff level (length q)).1 same))
            ∙ b.done q d (deeper level (length q) high other) e
      ];
      above = λ q high.
          fill-elsewhere sha256 level (prefixes level ids) nodes q
            (prefixes-OfLength level ids (omega (arith, low)) l)
            (λ same. absurd (omega (arith, same, high)))
          ∙ b.above q (omega (arith, high));
    }

  fill_levels-Built :
      (ids : List Codes) (level : ℕ) (nodes : Dict Codes Codes)
      → Long ids
      → level ≤ 64
      → Built ids level nodes
      → Built ids zero (fill_levels sha256 nodes ids level)
  unfolding fill_levels
  fill_levels-Built ids zero nodes l low b = b
  fill_levels-Built ids (suc level) nodes l low b =
      fill_levels-Built ids level (fill sha256 nodes (prefixes level ids)) l (omega (arith, low))
        (next-Built ids l level low nodes b)

  empty-node : (d : ℕ) (q : Codes) → node sha256 d q [] ≡ empty_subtree_hash sha256
  unfolding node occurs
  empty-node zero q = refl
  empty-node (suc d) q = refl

  root-hash :
      (ids : List Codes) (nodes : Dict Codes Codes) (q : Codes) (d : ℕ)
      → hash_at sha256 nodes q ≡ node sha256 d q ids
      → hash_at sha256 (with_empty_root sha256 ids nodes) q ≡ node sha256 d q ids
  root-hash (i ∷ ids) nodes q d h = h
  root-hash [] nodes q d h =
      get_or-put nodes [] q (empty_subtree_hash sha256) (empty_subtree_hash sha256)
      ∙ (elim (Bool-cases (◌==◌ {B = Codes} [] q)) [
        | inl e ↦
            ap (λ b. if b then empty_subtree_hash sha256 else hash_at sha256 nodes q) e
            ∙ sym (empty-node d q)
        | inr e ↦ ap (λ b. if b then empty_subtree_hash sha256 else hash_at sha256 nodes q) e ∙ h
      ])

  -- The tree that the in-memory store rebuilds has at every prefix the hash of the canonical tree
  -- of its ids, if these have 64 digits.
  pub rebuild-node :
      (ids : List Codes)
      → Long ids
      → (q : Codes) (d : ℕ) → length q + d ≡ id_hex_length
      → hash_at sha256 (rebuild sha256 ids) q ≡ node sha256 d q ids
  unfolding rebuild
  rebuild-node ids l q d e =
      root-hash ids (fill_levels sha256 (leaves sha256 [] ids) ids id_hex_length) q d (
        (fill_levels-Built ids 64 (leaves sha256 [] ids) l (omega arith) (leaves-Built ids l)).done
          q d (omega arith) e)

  -- The tree that the in-memory store rebuilds from its ids, and the one that SQLite maintains
  -- insert by insert, have the same hash at every prefix.
  pub rebuild-update_all :
      (ids : List Codes)
      → All IsHex ids
      → (t : Table) × (update_all sha256 [] ids ≡ some t)
        × ((q : Codes)
            → length q ≤ id_hex_length
            → hash_at sha256 (rebuild sha256 ids) q ≡ get_hash sha256 t q)
  rebuild-update_all ids h =
      let (t, done, at) = update_all-node sha256 ids (IsHex-ids ids h) in
      (
        t,
        done,
        λ q low.
            let e : length q + (id_hex_length - length q) ≡ id_hex_length = omega (arith, low) in
            rebuild-node ids (IsHex-Long ids h) q (id_hex_length - length q) e
            ∙ ap (node sha256 (id_hex_length - length q) q) (sym (lower-ids ids h))
            ∙ sym (at q (id_hex_length - length q) e),
      )
