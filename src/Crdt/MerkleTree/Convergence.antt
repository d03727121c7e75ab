-- ===== src/Crdt/MerkleTree/Convergence.antt =====
-- Histories of inserts (src/cks_runtime/crdt/merkle_tree.py) and the canonical tree of their ids.
use cks_runtime.Prelude.{
  ℕ, zero, suc, ◌+◌, ◌-◌, ◌≤◌, List, [], ◌∷◌, ◌≡◌, refl, ap, sym, ◌∙◌, true, length, contains,
  codes_eq, map, arith, ◌||◌, Bool-cases, inl, inr, some, All, eqb_iff,
}
use mathlib.Core.Path.{subst}
use cks_runtime.Dict.{get}
use cks_runtime.Crdt.MerkleTree.{
  Codes, Table, upsert, empty_subtree_hash, get_hash, climb, postgres_update_merkle_path, lower,
  validate_id, id_hex_length, update_merkle_path, update_all,
}
use cks_runtime.Crdt.MerkleTree.Canonical.{occurs, node, SameIds, node-SameIds}
use cks_runtime.Crdt.MerkleTree.Insert.{Whole, insert-Whole}
use cks_runtime.Crdt.MerkleTree.Climb.{Levelled, upsert-Levelled, climb-postgres_climb}

-- The ids of a history of inserts in lower case, the latest first, on top of earlier ones.
abbrev known : List Codes → List Codes → List Codes
known ids [] = ids
known ids (i ∷ history) = known (lower i ∷ ids) history

contains-known :
    (ids history : List Codes) (i : Codes)
    → contains (known ids history) i ≡ (contains ids i || contains (map lower history) i)
contains-known ids [] i = ground arith
contains-known ids (j ∷ history) i = ground (arith, contains-known (lower j ∷ ids) history i)

length-lower : (i : Codes) → length (lower i) ≡ length i
length-lower [] = refl
length-lower (c ∷ i) = ap suc (length-lower i)

abbrev pub IsObjectId : Codes → Type 0
IsObjectId i = validate_id i ≡ true

length-IsObjectId : (i : Codes) → IsObjectId i → length (lower i) ≡ id_hex_length
unfolding validate_id
length-IsObjectId i h = ground (arith, length-lower i, eqb_iff (length i) id_hex_length)

module _ (sha256 : Codes → Codes) where
  update-Whole :
      (table : Table) (ids : List Codes) (i : Codes)
      → IsObjectId i
      → Whole sha256 id_hex_length table ids
      → (t : Table) × (update_merkle_path sha256 table i ≡ some t)
        × Whole sha256 id_hex_length t (lower i ∷ ids)
  unfolding update_merkle_path
  update-Whole table ids i h w =
      let n = length-IsObjectId i h in
      let whole : Whole sha256 (length (lower i)) table ids =
        subst (λ k. Whole sha256 k table ids) (sym n) w in
      (
        climb sha256 (upsert table (lower i) id_hex_length (lower i)) (lower i) id_hex_length,
        rw h,
        subst
            (λ k.
              Whole sha256 k (climb sha256 (upsert table (lower i) k (lower i)) (lower i) k)
                (lower i ∷ ids))
            n (insert-Whole sha256 table ids (lower i) whole),
      )

  update_all-Whole :
      (table : Table) (ids history : List Codes)
      → All IsObjectId history
      → Whole sha256 id_hex_length table ids
      → (t : Table) × (update_all sha256 table history ≡ some t)
        × Whole sha256 id_hex_length t (known ids history)
  unfolding update_all
  update_all-Whole table ids [] h w = (table, refl, w)
  update_all-Whole table ids (i ∷ history) h w =
      let (t, done, w') = update-Whole table ids i h.0 w in
      let (t', rest, w'') = update_all-Whole t (lower i ∷ ids) history h.1 w' in
      (t', rw (done, update_all) rest, w'')

  empty-Whole : Whole sha256 id_hex_length [] []
  unfolding get_hash get node occurs
  empty-Whole = (λ p row h. absurd (ground arith), λ p d e. empty-node d p)
    where
      empty-node : (d : ℕ) (p : Codes) → empty_subtree_hash sha256 ≡ node sha256 d p []
      empty-node zero p = refl
      empty-node (suc d) p = refl

  -- Any history of inserts of well-formed ids into an empty tree succeeds, and leaves at every
  -- prefix the hash of the canonical tree of the set of these ids in lower case.
  pub update_all-node :
      (history : List Codes)
      → All IsObjectId history
      → (t : Table) × (update_all sha256 [] history ≡ some t)
        × ((p : Codes) (d : ℕ)
            → length p + d ≡ id_hex_length
            → get_hash sha256 t p ≡ node sha256 d p (map lower history))
  update_all-node history h =
      let (t, done, w) = update_all-Whole [] [] history h empty-Whole in
      (
        t,
        done,
        λ p d e.
            w.1 p d e
            ∙ node-SameIds sha256 d p (known [] history) (map lower history)
                (λ i. contains-known [] history i),
      )

  -- Two replicas that have inserted the same ids, in whatever order, however often and in whatever
  -- case, have the same hash at every prefix, so the same root hash.
  pub update_all-converges :
      (history history' : List Codes)
      → All IsObjectId history
      → All IsObjectId history'
      → SameIds (map lower history) (map lower history')
      → (t t' : Table) × (update_all sha256 [] history ≡ some t)
        × (update_all sha256 [] history' ≡ some t')
        × ((p : Codes) → length p ≤ id_hex_length → get_hash sha256 t p ≡ get_hash sha256 t' p)
  update_all-converges history history' h h' same =
      let (t, done, w) = update_all-node history h in
      let (t', done', w') = update_all-node history' h' in
      (
        t,
        t',
        done,
        done',
        λ p low.
            let e : length p + (id_hex_length - length p) ≡ id_hex_length = omega arith in
            w p (id_hex_length - length p) e
            ∙ node-SameIds sha256 (id_hex_length - length p) p (map lower history)
                (map lower history') same
            ∙ sym (w' p (id_hex_length - length p) e),
      )

  -- At a table whose levels are right the SQLite and the PostgreSQL tree write the same table, or
  -- both reject the id.
  pub update-postgres_update :
      (table : Table) (i : Codes)
      → Levelled table
      → update_merkle_path sha256 table i ≡ postgres_update_merkle_path sha256 table i
  unfolding update_merkle_path postgres_update_merkle_path
  update-postgres_update table i l = elim (Bool-cases (validate_id i)) [
    | inl good ↦
        let n = length-IsObjectId i good in
        rw good (
          ap some (
            climb-postgres_climb sha256 (upsert table (lower i) id_hex_length (lower i)) (lower i)
              id_hex_length (omega arith)
              (upsert-Levelled table (lower i) id_hex_length (lower i) (sym n) l)))
    | inr bad ↦ rw bad
  ]
