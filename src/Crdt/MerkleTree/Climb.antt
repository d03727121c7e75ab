-- ===== src/Crdt/MerkleTree/Climb.antt =====
-- The rows that the insertion path of src/cks_runtime/crdt/merkle_tree.py writes.
use cks_runtime.Prelude.{
  ℕ, zero, suc, ◌+◌, ◌≤◌, [], ◌∷◌, ◌++◌, ◌≡◌, refl, ap, sym, ◌∙◌, length, take, ◌==◌, codes_eq,
  if◌then◌else◌, map, arith, fun_ext, Bool-cases, inl, inr, codes_beq_iff, Option, none, some,
  Option-cases, length-append,
}
use mathlib.Core.Option.{some-injective}
use cks_runtime.Dict.{get}
use cks_runtime.Dict.Laws.{get-put}
use cks_runtime.Crdt.MerkleTree.{
  Codes, nibbles, Row, Table, upsert, node_hash, get_hash, child_hash, get_children_hashes, climb,
  postgres_children, postgres_climb,
}

-- Every row has the level that is the length of its prefix.
abbrev pub Levelled : Table → Type 0
Levelled table = (p : Codes) (row : Row) → get table p ≡ some row → row.level ≡ length p

-- The row that an upsert leaves behind.
abbrev stored : Option Row → ℕ → Codes → Row
stored none level hash = record { level = level; hash = hash }
stored (some row) level hash = record { level = row.level; hash = hash }

get-upsert :
    (table : Table) (prefix : Codes) (level : ℕ) (hash p : Codes)
    → get (upsert table prefix level hash) p
      ≡ (if prefix == p then some (stored (get table prefix) level hash) else get table p)
unfolding upsert
get-upsert table prefix level hash p = elim (Option-cases (get table prefix)) [
  | inl e ↦ rw (e, upsert) (get-put table prefix p _)
  | inr (row, e) ↦ rw (e, upsert) (get-put table prefix p _)
]

pub upsert-Levelled :
    (table : Table) (prefix : Codes) (level : ℕ) (hash : Codes)
    → level ≡ length prefix
    → Levelled table
    → Levelled (upsert table prefix level hash)
upsert-Levelled table prefix level hash same l p row h = elim (Bool-cases (prefix == p)) [
  | inl e ↦
      let q : prefix ≡ p = (codes_beq_iff prefix p).0 e in
      let found : some (stored (get table prefix) level hash) ≡ some row =
        sym (get-upsert table prefix level hash p ∙ rw e) ∙ h in
      sym (ap (λ (r : Row). r.level) (some-injective _ _ found))
      ∙ stored_level (get table prefix) refl
      ∙ ap length q
  | inr e ↦ l p row (sym (get-upsert table prefix level hash p ∙ rw e) ∙ h)
]
  where
    stored_level :
        (o : Option Row) → get table prefix ≡ o → (stored o level hash).level ≡ length prefix
    stored_level none e = same
    stored_level (some r) e = l prefix r e

pub length-take_le : (n : ℕ) (xs : Codes) → n ≤ length xs → length (take n xs) ≡ n
length-take_le zero xs h = refl
length-take_le (suc n) [] h = absurd (omega arith)
length-take_le (suc n) (x ∷ xs) h = ap suc (length-take_le n xs (omega arith))

module _ (sha256 : Codes → Codes) where
  pub get_hash-upsert :
      (table : Table) (prefix : Codes) (level : ℕ) (hash p : Codes)
      → get_hash sha256 (upsert table prefix level hash) p
        ≡ (if prefix == p then hash else get_hash sha256 table p)
  unfolding get_hash
  get_hash-upsert table prefix level hash p = ground (arith, get-upsert table prefix level hash p)

  -- At tables whose levels are right both backends read the same children.
  pub child_hash-get_hash :
      (table : Table) (p : Codes) (nibble : ℕ)
      → Levelled table
      → child_hash sha256 table p nibble ≡ get_hash sha256 table (p ++ nibble ∷ [])
  unfolding child_hash get_hash
  child_hash-get_hash table p nibble l = elim (Option-cases (get table (p ++ nibble ∷ []))) [
    | inl e ↦ rw (e, child_hash, get_hash)
    | inr (row, e) ↦
        let level : row.level ≡ length p + 1 =
          l (p ++ nibble ∷ []) row e ∙ length-append p (nibble ∷ []) in
        rw (e, child_hash, get_hash) (ground arith)
  ]

  children_agree :
      (table : Table) (p : Codes)
      → Levelled table
      → get_children_hashes sha256 table p ≡ postgres_children sha256 table p
  unfolding get_children_hashes postgres_children
  children_agree table p l =
      ap (λ (f : ℕ → Codes). map f nibbles)
        (fun_ext (λ nibble. child_hash-get_hash table p nibble l))

  -- The two backends write the same table.
  pub climb-postgres_climb :
      (table : Table) (object_id : Codes) (level : ℕ)
      → level ≤ length object_id
      → Levelled table
      → climb sha256 table object_id level ≡ postgres_climb sha256 table object_id level
  unfolding climb postgres_climb
  climb-postgres_climb table object_id zero h l = refl
  climb-postgres_climb table object_id (suc level) h l =
      let prefix = take level object_id in
      let hash = node_hash sha256 prefix (get_children_hashes sha256 table prefix) in
      let sized : level ≡ length prefix = sym (length-take_le level object_id (omega arith)) in
      climb-postgres_climb (upsert table prefix level hash) object_id level (omega arith)
        (upsert-Levelled table prefix level hash sized l)
      ∙ ap
          (λ hashes.
            postgres_climb sha256 (upsert table prefix level (node_hash sha256 prefix hashes))
              object_id level)
          (children_agree table prefix l)
