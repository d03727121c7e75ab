-- ===== src/Crdt/MerkleTree.antt =====
-- src/cks_runtime/crdt/merkle_tree.py: the Merkle prefix tree over object ids.
-- Texts are lists of code points. The SHA-256 digest, as a hexadecimal text, is the parameter
-- `sha256`. A table is a dictionary from `prefix_path` to the columns `level` and `hash`; commits,
-- time stamps, locks and retries are left out. The functions of the PostgreSQL backend that differ
-- from those of SQLite carry its name.
pub mod Canonical
pub mod Climb
pub mod Insert
pub mod Convergence
mod Tests
use cks_runtime.Prelude.{
  ℕ, zero, suc, ◌+◌, List, [], ◌∷◌, ◌++◌, Bool, true, false, Option, none, some, leb, eqb, length,
  take, ◌&&◌, ◌||◌, contains, nat_eq, codes_eq, if◌then◌else◌, map,
}
use cks_runtime.Dict.{Dict, get, put}

abbrev pub Codes : Type 0
Codes = List ℕ

abbrev pub id_hex_length : ℕ
id_hex_length = 64

abbrev pub nibbles : Codes
nibbles =
    b'0' ∷ b'1' ∷ b'2' ∷ b'3' ∷ b'4' ∷ b'5' ∷ b'6' ∷ b'7' ∷ b'8' ∷ b'9' ∷ b'a' ∷ b'b' ∷ b'c' ∷ b'd'
    ∷ b'e' ∷ b'f' ∷ []

-- `str.lower` on one character. Of the others than A to Z none becomes a hexadecimal digit.
unfoldable pub to_lower : ℕ → ℕ
to_lower c = if leb b'A' c && leb c b'Z' then c + 32 else c

abbrev pub lower : Codes → Codes
lower = map to_lower

unfoldable pub all_nibbles : Codes → Bool
all_nibbles [] = true
all_nibbles (c ∷ cs) = contains nibbles c && all_nibbles cs

-- `_validate_id`: true where it raises no `ValueError`.
unfoldable pub validate_id : Codes → Bool
unfolding all_nibbles to_lower
validate_id object_id = eqb (length object_id) id_hex_length && all_nibbles (lower object_id)

pub record Row : Type 0 where
  pub level : ℕ
  pub hash : Codes

abbrev pub Table : Type 0
Table = Dict Codes Row

abbrev pub join_texts : List Codes → Codes
join_texts [] = []
join_texts (text ∷ texts) = text ++ join_texts texts

-- `INSERT … ON CONFLICT (prefix_path) DO UPDATE`, which leaves the level of a row that is there.
unfoldable pub upsert : Table → Codes → ℕ → Codes → Table
upsert table prefix level node_hash = elim (get table prefix) [
  | none ↦ put table prefix (record { level = level; hash = node_hash })
  | some row ↦ put table prefix (record row { hash = node_hash })
]

-- The text "cks-crdt-merkle-empty-subtree".
abbrev pub marker : Codes
marker =
    b'c' ∷ b'k' ∷ b's' ∷ b'-' ∷ b'c' ∷ b'r' ∷ b'd' ∷ b't' ∷ b'-' ∷ b'm' ∷ b'e' ∷ b'r' ∷ b'k' ∷ b'l'
    ∷ b'e' ∷ b'-' ∷ b'e' ∷ b'm' ∷ b'p' ∷ b't' ∷ b'y' ∷ b'-' ∷ b's' ∷ b'u' ∷ b'b' ∷ b't' ∷ b'r'
    ∷ b'e' ∷ b'e' ∷ []

module _ (sha256 : Codes → Codes) where
  abbrev pub empty_subtree_hash : Codes
  empty_subtree_hash = sha256 marker

  unfoldable pub node_hash : Codes → List Codes → Codes
  node_hash prefix children = sha256 (prefix ++ join_texts children)

  unfoldable pub get_hash : Table → Codes → Codes
  get_hash table prefix = elim (get table prefix) [
    | none ↦ empty_subtree_hash
    | some row ↦ row.hash
  ]

  abbrev pub get_root_hash : Table → Codes
  get_root_hash table = get_hash table []

  -- One entry of `get_children_hashes`: the query finds the rows of the child level.
  unfoldable pub child_hash : Table → Codes → ℕ → Codes
  child_hash table prefix_path nibble = elim (get table (prefix_path ++ nibble ∷ [])) [
    | none ↦ empty_subtree_hash
    | some row ↦ if eqb row.level (length prefix_path + 1) then row.hash else empty_subtree_hash
  ]

  unfoldable pub get_children_hashes : Table → Codes → List Codes
  get_children_hashes table prefix_path = map (child_hash table prefix_path) nibbles

  -- The loop from the level under the leaf up to the root; the argument is the number of levels left.
  unfoldable pub climb : Table → Codes → ℕ → Table
  climb table object_id zero = table
  climb table object_id (suc level) =
      let prefix = take level object_id in
      climb (upsert table prefix level (node_hash prefix (get_children_hashes table prefix)))
        object_id level

  -- `none` is the `ValueError` of `_validate_id`.
  unfoldable pub update_merkle_path : Table → Codes → Option Table
  update_merkle_path table object_id =
      if validate_id object_id
      then (let leaf = lower object_id in
          some (climb (upsert table leaf id_hex_length leaf) leaf id_hex_length))
      else none

  -- The children as `PostgresMerkleTree.update_merkle_path` reads them, one query for each.
  unfoldable pub postgres_children : Table → Codes → List Codes
  postgres_children table prefix = map (λ nibble. get_hash table (prefix ++ nibble ∷ [])) nibbles

  unfoldable pub postgres_climb : Table → Codes → ℕ → Table
  postgres_climb table object_id zero = table
  postgres_climb table object_id (suc level) =
      let prefix = take level object_id in
      postgres_climb (upsert table prefix level (node_hash prefix (postgres_children table prefix)))
        object_id level

  unfoldable pub postgres_update_merkle_path : Table → Codes → Option Table
  postgres_update_merkle_path table object_id =
      if validate_id object_id
      then (let leaf = lower object_id in
          some (postgres_climb (upsert table leaf id_hex_length leaf) leaf id_hex_length))
      else none

  -- The inserts of a history of objects, one after the other.
  unfoldable pub update_all : Table → List Codes → Option Table
  update_all table [] = some table
  update_all table (object_id ∷ ids) = elim (update_merkle_path table object_id) [
    | none ↦ none
    | some table' ↦ update_all table' ids
  ]
