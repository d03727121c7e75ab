-- ===== src/Crdt/MerkleTree/Tests.antt =====
-- Inserts of concrete ids, with the identity in the place of the digest.
use cks_runtime.Prelude.{ℕ, zero, suc, ◌≤◌, [], ◌∷◌, ◌≡◌, refl, some, length, map, arith, codes_eq}
use cks_runtime.Dict.{get}
use cks_runtime.Crdt.MerkleTree.{
  Codes, Table, lower, to_lower, validate_id, id_hex_length, get_hash, update_all,
  update_merkle_path, postgres_update_merkle_path,
}
use cks_runtime.Crdt.MerkleTree.Canonical.{SameIds}
use cks_runtime.Crdt.MerkleTree.Climb.{Levelled}
use cks_runtime.Crdt.MerkleTree.Convergence.{
  IsObjectId, update_all-converges, update-postgres_update,
}

abbrev repeat : ℕ → ℕ → Codes
repeat zero c = []
repeat (suc n) c = c ∷ repeat n c

unfoldable all_a : Codes
all_a = repeat 64 b'a'

unfoldable capital_a : Codes
capital_a = repeat 64 b'A'

unfoldable all_7 : Codes
all_7 = repeat 64 b'7'

all_a-IsObjectId : IsObjectId all_a
unfolding all_a validate_id
all_a-IsObjectId = refl

capital_a-IsObjectId : IsObjectId capital_a
unfolding capital_a validate_id
capital_a-IsObjectId = refl

all_7-IsObjectId : IsObjectId all_7
unfolding all_7 validate_id
all_7-IsObjectId = refl

lower-capital_a : lower capital_a ≡ lower all_a
unfolding capital_a all_a to_lower
lower-capital_a = refl

-- The digest of the runs.
abbrev digest : Codes → Codes
digest text = text

same_ids : SameIds (map lower (capital_a ∷ all_7 ∷ [])) (map lower (all_7 ∷ all_a ∷ all_7 ∷ []))
same_ids i = rw lower-capital_a (ground arith)

update_all-converges_example :
    (t t' : Table) × (update_all digest [] (capital_a ∷ all_7 ∷ []) ≡ some t)
    × (update_all digest [] (all_7 ∷ all_a ∷ all_7 ∷ []) ≡ some t')
    × ((p : Codes) → length p ≤ id_hex_length → get_hash digest t p ≡ get_hash digest t' p)
update_all-converges_example =
    update_all-converges digest (capital_a ∷ all_7 ∷ []) (all_7 ∷ all_a ∷ all_7 ∷ [])
      (capital_a-IsObjectId, (all_7-IsObjectId, tt))
      (all_7-IsObjectId, (all_a-IsObjectId, (all_7-IsObjectId, tt))) same_ids

empty-Levelled : Levelled []
unfolding get
empty-Levelled p row h = absurd (ground arith)

update-postgres_update_example :
    update_merkle_path digest [] all_7 ≡ postgres_update_merkle_path digest [] all_7
update-postgres_update_example = update-postgres_update digest [] all_7 empty-Levelled
