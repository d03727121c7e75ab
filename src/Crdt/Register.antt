-- ===== src/Crdt/Register.antt =====
-- src/cks_runtime/crdt/crdt_store.py, `InMemoryCRDTStore`: the multi-value register behind the
-- pointers. Object ids are hexadecimal texts, as in the Merkle tree; time stamps are left out.
pub mod Scan
pub mod Update
pub mod Verdicts
pub mod Maximal
pub mod Converge
mod Tests
use cks_runtime.Prelude.{
  String, List, [], ◌∷◌, Bool, true, false, Option, none, some, ◌==◌, string_eq, codes_eq,
  if◌then◌else◌, not, ◌&&◌,
}
use cks_runtime.Dict.{Dict, get, get_or, put, remove, has, set_default}
use cks_runtime.Crdt.MerkleTree.{Codes}
use cks_runtime.Crdt.VersionVector.{VersionVector}
use cks_runtime.Crdt.Causality.{
  CausalityResult, dominates, dominated, concurrent, equal, causality_check,
}

pub record Pointer : Type 0 where
  pub clock : VersionVector
  pub origin_node : String

abbrev pub Bucket : Type 0
Bucket = Dict Codes Pointer

-- What one round of the loop does with an entry: return, mark it for deletion, or go on.
pub data Verdict : Type 0 where
  stale superseded stays : Verdict

-- The two tests of the loop for an entry of another object.
abbrev pub judge : CausalityResult → Verdict
judge dominated = stale
judge concurrent = stays
judge dominates = superseded
judge equal = superseded

unfoldable pub verdict : VersionVector → Codes → Codes → Pointer → Verdict
verdict vv object_id existing_id existing =
    if existing_id == object_id then stays else judge (causality_check vv existing.clock)

-- The loop over the bucket: `none` where it returns, or else `to_delete`.
unfoldable pub scan : VersionVector → Codes → Bucket → Option (List Codes)
scan vv object_id [] = some []
scan vv object_id ((existing_id, existing) ∷ bucket) =
    elim (verdict vv object_id existing_id existing) [
      | stale ↦ none
      | stays ↦ scan vv object_id bucket
      | superseded ↦ (elim (scan vv object_id bucket) [
        | none ↦ none
        | some to_delete ↦ some (existing_id ∷ to_delete)
      ])
    ]

unfoldable pub delete_all : List Codes → Bucket → Bucket
delete_all [] bucket = bucket
delete_all (stale_id ∷ to_delete) bucket = delete_all to_delete (remove bucket stale_id)

-- The body of `update_pointer` on the bucket of its key.
unfoldable pub update_bucket : Bucket → Codes → VersionVector → String → Bucket × Bool
update_bucket bucket object_id vv origin_node = elim (scan vv object_id bucket) [
  | none ↦ (bucket, false)
  | some to_delete ↦ (
    put (delete_all to_delete bucket) object_id (record { clock = vv; origin_node = origin_node }),
    true,
  )
]

abbrev pub Pointers : Type 0
Pointers = Dict String Bucket

unfoldable pub update_pointer : Pointers → String → Codes → VersionVector → String → Pointers × Bool
update_pointer pointers pointer_key object_id vv origin_node =
    let pointers' = set_default pointers pointer_key [] in
    let (bucket, added) =
      update_bucket (get_or pointers' pointer_key []) object_id vv origin_node in
    (put pointers' pointer_key bucket, added)

unfoldable pub get_pointers : Pointers → String → Bucket
get_pointers pointers pointer_key = get_or pointers pointer_key []

-- The outcome of `resolve_pointer`, from what the bucket holds under the winner.
abbrev pub resolved : Pointers → String → Codes → Option Pointer → Pointers × Bool
resolved pointers pointer_key winner_object_id none = (pointers, false)
resolved pointers pointer_key winner_object_id (some winner) =
    (put pointers pointer_key ((winner_object_id, winner) ∷ []), true)

unfoldable pub resolve_pointer : Pointers → String → Codes → Pointers × Bool
resolve_pointer pointers pointer_key winner_object_id =
    resolved pointers pointer_key winner_object_id
      (get (get_or pointers pointer_key []) winner_object_id)
