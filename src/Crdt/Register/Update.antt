-- ===== src/Crdt/Register/Update.antt =====
-- What `update_pointer` (src/cks_runtime/crdt/crdt_store.py) makes of the bucket of its key.
use cks_runtime.Prelude.{
  String, List, [], ◌∷◌, ◌≡◌, sym, ap, ◌∙◌, Bool, true, false, Option, none, some, ◌==◌, codes_eq,
  ◌⊎◌, inl, inr, if◌then◌else◌, contains, Bool-cases, ==_refl, false≢true,
}
use cks_runtime.Dict.{get, put, IsDict, remove}
use cks_runtime.Dict.Laws.{get-put, put-IsDict, remove-IsDict}
use cks_runtime.Crdt.MerkleTree.{Codes}
use cks_runtime.Crdt.VersionVector.{VersionVector}
use cks_runtime.Crdt.Register.{
  Pointer, Bucket, stale, superseded, stays, verdict, scan, delete_all, update_bucket,
}
use cks_runtime.Crdt.Register.Scan.{
  Judged, Marks, Found, returns, marks, scan-Found, get-delete_all, none-some,
}

module _ (vv : VersionVector) (object_id : Codes) (origin : String) where
  abbrev pub new : Pointer
  new = record { clock = vv; origin_node = origin }

  -- The bucket after an accepted write: the new pointer, and the old ones that stay.
  pub record Accepts (bucket after : Bucket) : Type 0 where
    pub written : get after object_id ≡ some new
    pub old :
        (i : Codes) (p : Pointer)
        → get bucket i ≡ some p
        → (object_id == i) ≡ false
        → ((verdict vv object_id i p ≡ superseded) × (get after i ≡ none))
          ⊎ ((verdict vv object_id i p ≡ stays) × (get after i ≡ some p))
    pub kept :
        (i : Codes) (p : Pointer)
        → get after i ≡ some p
        → (object_id == i) ≡ false
        → (get bucket i ≡ some p) × (verdict vv object_id i p ≡ stays)

  pub data Updated (bucket : Bucket) : Bucket × Bool → Type 0 where
    rejected : Judged vv object_id stale bucket → Updated bucket (bucket, false)
    accepted : (after : Bucket) → Accepts bucket after → Updated bucket (after, true)

  module _ (bucket : Bucket) (to_delete : List Codes) where
    abbrev result : Bucket
    result = put (delete_all to_delete bucket) object_id new

    get-result :
        (i : Codes)
        → (object_id == i) ≡ false
        → get result i ≡ (if contains to_delete i then none else get bucket i)
    get-result i other =
        get-put (delete_all to_delete bucket) object_id i new
        ∙ ap (λ b. if b then some new else get (delete_all to_delete bucket) i) other
        ∙ get-delete_all to_delete bucket i

    result-Accepts : Marks vv object_id bucket to_delete → Accepts bucket result
    result-Accepts m = record {
      written =
          get-put (delete_all to_delete bucket) object_id object_id new
          ∙ ap (λ b. if b then some new else get (delete_all to_delete bucket) object_id)
              (==_refl object_id);
      old = λ i p h other. elim (m i p h) [
        | inl (marked, v) ↦
            inl (v, get-result i other ∙ ap (λ b. if b then none else get bucket i) marked)
        | inr (unmarked, v) ↦
            inr (v, get-result i other ∙ ap (λ b. if b then none else get bucket i) unmarked ∙ h)
      ];
      kept = λ i p h other. elim (Bool-cases (contains to_delete i)) [
        | inl marked ↦ absurd (
            none-some p
              (sym (get-result i other ∙ ap (λ b. if b then none else get bucket i) marked) ∙ h))
        | inr unmarked ↦
            (let there : get bucket i ≡ some p =
                sym (get-result i other ∙ ap (λ b. if b then none else get bucket i) unmarked)
                ∙ h in
              elim (m i p there) [
                | inl (marked, v) ↦ absurd (false≢true (sym unmarked ∙ marked))
                | inr (_, v) ↦ (there, v)
              ])
      ];
    }

  update_step :
      (bucket : Bucket) (found : Option (List Codes))
      → Found vv object_id bucket found
      → Updated bucket (elim found [
        | none ↦ (bucket, false)
        | some to_delete ↦ (
          put (delete_all to_delete bucket) object_id (record { clock = vv; origin_node = origin }),
          true,
        )
      ])
  update_step bucket none (returns judged) = rejected judged
  update_step bucket (some to_delete) (marks _ m within) =
      accepted (result bucket to_delete) (result-Accepts bucket to_delete m)

  pub update_bucket-Updated :
      (bucket : Bucket) → IsDict bucket → Updated bucket (update_bucket bucket object_id vv origin)
  unfolding update_bucket
  update_bucket-Updated bucket d =
      update_step bucket (scan vv object_id bucket) (scan-Found vv object_id bucket d)

delete_all-IsDict :
    (to_delete : List Codes) (bucket : Bucket)
    → IsDict bucket
    → IsDict (delete_all to_delete bucket)
unfolding delete_all
delete_all-IsDict [] bucket d = d
delete_all-IsDict (i ∷ to_delete) bucket d =
    delete_all-IsDict to_delete (remove bucket i) (remove-IsDict bucket i d)

pub update_bucket-IsDict :
    (bucket : Bucket) (object_id : Codes) (vv : VersionVector) (origin : String)
    → IsDict bucket
    → IsDict (update_bucket bucket object_id vv origin).0
unfolding update_bucket
update_bucket-IsDict bucket object_id vv origin d =
    elim (scan vv object_id bucket)
      as (λ found.
        IsDict
          (elim found as (λ _. Bucket × Bool) [
            | none ↦ (bucket, false)
            | some to_delete ↦ (
              put (delete_all to_delete bucket) object_id
                  (record { clock = vv; origin_node = origin }),
              true,
            )
          ]).0) [
            | none ↦ d
            | some to_delete ↦
                put-IsDict (delete_all to_delete bucket) object_id
                  (record { clock = vv; origin_node = origin })
                  (delete_all-IsDict to_delete bucket d)
          ]
