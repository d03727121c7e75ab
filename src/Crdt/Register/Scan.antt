-- ===== src/Crdt/Register/Scan.antt =====
-- What the loop of `update_pointer` (src/cks_runtime/crdt/crdt_store.py) finds in a bucket.
use cks_runtime.Prelude.{
  List, [], ◌∷◌, ◌≡◌, ◌≢◌, codes_beq_iff, refl, sym, ap, ◌∙◌, true, false, Option, none, some, ◌==◌,
  codes_eq, ◌⊎◌, inl, inr, if◌then◌else◌, contains, arith, Bool-cases, ◌||◌, ==_refl,
}
use mathlib.Core.Option.{some-injective}
use cks_runtime.Dict.{get, IsDict, remove}
use cks_runtime.Dict.Laws.{get-remove}
use cks_runtime.Crdt.MerkleTree.{Codes}
use cks_runtime.Crdt.VersionVector.{VersionVector}
use cks_runtime.Crdt.Register.{
  Pointer, Bucket, Verdict, stale, superseded, stays, verdict, scan, delete_all,
}

pub none-some {ℓ} : {A : Type ℓ} (a : A) → none ≢ some a
none-some a h = ground (arith, h)

module _ (vv : VersionVector) (object_id : Codes) where
  -- Some entry of the bucket has a verdict.
  abbrev pub Judged : Verdict → Bucket → Type 0
  Judged v bucket =
      (i : Codes) × (p : Pointer) × (get bucket i ≡ some p) × (verdict vv object_id i p ≡ v)

  abbrev pub Marks : Bucket → List Codes → Type 0
  Marks bucket to_delete =
      (i : Codes) (p : Pointer)
      → get bucket i ≡ some p
      → ((contains to_delete i ≡ true) × (verdict vv object_id i p ≡ superseded))
        ⊎ ((contains to_delete i ≡ false) × (verdict vv object_id i p ≡ stays))

  abbrev pub Within : Bucket → List Codes → Type 0
  Within bucket to_delete =
      (i : Codes) → contains to_delete i ≡ true → (p : Pointer) × (get bucket i ≡ some p)

  -- The loop returns at a stale verdict, or marks exactly the superseded entries.
  pub data Found (bucket : Bucket) : Option (List Codes) → Type 0 where
    returns : Judged stale bucket → Found bucket none
    marks :
        (to_delete : List Codes)
        → Marks bucket to_delete
        → Within bucket to_delete
        → Found bucket (some to_delete)

  module _ (j : Codes) (q : Pointer) (bucket : Bucket) (d : IsDict ((j, q) ∷ bucket)) where
    -- What the rest of the bucket holds, the whole holds, under another id than the first.
    behind :
        (i : Codes) (p : Pointer)
        → get bucket i ≡ some p
        → (get ((j, q) ∷ bucket) i ≡ some p) × ((j == i) ≡ false)
    unfolding get
    behind i p h = elim (Bool-cases (j == i)) [
      | inl here ↦ absurd (none-some p (sym d.0 ∙ ap (get bucket) ((codes_beq_iff j i).0 here) ∙ h))
      | inr elsewhere ↦ (rw elsewhere h, elsewhere)
    ]

    first : (i : Codes) (p : Pointer) → get ((j, q) ∷ bucket) i ≡ some p → (j == i) ≡ true → p ≡ q
    unfolding get
    first i p h here =
        some-injective p q (sym h ∙ ap (λ b. if b then some q else get bucket i) here)

    later :
        (i : Codes) (p : Pointer)
        → get ((j, q) ∷ bucket) i ≡ some p
        → (j == i) ≡ false
        → get bucket i ≡ some p
    unfolding get
    later i p h elsewhere = sym (ap (λ b. if b then some q else get bucket i) elsewhere) ∙ h

    same_verdict :
        (v : Verdict)
        → verdict vv object_id j q ≡ v
        → (i : Codes) (p : Pointer) → get ((j, q) ∷ bucket) i ≡ some p
        → (j == i) ≡ true
        → verdict vv object_id i p ≡ v
    same_verdict v e i p h here = rw (sym ((codes_beq_iff j i).0 here), first i p h here) e

    unmarked : (to_delete : List Codes) → Within bucket to_delete → contains to_delete j ≡ false
    unmarked to_delete within = elim (Bool-cases (contains to_delete j)) [
      | inl marked ↦ (let (p, h) = within j marked in absurd (none-some p (sym d.0 ∙ h)))
      | inr e ↦ e
    ]

    push : Option (List Codes) → Option (List Codes)
    push none = none
    push (some to_delete) = some (j ∷ to_delete)

    scan_step :
        (v : Verdict) (rest : Option (List Codes))
        → verdict vv object_id j q ≡ v
        → Found bucket rest
        → Found ((j, q) ∷ bucket) (elim v [
          | stale ↦ none
          | stays ↦ rest
          | superseded ↦ (elim rest [ none ↦ none | some to_delete ↦ some (j ∷ to_delete) ])
        ])
    unfolding get
    scan_step stale rest e f = returns (j, q, rw (==_refl j), e)
    scan_step stays none e (returns (i, p, h, w)) = returns (i, p, (behind i p h).0, w)
    scan_step stays (some to_delete) e (marks _ m within) =
        marks to_delete
          (λ i p h. elim (Bool-cases (j == i)) [
            | inl here ↦ inr (
              ap (contains to_delete) (sym ((codes_beq_iff j i).0 here))
                  ∙ unmarked to_delete within,
              same_verdict stays e i p h here,
            )
            | inr elsewhere ↦ m i p (later i p h elsewhere)
          ])
          (λ i marked. let (p, h) = within i marked in (p, (behind i p h).0))
    scan_step superseded none e (returns (i, p, h, w)) = returns (i, p, (behind i p h).0, w)
    scan_step superseded (some to_delete) e (marks _ m within) =
        marks (j ∷ to_delete)
          (λ i p h. elim (Bool-cases (j == i)) [
            | inl here ↦ inl (rw here, same_verdict superseded e i p h here)
            | inr elsewhere ↦ rw elsewhere (m i p (later i p h elsewhere))
          ])
          (λ i marked. elim (Bool-cases (j == i)) [
            | inl here ↦ (q, rw here)
            | inr elsewhere ↦
                (let (p, h) =
                    within i (sym (ap (λ b. b || contains to_delete i) elsewhere) ∙ marked) in
                  (p, (behind i p h).0))
          ])

  pub scan-Found : (bucket : Bucket) → IsDict bucket → Found bucket (scan vv object_id bucket)
  unfolding scan get
  scan-Found [] d = marks [] (λ i p h. absurd (none-some p h)) (λ i h. absurd (ground (arith, h)))
  scan-Found ((j, q) ∷ bucket) d =
      scan_step j q bucket d (verdict vv object_id j q) (scan vv object_id bucket) refl
        (scan-Found bucket d.1)

pub get-delete_all :
    (to_delete : List Codes) (bucket : Bucket) (i : Codes)
    → get (delete_all to_delete bucket) i ≡ (if contains to_delete i then none else get bucket i)
unfolding delete_all
get-delete_all [] bucket i = refl
get-delete_all (j ∷ to_delete) bucket i =
    ground (arith, get-delete_all to_delete (remove bucket j) i, get-remove bucket j i)
