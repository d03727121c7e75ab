-- ===== src/Crdt/Store/Levels.antt =====
-- One level of the tree that `_rebuild_tree` (src/cks_runtime/crdt/crdt_store.py) makes.
use cks_runtime.Prelude.{
  ℕ, zero, suc, ◌≤◌, List, [], ◌∷◌, ◌++◌, ◌≡◌, ◌≢◌, refl, sym, ap, ◌∙◌, Bool, true, false, ◌==◌,
  codes_eq, if◌then◌else◌, contains, take, length, map, arith, Bool-cases, inl, inr, ◌||◌,
  codes_beq_iff, fun_ext, All, length-append,
}
use cks_runtime.Dict.{Dict, get_or, put}
use cks_runtime.Dict.Laws.{get_or-put}
use cks_runtime.Crdt.MerkleTree.{Codes, nibbles, empty_subtree_hash, node_hash}
use cks_runtime.Crdt.MerkleTree.Canonical.{has_prefix, occurs}
use cks_runtime.Crdt.Store.{prefixes, child, fill}

length-take : (n : ℕ) (xs : Codes) → n ≤ length xs → length (take n xs) ≡ n
length-take zero xs h = refl
length-take (suc n) [] h = absurd (omega arith)
length-take (suc n) (x ∷ xs) h = ap suc (length-take n xs (omega arith))

abbrev pub Long : List Codes → Type 0
Long = All (λ i. length i ≡ 64)

abbrev pub OfLength : ℕ → List Codes → Type 0
OfLength level = All (λ i. length i ≡ level)

pub prefixes-OfLength :
    (level : ℕ) (ids : List Codes) → level ≤ 64 → Long ids → OfLength level (prefixes level ids)
prefixes-OfLength level [] h l = tt
prefixes-OfLength level (i ∷ ids) h l =
    elim (Bool-cases (contains (prefixes level ids) (take level i))) [
      | inl there ↦ rw there (prefixes-OfLength level ids h l.1)
      | inr new ↦
          rw new (length-take level i (omega (arith, l.0, h)), prefixes-OfLength level ids h l.1)
    ]

contains_new :
    (rest : List Codes) (t p : Codes)
    → contains (if contains rest t then rest else t ∷ rest) p ≡ (t == p || contains rest p)
contains_new rest t p = elim (Bool-cases (contains rest t)) [
  | inl there ↦ rw there (elim (Bool-cases (t == p)) [
    | inl e ↦
        ap (contains rest) (sym ((codes_beq_iff t p).0 e))
        ∙ there
        ∙ sym (ap (λ b. b || contains rest p) e)
    | inr e ↦ sym (ap (λ b. b || contains rest p) e)
  ])
  | inr new ↦ rw new
]

-- The prefixes of a level are those that occur.
pub contains-prefixes :
    (level : ℕ) (ids : List Codes) (p : Codes)
    → length p ≡ level
    → contains (prefixes level ids) p ≡ occurs p ids
unfolding occurs
contains-prefixes level [] p h = refl
contains-prefixes level (i ∷ ids) p h =
    contains_new (prefixes level ids) (take level i) p
    ∙ ap (λ n. take n i == p || contains (prefixes level ids) p) (sym h)
    ∙ ap (λ b. has_prefix p i || b) (contains-prefixes level ids p h)

different : (p q : Codes) → length p ≢ length q → (p == q) ≡ false
different p q h = elim (Bool-cases (p == q)) [
  | inl e ↦ absurd (h (ap length ((codes_beq_iff p q).0 e)))
  | inr e ↦ e
]

join :
    (b c : Bool) (x y z : Codes)
    → (b ≡ true → z ≡ x)
    → (if c then x else (if b then z else y)) ≡ (if b || c then x else y)
join true true x y z h = refl
join true false x y z h = h refl
join false true x y z h = refl
join false false x y z h = refl

module _ (sha256 : Codes → Codes) where
  abbrev pub hash_at : Dict Codes Codes → Codes → Codes
  hash_at nodes p = get_or nodes p (empty_subtree_hash sha256)

  abbrev pub inner : Dict Codes Codes → Codes → Codes
  inner nodes p = node_hash sha256 p (map (child sha256 nodes p) nibbles)

  hash_at-put_elsewhere :
      (nodes : Dict Codes Codes) (p q h : Codes)
      → length p ≢ length q
      → hash_at (put nodes p h) q ≡ hash_at nodes q
  hash_at-put_elsewhere nodes p q h differ =
      get_or-put nodes p q h (empty_subtree_hash sha256)
      ∙ ap (λ b. if b then h else hash_at nodes q) (different p q differ)

  pub fill-elsewhere :
      (level : ℕ) (ps : List Codes) (nodes : Dict Codes Codes) (q : Codes)
      → OfLength level ps
      → level ≢ length q
      → hash_at (fill sha256 nodes ps) q ≡ hash_at nodes q
  unfolding fill
  fill-elsewhere level [] nodes q l differ = refl
  fill-elsewhere level (p ∷ ps) nodes q l differ =
      fill-elsewhere level ps (put nodes p (inner nodes p)) q l.1 differ
      ∙ hash_at-put_elsewhere nodes p q (inner nodes p) (λ e. differ (sym l.0 ∙ e))

  inner-put :
      (nodes : Dict Codes Codes) (p q h : Codes)
      → length p ≡ length q
      → inner (put nodes p h) q ≡ inner nodes q
  inner-put nodes p q h same =
      ap (λ (f : ℕ → Codes). node_hash sha256 q (map f nibbles))
        (fun_ext (λ n.
          hash_at-put_elsewhere nodes p (q ++ n ∷ []) h
            (λ e. absurd (omega (arith, e, same, length-append q (n ∷ []))))))

  pub fill-level :
      (level : ℕ) (ps : List Codes) (nodes : Dict Codes Codes) (q : Codes)
      → OfLength level ps
      → level ≡ length q
      → hash_at (fill sha256 nodes ps) q
        ≡ (if contains ps q then inner nodes q else hash_at nodes q)
  unfolding fill
  fill-level level [] nodes q l same = refl
  fill-level level (p ∷ ps) nodes q l same =
      let rest = fill-level level ps (put nodes p (inner nodes p)) q l.1 same in
      rest
      ∙ ap (λ x. if contains ps q then x else hash_at (put nodes p (inner nodes p)) q)
          (inner-put nodes p q (inner nodes p) (l.0 ∙ same))
      ∙ ap (λ y. if contains ps q then inner nodes q else y)
          (get_or-put nodes p q (inner nodes p) (empty_subtree_hash sha256))
      ∙ join (p == q) (contains ps q) (inner nodes q) (hash_at nodes q) (inner nodes p)
          (λ e. ap (inner nodes) ((codes_beq_iff p q).0 e))
