-- ===== src/Crdt/Causality/Order.antt =====
-- `causality_check` (src/cks_runtime/crdt/causality.py) and the order of the clocks.
use cks_runtime.Prelude.{
  ℕ, ◌≤◌, ◌<◌, String, List, [], ◌∷◌, ◌≡◌, refl, Bool, true, false, arith, ltb, string_eq, union,
  inl, inr, ◌⊎◌, All, All-contains, union-absent, Bool-cases, contains, if◌then◌else◌, ltb→lt, ◌↔◌,
  false≢true,
}
use mathlib.Core.Path.{subst}
use cks_runtime.Dict.{keys, IsDict}
use cks_runtime.Dict.Laws.{get_or_absent}
use cks_runtime.Crdt.VersionVector.{VersionVector, clock_of, merge}
use cks_runtime.Crdt.VersionVector.Join.{merge-clock}
use cks_runtime.Crdt.Causality.{
  CausalityResult, dominates, dominated, concurrent, equal, scan, classify, causality_check,
}

-- `b` has seen all that `a` has seen.
abbrev pub Below : VersionVector → VersionVector → Type 0
Below a b = (k : String) → clock_of a k ≤ clock_of b k

-- Some node is further on in `a` than in `b`.
abbrev pub Ahead : VersionVector → VersionVector → Type 0
Ahead a b = (k : String) × (clock_of b k < clock_of a k)

abbrev pub Describes : CausalityResult → VersionVector → VersionVector → Type 0
Describes dominates a b = Below b a × Ahead a b
Describes dominated a b = Below a b × Ahead b a
Describes concurrent a b = Ahead a b × Ahead b a
Describes equal a b = Below a b × Below b a

module _ (a b : VersionVector) where
  -- What the flags at the end of the loop say of the node ids that it went through.
  abbrev Flags : List String → Bool → Bool → Bool × Bool → Type 0
  Flags ids p q r =
      (r.0 ≡ true → (p ≡ true) ⊎ Ahead a b)
      × (r.1 ≡ true → (q ≡ true) ⊎ Ahead b a)
      × (r.0 ≡ false → (p ≡ false) × All (λ k. clock_of a k ≤ clock_of b k) ids)
      × (r.1 ≡ false → (q ≡ false) × All (λ k. clock_of b k ≤ clock_of a k) ids)

  -- One round of the loop on the flag of `a`, and on the flag of `b`.
  a_raised :
      (k : String) (p : Bool)
      → (if ltb (clock_of b k) (clock_of a k) then true else p) ≡ true
      → (p ≡ true) ⊎ Ahead a b
  a_raised k p h = elim (Bool-cases (ltb (clock_of b k) (clock_of a k))) [
    | inl e ↦ inr (k, ltb→lt _ _ e)
    | inr e ↦ inl (ground arith)
  ]

  b_raised :
      (k : String) (q : Bool)
      → (if ltb (clock_of b k) (clock_of a k)
          then q
          else if ltb (clock_of a k) (clock_of b k)
          then true
          else q)
        ≡ true
      → (q ≡ true) ⊎ Ahead b a
  b_raised k q h = elim (Bool-cases (ltb (clock_of a k) (clock_of b k))) [
    | inl e ↦ inr (k, ltb→lt _ _ e)
    | inr e ↦ inl (ground arith)
  ]

  a_low :
      (k : String) (p : Bool)
      → (if ltb (clock_of b k) (clock_of a k) then true else p) ≡ false
      → (p ≡ false) × (clock_of a k ≤ clock_of b k)
  a_low k p h = ground arith

  b_low :
      (k : String) (q : Bool)
      → (if ltb (clock_of b k) (clock_of a k)
          then q
          else if ltb (clock_of a k) (clock_of b k)
          then true
          else q)
        ≡ false
      → (q ≡ false) × (clock_of b k ≤ clock_of a k)
  b_low k q h = ground arith

  scan-Flags : (ids : List String) (p q : Bool) → Flags ids p q (scan a b ids p q)
  unfolding scan
  scan-Flags [] p q = (inl, inl, λ h. (h, tt), λ h. (h, tt))
  scan-Flags (k ∷ ids) p q =
      let ih = scan-Flags ids (if ltb (clock_of b k) (clock_of a k) then true else p) (
        if ltb (clock_of b k) (clock_of a k)
        then q
        else if ltb (clock_of a k) (clock_of b k)
        then true
        else q) in
      (
        λ h. elim (ih.0 h) [ inl e ↦ a_raised k p e | inr w ↦ inr w ],
        λ h. elim (ih.1 h) [ inl e ↦ b_raised k q e | inr w ↦ inr w ],
        λ h. let (e, rest) = ih.2 h in let (e', here) = a_low k p e in (e', (here, rest)),
        λ h. let (e, rest) = ih.3 h in let (e', here) = b_low k q e in (e', (here, rest)),
      )

  -- What holds of the clocks of all listed nodes holds everywhere: the other clocks are 0.
  everywhere :
      (P : ℕ → ℕ → Type 0)
      → P 0 0
      → All (λ k. P (clock_of a k) (clock_of b k)) (union (keys a.clocks) (keys b.clocks))
      → (k : String) → P (clock_of a k) (clock_of b k)
  everywhere P base h k = elim (Bool-cases (contains (union (keys a.clocks) (keys b.clocks)) k)) [
    | inl listed ↦ All-contains (λ j. P (clock_of a j) (clock_of b j)) _ k h listed
    | inr absent ↦
        let (p, q) = union-absent (keys a.clocks) (keys b.clocks) k absent in
        rw (get_or_absent a.clocks k 0 p, get_or_absent b.clocks k 0 q) base
  ]

  certainly : {P : Type 0} → (false ≡ true) ⊎ P → P
  certainly (inl e) = absurd (false≢true e)
  certainly (inr p) = p

  classify-Describes :
      (r : Bool × Bool)
      → Flags (union (keys a.clocks) (keys b.clocks)) false false r
      → Describes (classify r) a b
  unfolding classify
  classify-Describes (true, true) f = (certainly (f.0 refl), certainly (f.1 refl))
  classify-Describes (true, false) f =
      (everywhere (λ x y. y ≤ x) (omega arith) (f.3 refl).1, certainly (f.0 refl))
  classify-Describes (false, true) f =
      (everywhere (λ x y. x ≤ y) (omega arith) (f.2 refl).1, certainly (f.1 refl))
  classify-Describes (false, false) f = (
    everywhere (λ x y. x ≤ y) (omega arith) (f.2 refl).1,
    everywhere (λ x y. y ≤ x) (omega arith) (f.3 refl).1,
  )

  sound : Describes (causality_check a b) a b
  unfolding causality_check
  sound = classify-Describes _ (scan-Flags (union (keys a.clocks) (keys b.clocks)) false false)

  Below-not-Ahead : Below a b → Ahead a b → ⊥
  Below-not-Ahead h (k, lt) = omega (arith, h k)

-- At most one of the four descriptions holds.
Describes-unique :
    (a b : VersionVector) (r s : CausalityResult) → Describes r a b → Describes s a b → r ≡ s
Describes-unique a b dominates dominates h k = refl
Describes-unique a b dominates dominated h k = absurd (Below-not-Ahead a b k.0 h.1)
Describes-unique a b dominates concurrent h k = absurd (Below-not-Ahead b a h.0 k.1)
Describes-unique a b dominates equal h k = absurd (Below-not-Ahead a b k.0 h.1)
Describes-unique a b dominated dominates h k = absurd (Below-not-Ahead a b h.0 k.1)
Describes-unique a b dominated dominated h k = refl
Describes-unique a b dominated concurrent h k = absurd (Below-not-Ahead a b h.0 k.0)
Describes-unique a b dominated equal h k = absurd (Below-not-Ahead b a k.1 h.1)
Describes-unique a b concurrent dominates h k = absurd (Below-not-Ahead b a k.0 h.1)
Describes-unique a b concurrent dominated h k = absurd (Below-not-Ahead a b k.0 h.0)
Describes-unique a b concurrent concurrent h k = refl
Describes-unique a b concurrent equal h k = absurd (Below-not-Ahead a b k.0 h.0)
Describes-unique a b equal dominates h k = absurd (Below-not-Ahead a b h.0 k.1)
Describes-unique a b equal dominated h k = absurd (Below-not-Ahead b a h.1 k.1)
Describes-unique a b equal concurrent h k = absurd (Below-not-Ahead a b h.0 k.0)
Describes-unique a b equal equal h k = refl

-- `causality_check` returns a result exactly when the clocks of all nodes are related as that
-- result says.
pub causality_check_iff :
    (a b : VersionVector) (r : CausalityResult) → (causality_check a b ≡ r) ↔ Describes r a b
causality_check_iff a b r = (
  λ e. subst (λ s. Describes s a b) e (sound a b),
  λ h. Describes-unique a b (causality_check a b) r (sound a b) h,
)

-- The same comparison from the other side.
abbrev pub mirror : CausalityResult → CausalityResult
mirror dominates = dominated
mirror dominated = dominates
mirror concurrent = concurrent
mirror equal = equal

Describes-mirror :
    (a b : VersionVector) (r : CausalityResult) → Describes r a b → Describes (mirror r) b a
Describes-mirror a b dominates h = h
Describes-mirror a b dominated h = h
Describes-mirror a b concurrent h = (h.1, h.0)
Describes-mirror a b equal h = (h.1, h.0)

-- Comparing two vectors the other way round gives the mirrored result.
pub causality_check-mirror :
    (a b : VersionVector) → causality_check b a ≡ mirror (causality_check a b)
causality_check-mirror a b =
    (causality_check_iff b a (mirror (causality_check a b))).1
      (Describes-mirror a b (causality_check a b) (sound a b))

-- A merge is never causally behind, nor concurrent with, the vector that it extends.
pub causality_check-merge :
    (a b : VersionVector)
    → IsDict b.clocks
    → (causality_check (merge a b) a ≡ dominates) ⊎ (causality_check (merge a b) a ≡ equal)
causality_check-merge a b h = settle (causality_check (merge a b) a) (sound (merge a b) a)
  where
    above : Below a (merge a b)
    above k = omega (arith, merge-clock a b k h)

    settle : (r : CausalityResult) → Describes r (merge a b) a → (r ≡ dominates) ⊎ (r ≡ equal)
    settle dominates d = inl refl
    settle dominated d = absurd (Below-not-Ahead a (merge a b) above d.1)
    settle concurrent d = absurd (Below-not-Ahead a (merge a b) above d.1)
    settle equal d = inr refl
