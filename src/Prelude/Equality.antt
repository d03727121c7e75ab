-- ===== src/Prelude/Equality.antt =====
-- Equality tests as an interface: the keys of a dictionary take it as an instance.
use Prim.Native.Nat.{ℕ}
use Prim.Native.String.{String}
use mathlib.Core.Path.{◌≡◌, refl, sym, ap, ◌∙◌}
use mathlib.Core.Logic.{◌↔◌}
use mathlib.Core.Bool.{Bool, true, false, not, ◌&&◌, ◌||◌}
use mathlib.Core.List.{List, [], ◌∷◌, ◌++◌}
use native.Mathlib.Omega.{arith}
use text.Mathlib.Text.{◌==◌ as str_eq}
use text.Mathlib.TextEquality.{eq_iff}
use mathlib.Core.Path.{subst}
use cks_runtime.Prelude.Tests.{eqb, eqb_iff, Bool-cases}
use cks_runtime.Prelude.Lists.{select, All}
use mathlib.Core.Logic.{inl, inr}

-- A type with a test that decides its paths.
pub record Eq {ℓ} (A : Type ℓ) : Type ℓ where
  pub agrees : A → A → Bool
  pub agrees_iff : (x y : A) → (agrees x y ≡ true) ↔ (x ≡ y)

instance abbrev pub string_eq : Eq String
string_eq = record { agrees = str_eq; agrees_iff = eq_iff }

instance abbrev pub nat_eq : Eq ℕ
nat_eq = record { agrees = eqb; agrees_iff = eqb_iff }

infix 50 ◌==◌
abbrev pub ◌==◌ {κ} : {B : Type κ} ⦃keys : Eq B⦄ → B → B → Bool
◌==◌ ⦃keys⦄ x y = keys.agrees x y

-- Texts that the program takes apart are lists of code points.
abbrev pub codes_beq : List ℕ → List ℕ → Bool
codes_beq [] [] = true
codes_beq [] (y ∷ ys) = false
codes_beq (x ∷ xs) [] = false
codes_beq (x ∷ xs) (y ∷ ys) = eqb x y && codes_beq xs ys

pub codes_beq_iff : (xs ys : List ℕ) → (codes_beq xs ys ≡ true) ↔ (xs ≡ ys)
codes_beq_iff [] [] = ground arith
codes_beq_iff [] (y ∷ ys) = ground arith
codes_beq_iff (x ∷ xs) [] = ground arith
codes_beq_iff (x ∷ xs) (y ∷ ys) = ground (arith, eqb_iff x y, codes_beq_iff xs ys)

instance abbrev pub codes_eq : Eq (List ℕ)
codes_eq = record { agrees = codes_beq; agrees_iff = codes_beq_iff }

module _ {ℓ} {A : Type ℓ} ⦃e : Eq A⦄ where
  pub ==_refl : (a : A) → (a == a) ≡ true
  ==_refl a = (e.agrees_iff a a).1 refl

  abbrev pub contains : List A → A → Bool
  contains [] a = false
  contains (x ∷ xs) a = x == a || contains xs a

  -- set(xs) | set(ys)
  abbrev pub union : List A → List A → List A
  union xs ys = xs ++ select (λ y. not (contains xs y)) ys

  pub contains-append :
      (xs ys : List A) (a : A) → contains (xs ++ ys) a ≡ (contains xs a || contains ys a)
  contains-append [] ys a = refl
  contains-append (x ∷ xs) ys a = ground (arith, contains-append xs ys a)

  pub contains-select :
      (p : A → Bool) (xs : List A) (a : A)
      → p a ≡ true
      → contains (select p xs) a ≡ false
      → contains xs a ≡ false
  contains-select p [] a h k = refl
  contains-select p (x ∷ xs) a h k = elim (Bool-cases (x == a)) [
    | inl same ↦ ground (arith, ap p ((e.agrees_iff x a).0 same))
    | inr other ↦ ground (arith, contains-select p xs a h)
  ]

  pub All-contains {κ} :
      (P : A → Type κ) (xs : List A) (a : A) → All P xs → contains xs a ≡ true → P a
  All-contains P [] a h k = absurd (ground arith)
  All-contains P (x ∷ xs) a h k = elim (Bool-cases (x == a)) [
    | inl same ↦ subst P ((e.agrees_iff x a).0 same) h.0
    | inr other ↦ All-contains P xs a h.1 (ground arith)
  ]

  pub union-absent :
      (xs ys : List A) (a : A)
      → contains (union xs ys) a ≡ false
      → (contains xs a ≡ false) × (contains ys a ≡ false)
  union-absent xs ys a h =
      let both : (contains xs a || contains (select (λ y. not (contains xs y)) ys) a) ≡ false =
        sym (contains-append xs (select (λ y. not (contains xs y)) ys) a) ∙ h in
      let left : contains xs a ≡ false = ground arith in
      (left, contains-select (λ y. not (contains xs y)) ys a (rw left) (ground arith))

  pub contains-select_eq :
      (p : A → Bool) (xs : List A) (a : A) → contains (select p xs) a ≡ (p a && contains xs a)
  contains-select_eq p [] a = ground arith
  contains-select_eq p (x ∷ xs) a = elim (Bool-cases (x == a)) [
    | inl same ↦ ground (arith, contains-select_eq p xs a, ap p ((e.agrees_iff x a).0 same))
    | inr other ↦ ground (arith, contains-select_eq p xs a)
  ]
