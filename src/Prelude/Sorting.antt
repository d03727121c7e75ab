-- ===== src/Prelude/Sorting.antt =====
-- `sorted` with a key, and ORDER BY ... ASC: what stands level keeps its order.
use mathlib.Core.Path.{◌≡◌, refl}
use mathlib.Core.Bool.{Bool, true}
use mathlib.Core.List.{List, [], ◌∷◌, ◌++◌}
use cks_runtime.Prelude.Lists.{All}
use cks_runtime.Prelude.Tests.{Bool-cases, if◌then◌else◌}
use mathlib.Core.Logic.{inl, inr}

module _ {ℓ} {A : Type ℓ} (before : A → A → Bool) where
  abbrev pub insert_by : A → List A → List A
  insert_by x [] = x ∷ []
  insert_by x (y ∷ ys) = if before x y then x ∷ y ∷ ys else y ∷ insert_by x ys

  unfoldable pub sort_by : List A → List A
  sort_by [] = []
  sort_by (x ∷ xs) = insert_by x (sort_by xs)

  insert_by-append :
      (x y : A) (xs : List A)
      → before x y ≡ true
      → insert_by x (xs ++ y ∷ []) ≡ insert_by x xs ++ y ∷ []
  insert_by-append x y [] h = rw h refl
  insert_by-append x y (z ∷ zs) h = elim (Bool-cases (before x z)) [
    | inl first ↦ rw first refl
    | inr later ↦ rw (later, insert_by-append x y zs h) refl
  ]

  -- What is last before the sorting and belongs behind everything stays last.
  pub sort_by-append :
      (xs : List A) (y : A)
      → All (λ x. before x y ≡ true) xs
      → sort_by (xs ++ y ∷ []) ≡ sort_by xs ++ y ∷ []
  unfolding sort_by
  sort_by-append [] y h = refl
  sort_by-append (x ∷ xs) y h = rw (sort_by-append xs y h.1) (insert_by-append x y (sort_by xs) h.0)

  All-insert_by {κ} :
      (P : A → Type κ) (x : A) (xs : List A) → P x → All P xs → All P (insert_by x xs)
  All-insert_by P x [] h k = (h, tt)
  All-insert_by P x (y ∷ ys) h k = elim (Bool-cases (before x y)) [
    | inl first ↦ rw first (h, k)
    | inr later ↦ rw later (k.0, All-insert_by P x ys h k.1)
  ]

  pub All-sort_by {κ} : (P : A → Type κ) (xs : List A) → All P xs → All P (sort_by xs)
  unfolding sort_by
  All-sort_by P [] h = tt
  All-sort_by P (x ∷ xs) h = All-insert_by P x (sort_by xs) h.0 (All-sort_by P xs h.1)
