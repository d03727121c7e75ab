-- ===== src/Dict.antt =====
-- Python's `dict`: an association list in insertion order, generic in the type of the keys.
-- `d[k] = v` keeps the position of a key that is there and appends a new one, so iteration has
-- the order of the program.
pub mod Laws
use cks_runtime.Prelude.{
  List, [], ◌∷◌, ◌≡◌, Bool, true, false, Option, none, some, Eq, ◌==◌, if◌then◌else◌, map,
}

abbrev pub Dict {ℓ κ} : Type ℓ → Type κ → Type (ℓ ⊔ κ)
Dict K V = List (K × V)

module _ {ℓ κ} {K : Type ℓ} {V : Type κ} ⦃e : Eq K⦄ where
  -- d.get(k)
  unfoldable pub get : Dict K V → K → Option V
  get [] k = none
  get ((j, v) ∷ d) k = if j == k then some v else get d k

  -- d.get(k, default)
  unfoldable pub get_or : Dict K V → K → V → V
  get_or [] k default = default
  get_or ((j, v) ∷ d) k default = if j == k then v else get_or d k default

  -- k in d
  unfoldable pub has : Dict K V → K → Bool
  has [] k = false
  has ((j, v) ∷ d) k = if j == k then true else has d k

  -- d[k] = v
  unfoldable pub put : Dict K V → K → V → Dict K V
  put [] k v = (k, v) ∷ []
  put ((j, w) ∷ d) k v = if j == k then (j, v) ∷ d else (j, w) ∷ put d k v

  -- d.pop(k, None), and `del d[k]` of a key that is there
  unfoldable pub remove : Dict K V → K → Dict K V
  remove [] k = []
  remove ((j, w) ∷ d) k = if j == k then remove d k else (j, w) ∷ remove d k

  -- d.setdefault(k, v)
  abbrev pub set_default : Dict K V → K → V → Dict K V
  set_default d k v = if has d k then d else put d k v

  -- Each key stands in the dictionary once.
  abbrev pub IsDict : Dict K V → Type (ℓ ⊔ κ)
  IsDict [] = Unit
  IsDict ((j, v) ∷ d) = (get d j ≡ none) × IsDict d

abbrev pub keys {ℓ κ} : {K : Type ℓ} {V : Type κ} → Dict K V → List K
keys [] = []
keys ((k, v) ∷ d) = k ∷ keys d

abbrev pub values {ℓ κ} : {K : Type ℓ} {V : Type κ} → Dict K V → List V
values [] = []
values ((k, v) ∷ d) = v ∷ values d
