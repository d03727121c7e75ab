-- ===== src/Dict/Laws.antt =====
-- The laws by which clients reason about dictionaries.
use cks_runtime.Prelude.{
  [], ◌∷◌, ◌++◌, ap, ◌≡◌, ◌||◌, ==_refl, refl, false, none, some, Eq, ◌==◌, arith, if◌then◌else◌,
  contains, Bool-cases, inl, inr,
}
use cks_runtime.Dict.{Dict, get, get_or, has, put, remove, set_default, keys, values, IsDict}

module _ {ℓ κ} {K : Type ℓ} {V : Type κ} ⦃e : Eq K⦄ where
  pub get-put :
      (d : Dict K V) (k j : K) (v : V) → get (put d k v) j ≡ (if k == j then some v else get d j)
  unfolding get put
  get-put [] k j v = refl
  get-put ((i, w) ∷ d) k j v =
      ground (arith, e.agrees_iff i k, e.agrees_iff i j, e.agrees_iff k j, get-put d k j v)

  pub get_or-put :
      (d : Dict K V) (k j : K) (v u : V)
      → get_or (put d k v) j u ≡ (if k == j then v else get_or d j u)
  unfolding get_or put
  get_or-put [] k j v u = refl
  get_or-put ((i, w) ∷ d) k j v u =
      ground (arith, e.agrees_iff i k, e.agrees_iff i j, e.agrees_iff k j, get_or-put d k j v u)

  pub get-remove :
      (d : Dict K V) (k j : K) → get (remove d k) j ≡ (if k == j then none else get d j)
  unfolding get remove
  get-remove [] k j = ground arith
  get-remove ((i, w) ∷ d) k j =
      ground (arith, e.agrees_iff i k, e.agrees_iff i j, e.agrees_iff k j, get-remove d k j)

  -- A default stands for a missing key.
  pub get_or-none : (d : Dict K V) (k : K) (u : V) → get d k ≡ none → get_or d k u ≡ u
  unfolding get get_or
  get_or-none [] k u h = refl
  get_or-none ((i, w) ∷ d) k u h = ground (arith, get_or-none d k u)

  pub get_or-some : (d : Dict K V) (k : K) (u v : V) → get d k ≡ some v → get_or d k u ≡ v
  unfolding get get_or
  get_or-some [] k u v h = ground arith
  get_or-some ((i, w) ∷ d) k u v h = ground (arith, get_or-some d k u v)

  pub has-get : (d : Dict K V) (k : K) → has d k ≡ false → get d k ≡ none
  unfolding get has
  has-get [] k h = refl
  has-get ((i, w) ∷ d) k h = ground (arith, has-get d k)

  pub has-put : (d : Dict K V) (k j : K) (v : V) → has (put d k v) j ≡ (k == j || has d j)
  unfolding has put
  has-put [] k j v = ground arith
  has-put ((i, w) ∷ d) k j v =
      ground (arith, has-put d k j v, (e.agrees_iff i k).0, (e.agrees_iff k j).0, ==_refl i)

  pub put-IsDict : (d : Dict K V) (k : K) (v : V) → IsDict d → IsDict (put d k v)
  unfolding put get
  put-IsDict [] k v h = (refl, tt)
  put-IsDict ((i, w) ∷ d) k v h =
      ground (arith, put-IsDict d k v h.1, get-put d k i v, e.agrees_iff i k, e.agrees_iff k i)

  pub remove-IsDict : (d : Dict K V) (k : K) → IsDict d → IsDict (remove d k)
  unfolding remove get
  remove-IsDict [] k h = tt
  remove-IsDict ((i, w) ∷ d) k h =
      ground (arith, remove-IsDict d k h.1, get-remove d k i, e.agrees_iff i k, e.agrees_iff k i)

module _ {ℓ κ} {K : Type ℓ} {V : Type κ} ⦃e : Eq K⦄ where
  -- A key that the dictionary does not list has the default.
  pub get_or_absent :
      (d : Dict K V) (k : K) (u : V) → contains (keys d) k ≡ false → get_or d k u ≡ u
  unfolding get_or
  get_or_absent [] k u h = refl
  get_or_absent ((i, w) ∷ d) k u h = ground (arith, get_or_absent d k u)

  pub get_absent : (d : Dict K V) (k : K) → contains (keys d) k ≡ false → get d k ≡ none
  unfolding get
  get_absent [] k h = refl
  get_absent ((i, w) ∷ d) k h = ground (arith, get_absent d k)

module _ {ℓ κ} {K : Type ℓ} {V : Type κ} ⦃e : Eq K⦄ where
  -- A default that is written out changes no reading with that default.
  pub get_or-set_default :
      (d : Dict K V) (k j : K) (v : V) → get_or (set_default d k v) j v ≡ get_or d j v
  get_or-set_default d k j v = elim (Bool-cases (has d k)) [
    | inl there ↦ rw there
    | inr absent ↦ ground (
      arith,
      absent,
      get_or-put d k j v v,
      e.agrees_iff k j,
      get_or-none d k v (has-get d k absent),
    )
  ]

  pub set_default-IsDict : (d : Dict K V) (k : K) (v : V) → IsDict d → IsDict (set_default d k v)
  set_default-IsDict d k v h = ground (arith, put-IsDict d k v h)

-- A new key goes to the end.
pub values-put {ℓ κ} :
    {K : Type ℓ} {V : Type κ} ⦃e : Eq K⦄ (d : Dict K V) (k : K) (v : V)
    → has d k ≡ false
    → values (put d k v) ≡ values d ++ v ∷ []
unfolding put has
values-put [] k v h = refl
values-put ((j, w) ∷ d) k v h = elim (Bool-cases (j == k)) [
  | inl same ↦ absurd (ground (arith, rw same at h))
  | inr other ↦ rw other (ap (λ x. w ∷ x) (values-put d k v (rw other at h)))
]

pub ruleset dict_laws = (get-put, get_or-put, get-remove)
