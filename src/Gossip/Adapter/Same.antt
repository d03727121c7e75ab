-- ===== src/Gossip/Adapter/Same.antt =====
-- The comparisons behind what is pending for a session (src/cks_runtime/gossip/adapter.py).
use cks_runtime.Prelude.{
  ℕ, String, List, [], ◌∷◌, ◌++◌, true, none, some, ◌≡◌, refl, arith, contains, contains-append,
  nat_eq, string_eq, ==_refl,
}
use cks_runtime.Dict.{Dict, get, IsDict}
use cks_runtime.Versioning.VersionVector.{VersionVector}
use cks_runtime.Gossip.Adapter.{within, is_pending}

-- An entry before others that do not have its key changes nothing for these.
within-cons :
    (items clocks : Dict String ℕ) (k : String) (n : ℕ)
    → get items k ≡ none
    → within items clocks ≡ true
    → within items ((k, n) ∷ clocks) ≡ true
unfolding get
within-cons [] clocks k n h w = refl
within-cons ((j, m) ∷ items) clocks k n h w =
    ground (
      arith,
      w,
      h,
      string_eq.agrees_iff j k,
      string_eq.agrees_iff k j,
      within-cons items clocks k n,
    )

within_refl : (clocks : Dict String ℕ) → IsDict clocks → within clocks clocks ≡ true
unfolding get
within_refl [] d = refl
within_refl ((k, n) ∷ clocks) d =
    ground (arith, within-cons clocks clocks k n d.0 (within_refl clocks d.1), ==_refl k, ==_refl n)

pub contains-last : (xs : List ℕ) (x : ℕ) → contains (xs ++ x ∷ []) x ≡ true
contains-last xs x = ground (arith, contains-append xs (x ∷ []) x, ==_refl x)

pub is_pending_refl : (v : VersionVector) → IsDict v.clocks → is_pending (some v) v ≡ true
is_pending_refl v d = ground (arith, within_refl v.clocks d)
