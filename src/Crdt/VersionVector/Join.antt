-- ===== src/Crdt/VersionVector/Join.antt =====
-- `merge` (src/cks_runtime/crdt/version_vector.py) and the order by clocks.
use cks_runtime.Prelude.{
  ℕ, max, ◌+◌, String, [], ◌∷◌, ◌≡◌, refl, ap, ◌||◌, some, arith, ltb, ◌==◌, string_eq,
  if◌then◌else◌,
}
use cks_runtime.Dict.{Dict, get_or, put, IsDict}
use cks_runtime.Dict.Laws.{get_or-put, get_or-none, put-IsDict}
use cks_runtime.Crdt.VersionVector.{
  VersionVector, bump, observe, seen, merge_items, merge, encode, clean, to_dict, from_dict,
  clock_of,
}

-- One round of the loop of `merge`.
merge_step :
    (d : Dict String ℕ) (k j : String) (c : ℕ)
    → get_or (if ltb (get_or d k 0) c then put d k c else d) j 0
      ≡ (if k == j then max (get_or d k 0) c else get_or d j 0)
merge_step d k j c = ground (arith, get_or-put d k j c 0, string_eq.agrees_iff k j)

merge_items-clock :
    (d items : Dict String ℕ) (k : String)
    → IsDict items
    → get_or (merge_items d items) k 0 ≡ max (get_or d k 0) (get_or items k 0)
unfolding merge_items get_or
merge_items-clock d [] k h = omega arith
merge_items-clock d ((n, c) ∷ items) k h = ground (
  arith,
  merge_items-clock (if ltb (get_or d n 0) c then put d n c else d) items k h.1,
  merge_step d n k c,
  string_eq.agrees_iff n k,
  get_or-none items n 0 h.0,
)

-- The clock of a node in a merge is the greater one of the two.
pub merge-clock :
    (a b : VersionVector) (k : String)
    → IsDict b.clocks
    → clock_of (merge a b) k ≡ max (clock_of a k) (clock_of b k)
unfolding merge
merge-clock a b k h = merge_items-clock a.clocks b.clocks k h

merge_items-IsDict : (d items : Dict String ℕ) → IsDict d → IsDict (merge_items d items)
unfolding merge_items
merge_items-IsDict d [] h = h
merge_items-IsDict d ((n, c) ∷ items) h =
    merge_items-IsDict (if ltb (get_or d n 0) c then put d n c else d) items
      (ground (arith, put-IsDict d n c h))

pub merge-IsDict : (a b : VersionVector) → IsDict a.clocks → IsDict (merge a b).clocks
unfolding merge
merge-IsDict a b h = merge_items-IsDict a.clocks b.clocks h

-- Two vectors that know the same.
abbrev pub SameClocks : VersionVector → VersionVector → Type 0
SameClocks a b = (k : String) → clock_of a k ≡ clock_of b k

-- On vectors whose keys are distinct, `merge` is commutative, associative and idempotent in what
-- the vectors know.
pub merge-semilattice :
    (a b c : VersionVector)
    → IsDict a.clocks
    → IsDict b.clocks
    → IsDict c.clocks
    → SameClocks (merge a b) (merge b a)
      × SameClocks (merge (merge a b) c) (merge a (merge b c))
      × SameClocks (merge a a) a
merge-semilattice a b c ha hb hc = (
  λ k. omega (arith, merge-clock a b k hb, merge-clock b a k ha),
  λ k. omega (
    arith,
    merge-clock (merge a b) c k hc,
    merge-clock a b k hb,
    merge-clock a (merge b c) k (merge-IsDict b c hb),
    merge-clock b c k hc,
  ),
  λ k. omega (arith, merge-clock a a k ha),
)

-- `observe` raises one clock to what was seen, never lowers one, and leaves the others.
pub observe-clock :
    (v : VersionVector) (n k : String) (c : ℕ)
    → clock_of (observe v n c) k ≡ (if n == k then max (clock_of v n) c else clock_of v k)
unfolding observe
observe-clock v n k c = ground (arith, merge_step v.clocks n k c)

-- `bump` returns the new clock of the node, which is one more than before, and leaves the others.
pub bump-clock :
    (v : VersionVector) (n k : String)
    → ((bump v n).1 ≡ clock_of v n + 1)
      × (clock_of (bump v n).0 k ≡ (if n == k then clock_of v n + 1 else clock_of v k))
unfolding bump
bump-clock v n k = (refl, get_or-put v.clocks n k (get_or v.clocks n 0 + 1) 0)

-- After `merge` a vector has seen exactly what one of the two had seen.
pub seen-merge :
    (a b : VersionVector) (k : String) (c : ℕ)
    → IsDict b.clocks
    → seen (merge a b) k c ≡ (seen a k c || seen b k c)
unfolding seen
seen-merge a b k c h = ground (arith, merge-clock a b k h)

clean-encode : (d : Dict String ℕ) → clean (encode d) ≡ d
unfolding clean encode
clean-encode [] = refl
clean-encode ((n, c) ∷ d) = ap (◌∷◌ (n, c)) (clean-encode d)

-- What `to_dict` writes, `from_dict` reads back.
pub from_dict-to_dict : (v : VersionVector) → from_dict (some (to_dict v)) ≡ v
unfolding from_dict to_dict
from_dict-to_dict v = ap (λ (d : Dict String ℕ). record { clocks = d }) (clean-encode v.clocks)
