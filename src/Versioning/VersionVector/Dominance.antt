-- ===== src/Versioning/VersionVector/Dominance.antt =====
-- `absorb` and `dominates` (src/cks_runtime/versioning/version_vector.py) by the order of clocks.
use cks_runtime.Prelude.{
  ℕ, max, ◌+◌, ◌≤◌, String, [], ◌∷◌, ◌≡◌, ◌≢◌, refl, ap, true, false, arith, ◌==◌, string_eq,
  ==_refl, ◌↔◌, Bool-cases, inl, inr, if◌then◌else◌,
}
use cks_runtime.Dict.{Dict, get, get_or, put, IsDict}
use cks_runtime.Dict.Laws.{get_or-put, get-put, get_or-none, put-IsDict}
use cks_runtime.Json.{Metadata, object}
use cks_runtime.Versioning.VersionVector.{
  VersionVector, bump, observe, observe_all, absorb, covers, is_empty, dominates, clean,
  from_metadata, encode, to_metadata, clock_of, version_vector_key,
}

pub bump-clock :
    (v : VersionVector) (n k : String)
    → clock_of (bump v n) k ≡ (if n == k then clock_of v n + 1 else clock_of v k)
unfolding bump
bump-clock v n k = get_or-put v.clocks n k (get_or v.clocks n 0 + 1) 0

pub observe-clock :
    (v : VersionVector) (n k : String) (c : ℕ)
    → clock_of (observe v n c) k ≡ (if n == k then max (clock_of v n) c else clock_of v k)
unfolding observe
observe-clock v n k c = get_or-put v.clocks n k (max (get_or v.clocks n 0) c) 0

observe_all-clock :
    (v : VersionVector) (items : Dict String ℕ) (k : String)
    → IsDict items
    → clock_of (observe_all v items) k ≡ max (clock_of v k) (get_or items k 0)
unfolding observe_all get_or
observe_all-clock v [] k h = omega arith
observe_all-clock v ((n, c) ∷ items) k h = ground (
  arith,
  observe_all-clock (observe v n c) items k h.1,
  observe-clock v n k c,
  string_eq.agrees_iff n k,
  get_or-none items n 0 h.0,
)

-- After `absorb` each clock is the greater one of the two.
pub absorb-clock :
    (a b : VersionVector) (k : String)
    → IsDict b.clocks
    → clock_of (absorb a b) k ≡ max (clock_of a k) (clock_of b k)
unfolding absorb
absorb-clock a b k h = observe_all-clock a b.clocks k h

covers→le :
    (a : VersionVector) (items : Dict String ℕ)
    → covers a items ≡ true
    → (k : String) → get_or items k 0 ≤ clock_of a k
unfolding covers get_or
covers→le a [] h k = omega arith
covers→le a ((n, c) ∷ items) h k =
    let rest : covers a items ≡ true = ground arith in
    ground (arith, covers→le a items rest k, string_eq.agrees_iff n k)

le→covers :
    (a : VersionVector) (items : Dict String ℕ)
    → IsDict items
    → ((k : String) → get_or items k 0 ≤ clock_of a k)
    → covers a items ≡ true
unfolding covers get_or
le→covers a [] d h = refl
le→covers a ((n, c) ∷ items) d h =
    let head : c ≤ clock_of a n = ground (arith, h n, ==_refl n) in
    let tail : (k : String) → get_or items k 0 ≤ clock_of a k =
      λ k. ground (arith, h k, string_eq.agrees_iff n k, get_or-none items n 0 d.0) in
    ground (arith, head, le→covers a items d.1 tail)

-- `dominates` holds exactly when the vector is not empty and every clock of the other one is
-- reached.
pub dominates_iff :
    (a b : VersionVector)
    → IsDict b.clocks
    → (dominates a b ≡ true) ↔ ((is_empty a ≡ false) × ((k : String) → clock_of b k ≤ clock_of a k))
unfolding dominates
dominates_iff a b d = (
  λ h. (ground arith, covers→le a b.clocks (ground arith)),
  λ h. rw (h.0, le→covers a b.clocks d h.1),
)

put-nonempty :
    (d : Dict String ℕ) (k : String) (v : ℕ) → is_empty (record { clocks = put d k v }) ≡ false
unfolding put
put-nonempty [] k v = refl
put-nonempty ((j, w) ∷ d) k v = ground arith

observe_all-nonempty :
    (v : VersionVector) (items : Dict String ℕ)
    → is_empty v ≡ false
    → is_empty (observe_all v items) ≡ false
unfolding observe_all
observe_all-nonempty v [] h = h
observe_all-nonempty v ((n, c) ∷ items) h =
    observe_all-nonempty (observe v n c) items
      (unfold observe in put-nonempty v.clocks n (max (get_or v.clocks n 0) c))

-- A vector that is not empty and has absorbed another one dominates it: a second merge of the same
-- branch is a no-op.
pub dominates-absorb :
    (a b : VersionVector) → IsDict b.clocks → is_empty a ≡ false → dominates (absorb a b) b ≡ true
dominates-absorb a b d h =
    (dominates_iff (absorb a b) b d).1
      (unfold absorb in observe_all-nonempty a b.clocks h, λ k. omega (arith, absorb-clock a b k d))

bump-IsDict : (v : VersionVector) (n : String) → IsDict v.clocks → IsDict (bump v n).clocks
unfolding bump
bump-IsDict v n d = put-IsDict v.clocks n (get_or v.clocks n 0 + 1) d

-- A commit of a node makes the new vector dominate the old one, and not the other way round.
pub dominates-bump :
    (v : VersionVector) (n : String)
    → IsDict v.clocks
    → (dominates (bump v n) v ≡ true) × (dominates v (bump v n) ≡ false)
dominates-bump v n d =
    let grows : (k : String) → clock_of v k ≤ clock_of (bump v n) k =
      λ k. ground (arith, bump-clock v n k, string_eq.agrees_iff n k) in
    (
      (dominates_iff (bump v n) v d).1
          (unfold bump in put-nonempty v.clocks n (get_or v.clocks n 0 + 1), grows),
      elim (Bool-cases (dominates v (bump v n))) [
        | inl e ↦ absurd (
            ground (
              arith,
              ((dominates_iff v (bump v n) (bump-IsDict v n d)).0 e).1 n,
              bump-clock v n n,
              ==_refl n,
            ))
        | inr e ↦ e
      ],
    )

clean-encode : (d : Dict String ℕ) → clean (encode d) ≡ d
unfolding clean encode
clean-encode [] = refl
clean-encode ((n, c) ∷ d) = ap (◌∷◌ (n, c)) (clean-encode d)

-- The vector that is written into a session's metadata is the one that is read back.
pub from_metadata-to_metadata :
    (v : VersionVector) (m : Metadata) → from_metadata (to_metadata v m) ≡ v
unfolding from_metadata to_metadata
from_metadata-to_metadata v m = rw (get-put, clean-encode v.clocks)

-- Writing the vector leaves every other key of the metadata alone.
pub get-to_metadata_ne :
    (v : VersionVector) (m : Metadata) (k : String)
    → version_vector_key ≢ k
    → get (to_metadata v m) k ≡ get m k
unfolding to_metadata
get-to_metadata_ne v m k h = ground (
  arith,
  get-put m version_vector_key k (object (encode v.clocks)),
  string_eq.agrees_iff version_vector_key k,
)
