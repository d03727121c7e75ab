-- ===== src/Versioning/VersionVector.antt =====
-- src/cks_runtime/versioning/version_vector.py: the commit clocks of a session.
-- A clock is a count of commits, so it is a natural number; the code makes no others.
pub mod Dominance
use cks_runtime.Prelude.{
  ℕ, ◌+◌, max, String, List, [], ◌∷◌, Bool, true, false, Option, none, some, leb, string_eq,
  if◌then◌else◌,
}
use cks_runtime.Dict.{Dict, get, get_or, put}
use cks_runtime.Json.{Json, Fields, Metadata, number, object, end, field}

pub record VersionVector : Type 0 where
  pub clocks : Dict String ℕ

unfoldable pub bump : VersionVector → String → VersionVector
bump self node_id = record { clocks = put self.clocks node_id (get_or self.clocks node_id 0 + 1) }

unfoldable pub observe : VersionVector → String → ℕ → VersionVector
observe self node_id clock = record {
  clocks = put self.clocks node_id (max (get_or self.clocks node_id 0) clock);
}

-- The loop of `absorb` over `other.clocks.items()`.
unfoldable pub observe_all : VersionVector → List (String × ℕ) → VersionVector
observe_all self [] = self
observe_all self ((node_id, clock) ∷ items) = observe_all (observe self node_id clock) items

unfoldable pub absorb : VersionVector → VersionVector → VersionVector
unfolding observe_all
absorb self other = observe_all self other.clocks

-- The generator under `all(…)`.
unfoldable pub covers : VersionVector → List (String × ℕ) → Bool
covers self [] = true
covers self ((node_id, clock) ∷ items) =
    if leb clock (get_or self.clocks node_id 0) then covers self items else false

-- `not self.clocks`
abbrev pub is_empty : VersionVector → Bool
is_empty self = elim self.clocks [ [] ↦ true | _ ↦ false ]

unfoldable pub dominates : VersionVector → VersionVector → Bool
unfolding covers
dominates self other = if is_empty self then false else covers self other.clocks

abbrev pub version_vector_key : String
version_vector_key = "version_vector"

-- The comprehension of `from_metadata`: it keeps the numbers that are no Booleans.
unfoldable pub clean : Fields → Dict String ℕ
clean end = []
clean (field node_id (number clock) fields) = (node_id, clock) ∷ clean fields
clean (field node_id value fields) = clean fields

-- A value that is missing or no dictionary gives the empty vector.
unfoldable pub from_raw : Option Json → VersionVector
unfolding clean
from_raw (some (object fields)) = record { clocks = clean fields }
from_raw raw = record { clocks = [] }

unfoldable pub from_metadata : Metadata → VersionVector
unfolding from_raw
from_metadata metadata = from_raw (get metadata version_vector_key)

unfoldable pub encode : Dict String ℕ → Fields
encode [] = end
encode ((node_id, clock) ∷ items) = field node_id (number clock) (encode items)

unfoldable pub to_metadata : VersionVector → Metadata → Metadata
unfolding encode
to_metadata self metadata = put metadata version_vector_key (object (encode self.clocks))

abbrev pub clock_of : VersionVector → String → ℕ
clock_of v node_id = get_or v.clocks node_id 0
