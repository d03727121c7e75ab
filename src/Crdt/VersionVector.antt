-- ===== src/Crdt/VersionVector.antt =====
-- src/cks_runtime/crdt/version_vector.py: how much of each node's history has been observed.
-- Clocks are counts, so they are natural numbers; the code makes no others.
pub mod Join
use cks_runtime.Prelude.{
  ℕ, ◌+◌, String, List, [], ◌∷◌, Bool, Option, none, some, ltb, leb, if◌then◌else◌, string_eq,
}
use cks_runtime.Dict.{Dict, get_or, put}

pub record VersionVector : Type 0 where
  pub clocks : Dict String ℕ

unfoldable pub bump : VersionVector → String → VersionVector × ℕ
bump self node_id =
    let new_value = get_or self.clocks node_id 0 + 1 in
    (record { clocks = put self.clocks node_id new_value }, new_value)

unfoldable pub observe : VersionVector → String → ℕ → VersionVector
observe self node_id clock =
    if ltb (get_or self.clocks node_id 0) clock
    then record { clocks = put self.clocks node_id clock }
    else self

unfoldable pub seen : VersionVector → String → ℕ → Bool
seen self node_id clock = leb clock (get_or self.clocks node_id 0)

-- The loop of `merge` over `other.clocks.items()`.
unfoldable pub merge_items : Dict String ℕ → List (String × ℕ) → Dict String ℕ
merge_items merged [] = merged
merge_items merged ((node_id, clock) ∷ items) =
    merge_items (if ltb (get_or merged node_id 0) clock then put merged node_id clock else merged)
      items

unfoldable pub merge : VersionVector → VersionVector → VersionVector
unfolding merge_items
merge self other = record { clocks = merge_items self.clocks other.clocks }

-- What `from_dict` finds behind a key: a number, a Boolean (which Python counts as a number too),
-- or anything else.
pub data Entry : Type 0 where
  number : ℕ → Entry
  boolean : Bool → Entry
  other : Entry

-- The copy that `to_dict` makes, as the payload that `from_dict` reads.
unfoldable pub encode : Dict String ℕ → Dict String Entry
encode [] = []
encode ((node_id, clock) ∷ items) = (node_id, number clock) ∷ encode items

unfoldable pub to_dict : VersionVector → Dict String Entry
unfolding encode
to_dict self = encode self.clocks

-- The comprehension of `from_dict`: it keeps the numbers that are no Booleans.
unfoldable pub clean : Dict String Entry → Dict String ℕ
clean [] = []
clean ((node_id, number clock) ∷ items) = (node_id, clock) ∷ clean items
clean ((node_id, boolean b) ∷ items) = clean items
clean ((node_id, other) ∷ items) = clean items

-- `none` stands for a payload that is no dictionary.
unfoldable pub from_dict : Option (Dict String Entry) → VersionVector
unfolding clean
from_dict none = record { clocks = [] }
from_dict (some items) = record { clocks = clean items }

-- The clock of a node: a missing one is 0.
abbrev pub clock_of : VersionVector → String → ℕ
clock_of v node_id = get_or v.clocks node_id 0
