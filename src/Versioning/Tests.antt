-- ===== src/Versioning/Tests.antt =====
-- Runs of the commit clocks at concrete inputs.
use cks_runtime.Prelude.{max, [], ◌∷◌, ◌≡◌, refl, false, string_eq}
use cks_runtime.Dict.{get, get_or, IsDict}
use cks_runtime.Versioning.VersionVector.{VersionVector, absorb, dominates, clock_of}
use cks_runtime.Versioning.VersionVector.Dominance.{absorb-clock}

abbrev target : VersionVector
target = record { clocks = ("n1", 4) ∷ [] }

abbrev source : VersionVector
source = record { clocks = ("n1", 3) ∷ ("n2", 1) ∷ [] }

target-IsDict : IsDict target.clocks
unfolding get
target-IsDict = (refl, tt)

source-IsDict : IsDict source.clocks
unfolding get
source-IsDict = (refl, (refl, tt))

neither : (dominates target source ≡ false) × (dominates source target ≡ false)
unfolding dominates get_or
neither = (refl, refl)

-- Two empty vectors do not dominate each other.
empty_pair : dominates (record { clocks = [] }) (record { clocks = [] }) ≡ false
unfolding dominates
empty_pair = refl

absorb-clock_example :
    clock_of (absorb target source) "n2" ≡ max (clock_of target "n2") (clock_of source "n2")
absorb-clock_example = absorb-clock target source "n2" source-IsDict
