-- ===== src/Crdt/Tests.antt =====
-- Runs of the vectors and their comparison at concrete inputs.
use cks_runtime.Prelude.{max, [], ◌∷◌, ◌≡◌, refl, ◌||◌, string_eq}
use cks_runtime.Dict.{get, get_or, put, IsDict}
use cks_runtime.Crdt.VersionVector.{VersionVector, merge, seen, clock_of}
use cks_runtime.Crdt.VersionVector.Join.{SameClocks, merge-clock, merge-semilattice, seen-merge}
use cks_runtime.Crdt.Causality.{concurrent, causality_check}
use cks_runtime.Crdt.Causality.Order.{
  Describes, mirror, causality_check_iff, causality_check-mirror,
}

abbrev here : VersionVector
here = record { clocks = ("a", 2) ∷ ("b", 1) ∷ [] }

abbrev there : VersionVector
there = record { clocks = ("b", 3) ∷ [] }

here-IsDict : IsDict here.clocks
unfolding get
here-IsDict = (refl, (refl, tt))

there-IsDict : IsDict there.clocks
unfolding get
there-IsDict = (refl, tt)

fork : causality_check here there ≡ concurrent
unfolding causality_check get_or
fork = refl

merged : merge here there ≡ record { clocks = ("a", 2) ∷ ("b", 3) ∷ [] }
unfolding merge get_or put
merged = refl

merge-clock_example : clock_of (merge here there) "b" ≡ max (clock_of here "b") (clock_of there "b")
merge-clock_example = merge-clock here there "b" there-IsDict

merge-semilattice_example :
    SameClocks (merge here there) (merge there here)
    × SameClocks (merge (merge here there) here) (merge here (merge there here))
    × SameClocks (merge here here) here
merge-semilattice_example = merge-semilattice here there here here-IsDict there-IsDict here-IsDict

seen-merge_example : seen (merge here there) "b" 2 ≡ (seen here "b" 2 || seen there "b" 2)
seen-merge_example = seen-merge here there "b" 2 there-IsDict

causality_check_iff_example :
    (causality_check here there ≡ concurrent → Describes concurrent here there)
    × (Describes concurrent here there → causality_check here there ≡ concurrent)
causality_check_iff_example = causality_check_iff here there concurrent

causality_check-mirror_example : causality_check there here ≡ mirror (causality_check here there)
causality_check-mirror_example = causality_check-mirror here there
