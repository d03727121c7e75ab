-- ===== src/Crdt/Register/Tests.antt =====
-- Runs of the register at concrete inputs.
use cks_runtime.Prelude.{
  String, List, [], ◌∷◌, ◌≡◌, refl, some, if◌then◌else◌, ◌==◌, codes_eq, string_eq, arith,
}
use cks_runtime.Dict.{get, get_or, put, has}
use cks_runtime.Crdt.MerkleTree.{Codes}
use cks_runtime.Crdt.MerkleTree.Canonical.{SameIds}
use cks_runtime.Crdt.VersionVector.{VersionVector}
use cks_runtime.Crdt.VersionVector.Join.{SameClocks}
use cks_runtime.Crdt.Causality.{causality_check}
use cks_runtime.Crdt.Register.{
  Pointer, update_bucket, update_pointer, get_pointers, scan, verdict, delete_all,
}
use cks_runtime.Crdt.Register.Maximal.{Write, Holds}
use cks_runtime.Crdt.Register.Converge.{run_pointers, get_pointers-Holds, get_pointers-converge}

abbrev id_a : Codes
id_a = b'a' ∷ []

abbrev id_b : Codes
id_b = b'b' ∷ []

abbrev content : Codes → VersionVector
content i =
    if i == id_a then record { clocks = ("n", 1) ∷ [] } else record { clocks = ("m", 1) ∷ [] }

abbrev write_of : Codes → Write
write_of i = record { object_id = i; clock = content i; origin_node = "n" }

abbrev calls : List (String × Write)
calls = ("k", write_of id_a) ∷ ("j", write_of id_a) ∷ ("k", write_of id_b) ∷ []

abbrev calls_again : List (String × Write)
calls_again = ("k", write_of id_b) ∷ ("k", write_of id_a) ∷ ("k", write_of id_b) ∷ []

abbrev pointer_of : Codes → Pointer
pointer_of i = record { clock = content i; origin_node = "n" }

-- Concurrent writes stand side by side.
fork :
    get_pointers (run_pointers [] calls) "k"
    ≡ (id_a, pointer_of id_a) ∷ (id_b, pointer_of id_b) ∷ []
unfolding get_pointers run_pointers update_pointer update_bucket scan verdict causality_check
    delete_all get_or put has
fork = refl

get_pointers-Holds_example :
    Holds content (get_pointers (run_pointers [] calls) "k") (id_a ∷ id_b ∷ [])
get_pointers-Holds_example = get_pointers-Holds content "k" calls (refl, (refl, tt))

same_ids : SameIds (id_a ∷ id_b ∷ []) (id_b ∷ id_a ∷ id_b ∷ [])
same_ids i = ground arith

found_a : get (get_pointers (run_pointers [] calls) "k") id_a ≡ some (pointer_of id_a)
unfolding get_pointers run_pointers update_pointer update_bucket scan verdict causality_check
    delete_all get_or put has get
found_a = refl

get_pointers-converge_example :
    (j : Codes) × (q : Pointer) × (get (get_pointers (run_pointers [] calls_again) "k") j ≡ some q)
    × SameClocks (content id_a) q.clock
get_pointers-converge_example =
    get_pointers-converge content "k" calls calls_again (refl, (refl, tt))
      (refl, (refl, (refl, tt))) same_ids id_a (pointer_of id_a) found_a
