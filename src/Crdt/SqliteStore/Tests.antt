-- ===== src/Crdt/SqliteStore/Tests.antt =====
-- Runs of the store in SQLite.
use cks_runtime.Prelude.{
  Bool, true, not, Option, none, ◌==◌, ℕ, zero, suc, List, [], ◌∷◌, some, nat_eq,
}
use cks_runtime.Crdt.MerkleTree.{Codes}
use cks_runtime.Crdt.Store as Memory
use cks_runtime.Crdt.Store.{Objects, Record, Payload, live, other}

abbrev repeat : ℕ → ℕ → Codes
repeat zero c = []
repeat (suc n) c = c ∷ repeat n c

-- The hash repeats one of two digits.
abbrev digit : ℕ → ℕ
digit zero = b'a'
digit (suc n) = b'7'

unfoldable hash_of : ℕ → Codes
hash_of n = repeat 64 (digit n)

abbrev numbers : Objects
numbers = record {
  Object = ℕ;
  Identity = ℕ;
  Structure = ℕ;
  identity = λ n. n;
  structure = λ n. n;
  leaf_hash = hash_of;
  build = λ i s. some s;
}

abbrev payloads : List (Payload numbers)
payloads = live 0 ∷ other ∷ live 3 ∷ live 0 ∷ []

abbrev digest : Codes → Codes
digest text = text

-- The structure 3 holds what is no JSON.
abbrev plain : Option ℕ → Bool
plain none = true
plain (some n) = not (n == 3)

abbrev small : Record numbers → Bool
small r = plain r.structure
