-- ===== src/Crdt/Store/Tests.antt =====
-- Runs of the in-memory store on objects that are pairs of an identity and a structure.
use cks_runtime.Prelude.{
  ℕ, zero, suc, List, [], ◌∷◌, ◌≡◌, refl, some, if◌then◌else◌, ◌==◌, codes_eq, nat_eq, arith,
  length, All, ◌≤◌,
}
use cks_runtime.Dict.{get}
use cks_runtime.Result.{raise, identity_mismatch}
use cks_runtime.Crdt.MerkleTree.{Codes, Table, all_nibbles, update_all, get_hash, id_hex_length}
use cks_runtime.Crdt.Store.{
  Objects, Payload, live, dict, other, object_id_for, recompute_dict_object_id, empty_store,
  merge_objects, rebuild, get_root_hash,
}
use cks_runtime.Crdt.Store.Levels.{hash_at}
use cks_runtime.Crdt.Store.Tree.{IsHex, rebuild-update_all}
use cks_runtime.Crdt.Store.Identity.{IsLawful, Verified, claims, merge_objects-Verified}
use cks_runtime.Crdt.Store.Cache.{starts, merge_objects-root}

abbrev repeat : ℕ → ℕ → Codes
repeat zero c = []
repeat (suc n) c = c ∷ repeat n c

-- The structure of an object is a digit, and its hash repeats the digit.
abbrev digit : ℕ → ℕ
digit n = if n == 0 then b'a' else b'7'

unfoldable hash_of : ℕ → Codes
hash_of n = repeat 64 (digit n)

abbrev pairs : Objects
pairs = record {
  Object = ℕ × ℕ;
  Identity = ℕ;
  Structure = ℕ;
  identity = λ p. p.0;
  structure = λ p. p.1;
  leaf_hash = λ p. hash_of p.1;
  build = λ i s. some (i, s);
}

length-repeat : (n c : ℕ) → length (repeat n c) ≡ n
length-repeat zero c = refl
length-repeat (suc n) c = omega (arith, length-repeat n c)

pairs-IsLawful : IsLawful pairs
unfolding hash_of
pairs-IsLawful = record {
  rebuilds = λ p. (p, refl, refl);
  digits = λ p. length-repeat 64 (digit p.1);
}

-- A record that claims the id of another object is refused.
forged :
    object_id_for {o = pairs}
      (dict (record { id = some (hash_of 0); identity = some 5; structure = some 1 }))
    ≡ raise identity_mismatch
unfolding object_id_for recompute_dict_object_id hash_of
forged = refl

abbrev payloads : List (Payload pairs)
payloads = live (1, 0) ∷ other ∷ live (2, 1) ∷ live (1, 0) ∷ []

abbrev shuffled : List (Payload pairs)
shuffled = live (2, 1) ∷ live (1, 0) ∷ []

merge_objects-Verified_example : Verified (merge_objects {o = pairs} empty_store payloads).0
unfolding get
merge_objects-Verified_example =
    merge_objects-Verified pairs-IsLawful empty_store payloads (λ i r h. absurd (ground (arith, h)))

abbrev digest : Codes → Codes
digest text = text

same_claims : (i : Codes) → claims payloads i ≡ claims shuffled i
unfolding object_id_for
same_claims i = ground arith

merge_objects-root_example :
    (get_root_hash digest (merge_objects {o = pairs} empty_store payloads).0).1
    ≡ (get_root_hash digest (merge_objects {o = pairs} empty_store shuffled).0).1
merge_objects-root_example =
    merge_objects-root digest pairs-IsLawful empty_store empty_store payloads shuffled starts starts
      (λ i. refl) same_claims

abbrev hashes : List Codes
hashes = hash_of 0 ∷ hash_of 1 ∷ []

hashes-IsHex : All IsHex hashes
unfolding hash_of all_nibbles
hashes-IsHex = ((refl, refl), ((refl, refl), tt))

rebuild-update_all_example :
    (t : Table) × (update_all digest [] hashes ≡ some t)
    × ((q : Codes)
        → length q ≤ id_hex_length
        → hash_at digest (rebuild digest hashes) q ≡ get_hash digest t q)
rebuild-update_all_example = rebuild-update_all digest hashes hashes-IsHex
