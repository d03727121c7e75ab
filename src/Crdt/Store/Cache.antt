-- ===== src/Crdt/Store/Cache.antt =====
-- The cached tree of the in-memory store (src/cks_runtime/crdt/crdt_store.py) through any calls.
use cks_runtime.Prelude.{
  String, List, [], ◌∷◌, ◌≡◌, refl, sym, ap, ◌∙◌, Option, some, none, codes_beq_iff, false, ◌==◌,
  codes_eq, if◌then◌else◌, arith, Bool-cases, inl, inr, ◌||◌, length, false≢true, contains,
}
use mathlib.Core.Path.{subst}
use mathlib.Core.Option.{some-injective}
use cks_runtime.Dict.{Dict, put, has, keys}
use cks_runtime.Crdt.Register.Scan.{none-some}
use cks_runtime.Result.{Result, ok, raise, ok_injective, ok-raise, bad_payload, identity_mismatch}
use cks_runtime.Crdt.MerkleTree.{Codes, id_hex_length}
use cks_runtime.Crdt.MerkleTree.Canonical.{node, node-SameIds, SameIds}
use cks_runtime.Crdt.VersionVector.{VersionVector}
use cks_runtime.Crdt.Store.{
  Objects, Payload, live, dict, other, rebuilt, checked_id, recompute_dict_object_id, object_id_for,
  serialize_object, InMemoryCrdtStore, empty_store, insert_object, add_object, merge_objects,
  update_version_vector, rebuild, refresh, get_root_hash, get_children_hashes,
}
use cks_runtime.Crdt.Store.Levels.{Long, hash_at}
use cks_runtime.Crdt.Store.Tree.{rebuild-node}
use cks_runtime.Crdt.Store.Identity.{IsLawful, claims, merge_objects-contents}

put-Long :
    {V : Type 0}
    → (d : Dict Codes V) (k : Codes) (v : V) → length k ≡ 64
    → Long (keys d)
    → Long (keys (put d k v))
unfolding put
put-Long [] k v n l = (n, tt)
put-Long ((j, x) ∷ d) k v n l = elim (Bool-cases (j == k)) [
  | inl here ↦ rw here l
  | inr elsewhere ↦ rw elsewhere (l.0, put-Long d k v n l.1)
]

contains-keys : {V : Type 0} → (d : Dict Codes V) (i : Codes) → contains (keys d) i ≡ has d i
unfolding has
contains-keys [] i = refl
contains-keys ((j, v) ∷ d) i = ground (arith, contains-keys d i)

checked-recomputed :
    (claim recomputed : Option Codes) (i : Codes)
    → checked_id claim recomputed ≡ ok i
    → recomputed ≡ some i
checked-recomputed none recomputed i h = absurd (ok-raise i bad_payload (sym h))
checked-recomputed (some c) none i h = absurd (ok-raise i bad_payload (sym h))
checked-recomputed (some c) (some k) i h = elim (Bool-cases (k == c)) [
  | inl agreed ↦ ap some (
      (codes_beq_iff k c).0 agreed
      ∙ ok_injective c i (sym (ap (λ b. if b then ok c else raise identity_mismatch) agreed) ∙ h))
  | inr differs ↦ absurd (
      ok-raise i identity_mismatch
        (sym h ∙ ap (λ b. if b then ok c else raise identity_mismatch) differs))
]

built-object :
    (o : Objects) (found : Option o.Object) (i : Codes)
    → elim found as (λ _. Option Codes) [ none ↦ none | some obj ↦ some (o.leaf_hash obj) ] ≡ some i
    → (obj : o.Object) × (o.leaf_hash obj ≡ i)
built-object o none i h = absurd (none-some i h)
built-object o (some obj) i h = (obj, some-injective (o.leaf_hash obj) i h)

rebuilt-object :
    (o : Objects) (identity : Option o.Identity) (structure : Option o.Structure) (i : Codes)
    → rebuilt o identity structure ≡ some i
    → (obj : o.Object) × (o.leaf_hash obj ≡ i)
rebuilt-object o none structure i h = absurd (none-some i h)
rebuilt-object o (some identity) none i h = absurd (none-some i h)
rebuilt-object o (some identity) (some structure) i h =
    built-object o (o.build identity structure) i h

module _ {o : Objects} where
  -- An id that passes the checks is the leaf hash of some object.
  pub object_id_for-object :
      (payload : Payload o) (i : Codes)
      → object_id_for payload ≡ ok i
      → (obj : o.Object) × (o.leaf_hash obj ≡ i)
  unfolding object_id_for recompute_dict_object_id
  object_id_for-object (live obj) i h = (obj, ok_injective (o.leaf_hash obj) i h)
  object_id_for-object other i h = absurd (ok-raise i _ (sym h))
  object_id_for-object (dict r) i h =
      rebuilt-object o r.identity r.structure i
        (checked-recomputed r.id (recompute_dict_object_id r) i h)

  object_id_for-length :
      (w : IsLawful o) (payload : Payload o) (i : Codes)
      → object_id_for payload ≡ ok i
      → length i ≡ 64
  object_id_for-length w payload i h =
      let (obj, same) = object_id_for-object payload i h in ap length (sym same) ∙ w.digits obj

  module _ (sha256 : Codes → Codes) where
    -- Stores that a run of calls reaches from the empty one.
    pub data Reachable : InMemoryCrdtStore o → Type 0 where
      starts : Reachable empty_store
      adds :
          (s : InMemoryCrdtStore o) (payload : Payload o)
          → Reachable s
          → Reachable (add_object s payload).0
      merges :
          (s : InMemoryCrdtStore o) (payloads : List (Payload o))
          → Reachable s
          → Reachable (merge_objects s payloads).0
      observes :
          (s : InMemoryCrdtStore o) (node_id : String) (vv : VersionVector)
          → Reachable s
          → Reachable (update_version_vector s node_id vv)
      reads_root : (s : InMemoryCrdtStore o) → Reachable s → Reachable (get_root_hash sha256 s).0
      reads_children :
          (s : InMemoryCrdtStore o) (prefix : Codes)
          → Reachable s
          → Reachable (get_children_hashes sha256 s prefix).0

    -- A tree that is not marked as dirty is that of the ids, which have 64 digits.
    record Coherent (s : InMemoryCrdtStore o) : Type 0 where
      clean : s.tree_dirty ≡ false → s.nodes ≡ rebuild sha256 (keys s.objects)
      long : Long (keys s.objects)

    insert-Coherent :
        (w : IsLawful o) (s : InMemoryCrdtStore o) (payload : Payload o) (found : Result Codes)
        → object_id_for payload ≡ found
        → Coherent s
        → Coherent (insert_object s payload found).0
    insert-Coherent w s payload (raise e) h c = c
    insert-Coherent w s payload (ok i) h c = elim (Bool-cases (has s.objects i)) [
      | inl known ↦ rw known c
      | inr new ↦ rw new (record {
        clean = λ dirty. absurd (false≢true (sym dirty));
        long =
            put-Long s.objects i (serialize_object payload i) (object_id_for-length w payload i h)
              c.long;
      })
    ]

    add-Coherent :
        (w : IsLawful o) (s : InMemoryCrdtStore o) (payload : Payload o)
        → Coherent s
        → Coherent (add_object s payload).0
    unfolding add_object
    add-Coherent w s payload c = insert-Coherent w s payload (object_id_for payload) refl c

    merge-Coherent :
        (w : IsLawful o) (s : InMemoryCrdtStore o) (payloads : List (Payload o))
        → Coherent s
        → Coherent (merge_objects s payloads).0
    unfolding merge_objects
    merge-Coherent w s [] c = c
    merge-Coherent w s (payload ∷ payloads) c =
        merge-Coherent w (add_object s payload).0 payloads (add-Coherent w s payload c)

    refresh-nodes :
        (s : InMemoryCrdtStore o)
        → Coherent s
        → ((refresh sha256 s).nodes ≡ rebuild sha256 (keys s.objects))
          × ((refresh sha256 s).objects ≡ s.objects)
    unfolding refresh
    refresh-nodes s c = elim (Bool-cases s.tree_dirty) [
      | inl dirty ↦ (
        ap
            (λ b.
              (if b
                then record s { nodes = rebuild sha256 (keys s.objects); tree_dirty = false }
                else s).nodes)
            dirty,
        ap
            (λ b.
              (if b
                then record s { nodes = rebuild sha256 (keys s.objects); tree_dirty = false }
                else s).objects)
            dirty,
      )
      | inr clean ↦ (
        ap
              (λ b.
                (if b
                  then record s { nodes = rebuild sha256 (keys s.objects); tree_dirty = false }
                  else s).nodes)
              clean
            ∙ c.clean clean,
        ap
            (λ b.
              (if b
                then record s { nodes = rebuild sha256 (keys s.objects); tree_dirty = false }
                else s).objects)
            clean,
      )
    ]

    refresh-Coherent : (s : InMemoryCrdtStore o) → Coherent s → Coherent (refresh sha256 s)
    refresh-Coherent s c =
        let (n, same) = refresh-nodes s c in
        record {
          clean = λ d. n ∙ ap (λ x. rebuild sha256 (keys x)) (sym same);
          long = subst (λ x. Long (keys x)) (sym same) c.long;
        }

    Reachable-Coherent : (w : IsLawful o) (s : InMemoryCrdtStore o) → Reachable s → Coherent s
    unfolding get_root_hash get_children_hashes update_version_vector
    Reachable-Coherent w _ starts = record { clean = λ d. absurd (false≢true (sym d)); long = tt }
    Reachable-Coherent w _ (adds s payload r) = add-Coherent w s payload (Reachable-Coherent w s r)
    Reachable-Coherent w _ (merges s payloads r) =
        merge-Coherent w s payloads (Reachable-Coherent w s r)
    Reachable-Coherent w _ (observes s node_id vv r) =
        let c = Reachable-Coherent w s r in record { clean = c.clean; long = c.long }
    Reachable-Coherent w _ (reads_root s r) = refresh-Coherent s (Reachable-Coherent w s r)
    Reachable-Coherent w _ (reads_children s prefix r) =
        refresh-Coherent s (Reachable-Coherent w s r)

    -- In every store that a run of calls reaches, with reads of the tree between the writes, the root
    -- hash is that of the canonical tree of the ids in the store.
    pub get_root_hash-node :
        (w : IsLawful o) (s : InMemoryCrdtStore o)
        → Reachable s
        → (get_root_hash sha256 s).1 ≡ node sha256 id_hex_length [] (keys s.objects)
    unfolding get_root_hash
    get_root_hash-node w s r =
        let c = Reachable-Coherent w s r in
        ap (λ n. hash_at sha256 n []) (refresh-nodes s c).0
        ∙ rebuild-node sha256 (keys s.objects) c.long [] id_hex_length refl

    -- Two replicas whose stores a run of calls has reached and that have merged payloads under the
    -- same ids, in whatever order, have the same root hash, if they had the same ids before.
    pub merge_objects-root :
        (w : IsLawful o) (s t : InMemoryCrdtStore o) (payloads others : List (Payload o))
        → Reachable s
        → Reachable t
        → ((i : Codes) → has s.objects i ≡ has t.objects i)
        → ((i : Codes) → claims payloads i ≡ claims others i)
        → (get_root_hash sha256 (merge_objects s payloads).0).1
          ≡ (get_root_hash sha256 (merge_objects t others).0).1
    merge_objects-root w s t payloads others r q before same =
        let a = (merge_objects s payloads).0 in
        let b = (merge_objects t others).0 in
        let alike : SameIds (keys a.objects) (keys b.objects) = λ i.
          contains-keys a.objects i
          ∙ (merge_objects-contents s payloads).0 i
          ∙ ap (λ x. x || has s.objects i) (same i)
          ∙ ap (λ x. claims others i || x) (before i)
          ∙ sym ((merge_objects-contents t others).0 i)
          ∙ sym (contains-keys b.objects i) in
        get_root_hash-node w a (merges s payloads r)
        ∙ node-SameIds sha256 id_hex_length [] (keys a.objects) (keys b.objects) alike
        ∙ sym (get_root_hash-node w b (merges t others q))
