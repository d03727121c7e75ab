-- ===== src/Crdt/Store/Identity.antt =====
-- The grow-only set of the in-memory store (src/cks_runtime/crdt/crdt_store.py) and the ids in it.
use cks_runtime.Prelude.{
  ◌+◌, List, [], ◌∷◌, ◌≡◌, refl, sym, ap, ◌∙◌, Bool, false, Option, none, some, ◌==◌, codes_eq,
  if◌then◌else◌, arith, Bool-cases, inl, inr, ◌||◌, codes_beq_iff, length, ==_refl,
}
use mathlib.Core.Path.{subst}
use mathlib.Core.Option.{some-injective}
use cks_runtime.Dict.{Dict, get, put, has}
use cks_runtime.Dict.Laws.{get-put, has-put}
use cks_runtime.Result.{Result, ok, raise, ok-raise, ok_injective, identity_mismatch}
use cks_runtime.Crdt.MerkleTree.{Codes}
use cks_runtime.Crdt.Store.{
  Objects, Record, Payload, live, dict, other, checked_id, recompute_dict_object_id, object_id_for,
  serialize_object, InMemoryCrdtStore, insert_object, add_object, is_new, merge_objects,
}

-- What cks-core documents of its objects: one rebuilt from its identity and structure has the same
-- leaf hash, which is written with 64 digits.
pub record IsLawful (o : Objects) : Type 0 where
  pub rebuilds :
      (obj : o.Object)
      → (copy : o.Object) × (o.build (o.identity obj) (o.structure obj) ≡ some copy)
        × (o.leaf_hash copy ≡ o.leaf_hash obj)
  pub digits : (obj : o.Object) → length (o.leaf_hash obj) ≡ 64

abbrev pub claimed : Result Codes → Codes → Bool
claimed (raise e) i = false
claimed (ok object_id) i = object_id == i

length-put_new :
    {V : Type 0}
    → (d : Dict Codes V) (k : Codes) (v : V) → has d k ≡ false
    → length (put d k v) ≡ length d + 1
unfolding has put
length-put_new [] k v h = omega arith
length-put_new ((j, w) ∷ d) k v h = ground (arith, length-put_new d k v)

module _ {o : Objects} where
  -- The payload passes the checks of `object_id_for` under an id.
  abbrev pub Claims : Payload o → Codes → Type 0
  Claims payload i = object_id_for payload ≡ ok i

  -- Of a payload that passes, the record that is kept passes too, under the same id.
  serialize-Claims :
      (w : IsLawful o) (payload : Payload o) (i : Codes)
      → Claims payload i
      → Claims (dict (serialize_object payload i)) i
  unfolding object_id_for serialize_object recompute_dict_object_id
  serialize-Claims w (dict r) i h = h
  serialize-Claims w other i h = absurd (ok-raise i _ (sym h))
  serialize-Claims w (live obj) i h =
      let same : o.leaf_hash obj ≡ i = ok_injective (o.leaf_hash obj) i h in
      let (copy, made, hash) = w.rebuilds obj in
      ap
        (λ (b : Option o.Object).
          checked_id (some i) (elim b [ none ↦ none | some x ↦ some (o.leaf_hash x) ]))
        made
      ∙ ap (λ k. if k == i then ok i else raise identity_mismatch) (hash ∙ same)
      ∙ ap (λ b. if b then ok i else raise identity_mismatch) (==_refl i)

  -- What is kept under an id passes the checks under that id.
  abbrev pub Verified : InMemoryCrdtStore o → Type 0
  Verified self = (i : Codes) (r : Record o) → get self.objects i ≡ some r → Claims (dict r) i

  insert-Verified :
      (w : IsLawful o) (self : InMemoryCrdtStore o) (payload : Payload o) (found : Result Codes)
      → object_id_for payload ≡ found
      → Verified self
      → Verified (insert_object self payload found).0
  insert-Verified w self payload (raise e) h v = v
  insert-Verified w self payload (ok object_id) h v =
      elim (Bool-cases (has self.objects object_id)) [
        | inl known ↦ rw known v
        | inr new ↦ rw new (λ i r e. elim (Bool-cases (object_id == i)) [
          | inl here ↦
              (let same = (codes_beq_iff object_id i).0 here in
                let kept : serialize_object payload object_id ≡ r =
                  some-injective (serialize_object payload object_id) r (
                    sym (
                      get-put self.objects object_id i (serialize_object payload object_id)
                      ∙ ap
                          (λ b.
                            if b
                            then some (serialize_object payload object_id)
                            else get self.objects i)
                          here)
                    ∙ e) in
                subst (λ x. Claims (dict x) i) kept
                  (subst (λ k. Claims (dict (serialize_object payload object_id)) k) same
                    (serialize-Claims w payload object_id h)))
          | inr elsewhere ↦ v i r (
              sym (
                get-put self.objects object_id i (serialize_object payload object_id)
                ∙ ap
                    (λ b.
                      if b then some (serialize_object payload object_id) else get self.objects i)
                    elsewhere)
              ∙ e)
        ])
      ]

  pub add_object-Verified :
      (w : IsLawful o) (self : InMemoryCrdtStore o) (payload : Payload o)
      → Verified self
      → Verified (add_object self payload).0
  unfolding add_object
  add_object-Verified w self payload v =
      insert-Verified w self payload (object_id_for payload) refl v

  -- Merging payloads of any kind, forged ones among them, into a store keeps every record verifiable:
  -- each is kept under the id that `object_id_for` recomputes from its contents.
  pub merge_objects-Verified :
      (w : IsLawful o) (self : InMemoryCrdtStore o) (payloads : List (Payload o))
      → Verified self
      → Verified (merge_objects self payloads).0
  unfolding merge_objects
  merge_objects-Verified w self [] v = v
  merge_objects-Verified w self (payload ∷ payloads) v =
      merge_objects-Verified w (add_object self payload).0 payloads
        (add_object-Verified w self payload v)

  -- Some payload passes the checks under the id.
  abbrev pub claims : List (Payload o) → Codes → Bool
  claims [] i = false
  claims (payload ∷ payloads) i = claimed (object_id_for payload) i || claims payloads i

  insert-has :
      (self : InMemoryCrdtStore o) (payload : Payload o) (found : Result Codes) (i : Codes)
      → has (insert_object self payload found).0.objects i ≡ (claimed found i || has self.objects i)
  insert-has self payload (raise e) i = refl
  insert-has self payload (ok object_id) i = elim (Bool-cases (has self.objects object_id)) [
    | inl known ↦ rw known (elim (Bool-cases (object_id == i)) [
      | inl here ↦
          ap (has self.objects) (sym ((codes_beq_iff object_id i).0 here))
          ∙ known
          ∙ sym (ap (λ b. b || has self.objects i) here)
      | inr elsewhere ↦ sym (ap (λ b. b || has self.objects i) elsewhere)
    ])
    | inr new ↦ rw new (has-put self.objects object_id i (serialize_object payload object_id))
  ]

  pub merge_objects-has :
      (self : InMemoryCrdtStore o) (payloads : List (Payload o)) (i : Codes)
      → has (merge_objects self payloads).0.objects i ≡ (claims payloads i || has self.objects i)
  unfolding merge_objects add_object
  merge_objects-has self [] i = refl
  merge_objects-has self (payload ∷ payloads) i = ground (
    arith,
    merge_objects-has (add_object self payload).0 payloads i,
    insert-has self payload (object_id_for payload) i,
  )

  insert-length :
      (self : InMemoryCrdtStore o) (payload : Payload o) (found : Result Codes)
      → length (insert_object self payload found).0.objects
        ≡ length self.objects + is_new (insert_object self payload found).1
  insert-length self payload (raise e) = omega arith
  insert-length self payload (ok object_id) = elim (Bool-cases (has self.objects object_id)) [
    | inl known ↦ rw known (omega arith)
    | inr new ↦
        rw new (length-put_new self.objects object_id (serialize_object payload object_id) new)
  ]

  pub merge_objects-length :
      (self : InMemoryCrdtStore o) (payloads : List (Payload o))
      → length (merge_objects self payloads).0.objects
        ≡ length self.objects + (merge_objects self payloads).1
  unfolding merge_objects add_object
  merge_objects-length self [] = omega arith
  merge_objects-length self (payload ∷ payloads) = omega (
    arith,
    merge_objects-length (add_object self payload).0 payloads,
    insert-length self payload (object_id_for payload),
  )

  -- After a merge the store has exactly the ids that it had and those under which a payload passes
  -- the checks, in whatever order the payloads come, and the count is the number of ids that are new.
  pub merge_objects-contents :
      (self : InMemoryCrdtStore o) (payloads : List (Payload o))
      → ((i : Codes)
          → has (merge_objects self payloads).0.objects i
            ≡ (claims payloads i || has self.objects i))
        × (length (merge_objects self payloads).0.objects
            ≡ length self.objects + (merge_objects self payloads).1)
  merge_objects-contents self payloads =
      (merge_objects-has self payloads, merge_objects-length self payloads)
