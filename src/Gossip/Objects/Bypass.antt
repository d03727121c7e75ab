-- ===== src/Gossip/Objects/Bypass.antt =====
-- The pointers that a remote session writes (src/cks_runtime/gossip/adapter.py), and the validator.
use cks_runtime.Prelude.{
  ℕ, String, List, [], ◌∷◌, ◌≡◌, refl, sym, ap, ◌∙◌, Bool, true, false, if◌then◌else◌, leb, length,
  ◌==◌, string_eq, codes_eq, select, map, Bool-cases, inl, inr,
}
use cks_runtime.Dict.{has, keys, values}
use cks_runtime.Result.{Result, ok, raise}
use cks_runtime.Crdt.MerkleTree.{Codes}
use cks_runtime.Crdt.VersionVector.{VersionVector, from_dict}
use cks_runtime.Crdt.Register.{Pointers, Bucket, update_pointer, get_pointers}
use cks_runtime.Crdt.Forks.{ConflictEvents}
use cks_runtime.Crdt.Store.{
  Objects, Payload, live, object_id_for, InMemoryCrdtStore, insert_object, add_object,
  merge_objects,
}
use cks_runtime.Crdt.Quarantine.{Validator, is_structurally_valid}
use cks_runtime.Crdt.Quarantine.Batch.{process_batch-merge_objects}
use cks_runtime.Gossip.Objects.{
  CrdtForkDetected, Adapter, RemoteObjects, clock, handle_fork, fork_of, detect_and_handle_fork,
  after_write, write_pointer, advance_pointer, advance_pointers, after_batch, merge_crdt_objects,
}

ap_if {ℓ κ} :
    {A : Type ℓ} {B : Type κ} (f : A → B) (b : Bool) (x y : A)
    → (if b then f x else f y) ≡ f (if b then x else y)
ap_if f true x y = refl
ap_if f false x y = refl

-- The pointers and the conflict events of the store, and the events that were published.
abbrev pub Seen : Type 0
Seen = (Pointers × ConflictEvents) × List CrdtForkDetected

module _ {o : Objects} where
  abbrev register : InMemoryCrdtStore o → Pointers × ConflictEvents
  register s = (s.pointers, s.conflict_events)

  insert_object-register :
      (s : InMemoryCrdtStore o) (payload : Payload o) (found : Result Codes)
      → register (insert_object s payload found).0 ≡ register s
  insert_object-register s payload (raise e) = refl
  insert_object-register s payload (ok object_id) = elim (Bool-cases (has s.objects object_id)) [
    | inl known ↦ rw known refl
    | inr new ↦ rw new refl
  ]

  merge_objects-register :
      (s : InMemoryCrdtStore o) (payloads : List (Payload o))
      → register (merge_objects s payloads).0 ≡ register s
  unfolding merge_objects add_object
  merge_objects-register s [] = refl
  merge_objects-register s (payload ∷ payloads) =
      merge_objects-register (add_object s payload).0 payloads
      ∙ insert_object-register s payload (object_id_for payload)

  -- The adapter over another store with the same pointers and events.
  abbrev swap : InMemoryCrdtStore o → Adapter o → Adapter o
  swap s a = record a {
    crdt_store = record s {
      pointers = a.crdt_store.pointers;
      conflict_events = a.crdt_store.conflict_events;
    };
  }

  swap_same :
      (s : InMemoryCrdtStore o) (a : Adapter o)
      → register s ≡ register a.crdt_store
      → record a { crdt_store = s } ≡ swap s a
  swap_same s a h =
      ap
        (λ (r : Pointers × ConflictEvents). record a {
          crdt_store = record s { pointers = r.0; conflict_events = r.1 };
        })
        h

  module _ (fresh_id : ℕ → String) (s : InMemoryCrdtStore o) where
    fork_of-swap :
        (a : Adapter o) (key : String) (bucket : Bucket)
        → fork_of fresh_id (swap s a) key bucket ≡ swap s (fork_of fresh_id a key bucket)
    unfolding handle_fork
    fork_of-swap a key bucket =
        ap_if (swap s) (leb (length bucket) 1) a
          (handle_fork fresh_id a key (keys bucket) (map clock (values bucket)))

    after_write-swap :
        (a : Adapter o) (key : String) (r : Pointers × Bool)
        → after_write fresh_id (swap s a) key r ≡ swap s (after_write fresh_id a key r)
    unfolding detect_and_handle_fork
    after_write-swap a key (pointers, false) = refl
    after_write-swap a key (pointers, true) =
        fork_of-swap (record a { crdt_store = record a.crdt_store { pointers = pointers } }) key
          (get_pointers pointers key)

    write_pointer-swap :
        (a : Adapter o) (vv : VersionVector) (key : String) (found : Result Codes)
        → write_pointer fresh_id (swap s a) vv key found
          ≡ swap s (write_pointer fresh_id a vv key found)
    write_pointer-swap a vv key (raise e) = refl
    write_pointer-swap a vv key (ok object_id) =
        after_write-swap a key (update_pointer a.crdt_store.pointers key object_id vv a.replica_id)

    advance_pointer-swap :
        (name : o.Identity → String) (a : Adapter o) (vv : VersionVector) (obj : o.Object)
        → advance_pointer fresh_id name (swap s a) vv obj
          ≡ swap s (advance_pointer fresh_id name a vv obj)
    unfolding advance_pointer
    advance_pointer-swap name a vv obj =
        let key = name (o.identity obj) in
        let found = object_id_for {o = o} (live obj) in
        ap (λ x. if key == "" then swap s a else x) (write_pointer-swap a vv key found)
        ∙ ap_if (swap s) (key == "") a (write_pointer fresh_id a vv key found)

    advance_pointers-swap :
        (name : o.Identity → String) (a : Adapter o) (vv : VersionVector) (objs : List o.Object)
        → advance_pointers fresh_id name (swap s a) vv objs
          ≡ swap s (advance_pointers fresh_id name a vv objs)
    unfolding advance_pointers
    advance_pointers-swap name a vv [] = refl
    advance_pointers-swap name a vv (obj ∷ objs) =
        ap (λ x. advance_pointers fresh_id name x vv objs) (advance_pointer-swap name a vv obj)
        ∙ advance_pointers-swap name (advance_pointer fresh_id name a vv obj) vv objs

  abbrev pub seen : Adapter o → Seen
  seen a = (register a.crdt_store, a.published)

  module _ (fresh_id : ℕ → String) (name : o.Identity → String) where
    pub merge-advance :
        (cks : Validator o) (self : Adapter o) (remote : RemoteObjects o)
        → seen (merge_crdt_objects fresh_id name cks self remote).0
          ≡ seen (
              advance_pointers fresh_id name self
                (from_dict remote.crdt_version_vector)
                remote.objects)
    unfolding merge_crdt_objects
    merge-advance cks self remote =
        let kept = select (is_structurally_valid cks) (map live remote.objects) in
        let s = (merge_objects self.crdt_store kept).0 in
        let vv = from_dict remote.crdt_version_vector in
        ap (λ r. seen (after_batch fresh_id name self remote r).0)
          (process_batch-merge_objects cks self.crdt_store (map live remote.objects))
        ∙ ap (λ x. seen (advance_pointers fresh_id name x vv remote.objects))
            (swap_same s self (merge_objects-register self.crdt_store kept))
        ∙ ap seen (advance_pointers-swap fresh_id s name self vv remote.objects)

    -- Whichever objects of a remote session the quarantine rejects, the pointers, the conflict events
    -- and the published events after the merge are the same: two validators never make a difference.
    pub merge_crdt_objects-bypass :
        (cks cks' : Validator o) (self : Adapter o) (remote : RemoteObjects o)
        → seen (merge_crdt_objects fresh_id name cks self remote).0
          ≡ seen (merge_crdt_objects fresh_id name cks' self remote).0
    merge_crdt_objects-bypass cks cks' self remote =
        merge-advance cks self remote ∙ sym (merge-advance cks' self remote)
