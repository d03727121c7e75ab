-- ===== src/Gossip/Objects/Unclocked.antt =====
-- Remote sessions without a `crdt_version_vector` (src/cks_runtime/gossip/adapter.py).
use cks_runtime.Prelude.{
  ℕ, String, List, [], ◌∷◌, ◌≡◌, refl, sym, ap, ◌∙◌, Bool, true, false, none, if◌then◌else◌, ◌==◌,
  string_eq, codes_eq, Bool-cases, inl, inr, arith, codes_beq_iff, ==_refl,
}
use mathlib.Core.Path.{subst}
use cks_runtime.Dict.{get_or, put, remove}
use cks_runtime.Result.{Result, ok, raise}
use cks_runtime.Crdt.MerkleTree.{Codes}
use cks_runtime.Crdt.VersionVector.{VersionVector, from_dict}
use cks_runtime.Crdt.Causality.{causality_check}
use cks_runtime.Crdt.Register.{
  Pointers, Pointer, Bucket, verdict, scan, delete_all, update_bucket, update_pointer, get_pointers,
}
use cks_runtime.Crdt.Register.Maximal.{Write}
use cks_runtime.Crdt.Register.Converge.{update_pointer-bucket}
use cks_runtime.Crdt.Store.{Objects, live, object_id_for}
use cks_runtime.Crdt.Quarantine.{Validator}
use cks_runtime.Gossip.Objects.{
  Adapter, RemoteObjects, fork_of, detect_and_handle_fork, after_write, write_pointer,
  advance_pointer, advance_pointers, merge_crdt_objects,
}
use cks_runtime.Gossip.Objects.Bypass.{merge-advance}

abbrev unclocked : VersionVector
unclocked = record { clocks = [] }

-- One pointer at most, and that with the empty clock.
abbrev pub Alone : Bucket → Type 0
Alone [] = Unit
Alone ((i, p) ∷ []) = p.clock ≡ unclocked
Alone (e ∷ f ∷ bucket) = true ≡ false

abbrev only : Codes → String → Bucket
only id origin = (id, record { clock = unclocked; origin_node = origin }) ∷ []

abbrev bare : String → Pointer
bare origin = record { clock = unclocked; origin_node = origin }

update_bucket-bare :
    (i id : Codes) (before origin : String)
    → update_bucket ((i, bare before) ∷ []) id unclocked origin ≡ (only id origin, true)
unfolding update_bucket scan verdict causality_check delete_all put remove
update_bucket-bare i id before origin = elim (Bool-cases (i == id)) [
  | inl here ↦
      rw (here, update_bucket, scan, verdict)
        (ap
            (λ (b : Bool). (
              if b then (i, bare origin) ∷ [] else (i, bare before) ∷ (id, bare origin) ∷ [],
              true,
            ))
            here
          ∙ ap (λ (k : Codes). ((k, bare origin) ∷ [], true)) ((codes_beq_iff i id).0 here))
  | inr other ↦
      rw (other, update_bucket, scan, verdict)
        (ap (λ (b : Bool). (put (if b then [] else (i, bare before) ∷ []) id (bare origin), true))
          (==_refl i))
]

update_bucket-Alone :
    (bucket : Bucket) (id : Codes) (origin : String)
    → Alone bucket
    → update_bucket bucket id unclocked origin ≡ (only id origin, true)
unfolding update_bucket scan delete_all put
update_bucket-Alone [] id origin a = refl
update_bucket-Alone ((i, p) ∷ []) id origin a =
    ap
      (λ (c : VersionVector).
        update_bucket ((i, record { clock = c; origin_node = p.origin_node }) ∷ []) id unclocked
          origin)
      a
    ∙ update_bucket-bare i id p.origin_node origin
update_bucket-Alone (e ∷ f ∷ bucket) id origin a = absurd (ground (arith, a))

-- Every key has one pointer at most, and that with the empty clock.
abbrev pub Unforked : Pointers → Type 0
Unforked pointers = (key : String) → Alone (get_pointers pointers key)

module _ (pointers : Pointers) (k : String) (id : Codes) (origin : String)
    (u : Unforked pointers) where
  abbrev call : Pointers × Bool
  call = update_pointer pointers k id unclocked origin

  abbrev write : Write
  write = record { object_id = id; clock = unclocked; origin_node = origin }

  before-Alone : (key : String) → Alone (get_or pointers key [])
  unfolding get_pointers
  before-Alone key = u key

  call-bucket :
      (key : String)
      → get_pointers call.0 key ≡ (if k == key then only id origin else get_or pointers key [])
  unfolding get_pointers
  call-bucket key =
      update_pointer-bucket pointers k key write
      ∙ ap (λ (r : Bucket × Bool). if k == key then r.0 else get_or pointers key [])
          (update_bucket-Alone (get_or pointers key []) id origin (before-Alone key))

  call-Unforked : Unforked call.0
  call-Unforked key = elim (Bool-cases (k == key)) [
    | inl here ↦
        subst Alone
          (sym
            (call-bucket key ∙ ap (λ b. if b then only id origin else get_or pointers key []) here))
          refl
    | inr other ↦
        subst Alone
          (sym (
            call-bucket key ∙ ap (λ b. if b then only id origin else get_or pointers key []) other))
          (before-Alone key)
  ]

  call-own : get_pointers call.0 k ≡ only id origin
  call-own =
      call-bucket k
      ∙ ap (λ b. if b then only id origin else get_or pointers k [])
          ((string_eq.agrees_iff k k).1 refl)

module _ {o : Objects} where
  -- The pointers stay unforked, and no conflict is recorded or published.
  pub record Calm (self after : Adapter o) : Type 0 where
    pub unforked : Unforked after.crdt_store.pointers
    pub recorded : after.crdt_store.conflict_events ≡ self.crdt_store.conflict_events
    pub published : after.published ≡ self.published

  module _ (fresh_id : ℕ → String) where
    written-Calm :
        (self : Adapter o) (key : String) (r : Pointers × Bool) (id : Codes) (origin : String)
        → Unforked r.0
        → get_pointers r.0 key ≡ only id origin
        → Calm self (after_write fresh_id self key r)
    unfolding detect_and_handle_fork
    written-Calm self key (pointers, false) id origin u own = record {
      unforked = u;
      recorded = refl;
      published = refl;
    }
    written-Calm self key (pointers, true) id origin u own =
        let written = record self { crdt_store = record self.crdt_store { pointers = pointers } } in
        subst (λ (b : Bucket). Calm self (fork_of fresh_id written key b)) (sym own)
          (record { unforked = u; recorded = refl; published = refl })

    write_pointer-Calm :
        (self : Adapter o) (key : String) (found : Result Codes)
        → Unforked self.crdt_store.pointers
        → Calm self (write_pointer fresh_id self unclocked key found)
    write_pointer-Calm self key (raise e) u = record {
      unforked = u;
      recorded = refl;
      published = refl;
    }
    write_pointer-Calm self key (ok id) u =
        let pointers = self.crdt_store.pointers in
        written-Calm self key (update_pointer pointers key id unclocked self.replica_id) id
          self.replica_id (call-Unforked pointers key id self.replica_id u)
          (call-own pointers key id self.replica_id u)

    module _ (name : o.Identity → String) where
      advance_pointer-Calm :
          (self : Adapter o) (obj : o.Object)
          → Unforked self.crdt_store.pointers
          → Calm self (advance_pointer fresh_id name self unclocked obj)
      unfolding advance_pointer
      advance_pointer-Calm self obj u =
          let key = name (o.identity obj) in
          let found = object_id_for {o = o} (live obj) in
          elim (Bool-cases (key == "")) [
            | inl here ↦
                subst
                  (λ (b : Bool).
                    Calm self (if b then self else write_pointer fresh_id self unclocked key found))
                  (sym here) (record { unforked = u; recorded = refl; published = refl })
            | inr other ↦
                subst
                  (λ (b : Bool).
                    Calm self (if b then self else write_pointer fresh_id self unclocked key found))
                  (sym other) (write_pointer-Calm self key found u)
          ]

      advance_pointers-Calm :
          (self : Adapter o) (objs : List o.Object)
          → Unforked self.crdt_store.pointers
          → Calm self (advance_pointers fresh_id name self unclocked objs)
      unfolding advance_pointers
      advance_pointers-Calm self [] u = record { unforked = u; recorded = refl; published = refl }
      advance_pointers-Calm self (obj ∷ objs) u =
          let first = advance_pointer-Calm self obj u in
          let rest =
            advance_pointers-Calm (advance_pointer fresh_id name self unclocked obj) objs
              first.unforked in
          record {
            unforked = rest.unforked;
            recorded = rest.recorded ∙ first.recorded;
            published = rest.published ∙ first.published;
          }

      -- A remote session whose metadata has no `crdt_version_vector`, merged where every key has one
      -- pointer at most and that with the empty clock, leaves it so, and no conflict is recorded or
      -- published, however its objects differ from those that were known under the same keys.
      pub merge_crdt_objects-Calm :
          (cks : Validator o) (self : Adapter o) (objects : List o.Object)
          → Unforked self.crdt_store.pointers
          → Calm self
              (merge_crdt_objects fresh_id name cks self
                (record { objects = objects; crdt_version_vector = none })).0
      unfolding from_dict
      merge_crdt_objects-Calm cks self objects u =
          let remote : RemoteObjects o = record { objects = objects; crdt_version_vector = none } in
          let same = merge-advance fresh_id name cks self remote in
          let calm = advance_pointers-Calm self objects u in
          record {
            unforked = subst Unforked (ap (λ s. s.0.0) (sym same)) calm.unforked;
            recorded = ap (λ s. s.0.1) same ∙ calm.recorded;
            published = ap (λ s. s.1) same ∙ calm.published;
          }
