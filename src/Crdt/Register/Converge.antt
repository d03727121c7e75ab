-- ===== src/Crdt/Register/Converge.antt =====
-- Whole runs of `update_pointer` and `resolve_pointer` (src/cks_runtime/crdt/crdt_store.py).
use cks_runtime.Prelude.{
  String, List, [], ◌∷◌, ◌≡◌, refl, sym, ap, ◌∙◌, true, false, some, none, ◌==◌, codes_eq,
  string_eq, inl, inr, if◌then◌else◌, contains, arith, Bool-cases, Option, ◌||◌, codes_beq_iff,
  ==_refl,
}
use mathlib.Core.Path.{subst}
use mathlib.Core.Option.{some-injective}
use cks_runtime.Dict.{get, get_or, put, set_default}
use cks_runtime.Dict.Laws.{get_or-put, get_or-set_default}
use cks_runtime.Crdt.MerkleTree.{Codes}
use cks_runtime.Crdt.MerkleTree.Canonical.{SameIds}
use cks_runtime.Crdt.VersionVector.{VersionVector, clock_of}
use cks_runtime.Crdt.VersionVector.Join.{SameClocks}
use cks_runtime.Crdt.Register.{
  Pointer, Bucket, Pointers, scan, verdict, delete_all, update_bucket, update_pointer, get_pointers,
  resolved, resolve_pointer,
}
use cks_runtime.Crdt.Register.Maximal.{
  Write, write_ids, run, Steady, Holds, empty-Holds, update-Holds,
}

abbrev written : List Codes → List Write → List Codes
written ids [] = ids
written ids (w ∷ writes) = written (w.object_id ∷ ids) writes

contains-written :
    (ids : List Codes) (writes : List Write) (i : Codes)
    → contains (written ids writes) i ≡ (contains ids i || contains (write_ids writes) i)
contains-written ids [] i = ground arith
contains-written ids (w ∷ writes) i = ground (arith, contains-written (w.object_id ∷ ids) writes i)

module _ (content : Codes → VersionVector) where
  run-Holds :
      (bucket : Bucket) (ids : List Codes) (writes : List Write)
      → Steady content writes
      → Holds content bucket ids
      → Holds content (run bucket writes) (written ids writes)
  unfolding run
  run-Holds bucket ids [] s h = h
  run-Holds bucket ids (w ∷ writes) s h =
      run-Holds (update_bucket bucket w.object_id w.clock w.origin_node).0 (w.object_id ∷ ids)
        writes s.1 (update-Holds content bucket ids w h s.0)

  Holds-SameIds :
      (bucket : Bucket) (ids ids' : List Codes)
      → SameIds ids ids'
      → Holds content bucket ids
      → Holds content bucket ids'
  Holds-SameIds bucket ids ids' same h = record {
    dict = h.dict;
    from = λ i p e. let (m, k) = h.from i p e in (sym (same i) ∙ m, k);
    covers = λ i m. h.covers i (same i ∙ m);
    apart = h.apart;
  }

  run-maximal :
      (writes : List Write)
      → Steady content writes
      → Holds content (run [] writes) (write_ids writes)
  run-maximal writes s =
      Holds-SameIds (run [] writes) (written [] writes) (write_ids writes)
        (λ i. contains-written [] writes i) (run-Holds [] [] writes s (empty-Holds content))

  survivor :
      (bucket bucket' : Bucket) (ids ids' : List Codes)
      → SameIds ids ids'
      → Holds content bucket ids
      → Holds content bucket' ids'
      → (i : Codes) (p : Pointer) → get bucket i ≡ some p
      → (j : Codes) × (q : Pointer) × (get bucket' j ≡ some q) × SameClocks p.clock q.clock
  survivor bucket bucket' ids ids' same h h' i p e =
      let (m, own) = h.from i p e in
      let (j, q, there, up) = h'.covers i (sym (same i) ∙ m) in
      let (m', own') = h'.from j q there in
      let (k, r, back, above) = h.covers j (same j ∙ m') in
      (
        j,
        q,
        there,
        λ n. elim (Bool-cases (i == k)) [
          | inl here ↦
              (let same_pointer : r ≡ p =
                  some-injective r p
                    (sym back ∙ ap (get bucket) (sym ((codes_beq_iff i k).0 here)) ∙ e) in
                omega (
                  arith,
                  up n,
                  above n,
                  ap (λ v. clock_of v n) own,
                  ap (λ v. clock_of v n) own',
                  ap (λ (x : Pointer). clock_of x.clock n) same_pointer,
                ))
          | inr other ↦
              (let ((node, ahead), behind) = h.apart i k p r e back other in
                absurd (
                  omega (
                    arith,
                    ahead,
                    up node,
                    above node,
                    ap (λ v. clock_of v node) own,
                    ap (λ v. clock_of v node) own',
                  )))
        ],
      )

-- Calls of `update_pointer` for any keys, one after the other.
unfoldable pub run_pointers : Pointers → List (String × Write) → Pointers
run_pointers pointers [] = pointers
run_pointers pointers ((key, w) ∷ calls) =
    run_pointers (update_pointer pointers key w.object_id w.clock w.origin_node).0 calls

abbrev pub writes_of : String → List (String × Write) → List Write
writes_of key [] = []
writes_of key ((k, w) ∷ calls) = if k == key then w ∷ writes_of key calls else writes_of key calls

module _ (pointers : Pointers) (k key : String) (w : Write) where
  abbrev pub before : Bucket
  before = get_or pointers key []

  abbrev pub after : Bucket → Bucket
  after bucket = (update_bucket bucket w.object_id w.clock w.origin_node).0

  pub update_pointer-bucket :
      get_or (update_pointer pointers k w.object_id w.clock w.origin_node).0 key []
      ≡ (if k == key then after before else before)
  unfolding update_pointer
  update_pointer-bucket =
      let pointers' : Pointers = set_default pointers k [] in
      let stored = after (get_or pointers' k []) in
      let step = get_or-put pointers' k key stored [] in
      (elim (Bool-cases (k == key)) [
        | inl here ↦
            step
            ∙ ap (λ b. if b then stored else get_or pointers' key []) here
            ∙ ap after (
                get_or-set_default pointers k k []
                ∙ ap (λ x. get_or pointers x []) ((string_eq.agrees_iff k key).0 here))
            ∙ sym (ap (λ b. if b then after before else before) here)
        | inr other ↦
            step
            ∙ ap (λ b. if b then stored else get_or pointers' key []) other
            ∙ get_or-set_default pointers k key []
            ∙ sym (ap (λ b. if b then after before else before) other)
      ])

  run-split :
      (writes : List Write)
      → run (if k == key then after before else before) writes
        ≡ run before (if k == key then w ∷ writes else writes)
  unfolding run
  run-split writes = elim (Bool-cases (k == key)) [
    | inl here ↦
        ap (λ b. run (if b then after before else before) writes) here
        ∙ sym (ap (λ b. run before (if b then w ∷ writes else writes)) here)
    | inr other ↦
        ap (λ b. run (if b then after before else before) writes) other
        ∙ sym (ap (λ b. run before (if b then w ∷ writes else writes)) other)
  ]

run_pointers-bucket :
    (pointers : Pointers) (key : String) (calls : List (String × Write))
    → get_pointers (run_pointers pointers calls) key
      ≡ run (get_or pointers key []) (writes_of key calls)
unfolding run_pointers get_pointers run
run_pointers-bucket pointers key [] = refl
run_pointers-bucket pointers key ((k, w) ∷ calls) =
    run_pointers-bucket (update_pointer pointers k w.object_id w.clock w.origin_node).0 key calls
    ∙ ap (λ b. run b (writes_of key calls)) (update_pointer-bucket pointers k key w)
    ∙ run-split pointers k key w (writes_of key calls)

-- If an object is always written to a key with the same clock, then after any calls, which may
-- repeat and reorder writes, the pointers of the key are the maximal ones of the objects that were
-- written to it: each is one of them with its clock, every written clock is at or below that of some
-- pointer, and any two pointers of different objects are concurrent.
pub get_pointers-Holds :
    (content : Codes → VersionVector) (key : String) (calls : List (String × Write))
    → Steady content (writes_of key calls)
    → Holds content (get_pointers (run_pointers [] calls) key) (write_ids (writes_of key calls))
unfolding get_or
get_pointers-Holds content key calls s =
    subst (λ b. Holds content b (write_ids (writes_of key calls)))
      (sym (run_pointers-bucket [] key calls)) (run-maximal content (writes_of key calls) s)

-- Two replicas to which the same objects were written under a key, in whatever order and however
-- often, each object always with the same clock, have pointers with the same clocks: each pointer of
-- the one has a counterpart in the other.
pub get_pointers-converge :
    (content : Codes → VersionVector) (key : String) (calls calls' : List (String × Write))
    → Steady content (writes_of key calls)
    → Steady content (writes_of key calls')
    → SameIds (write_ids (writes_of key calls)) (write_ids (writes_of key calls'))
    → (i : Codes) (p : Pointer) → get (get_pointers (run_pointers [] calls) key) i ≡ some p
    → (j : Codes) × (q : Pointer) × (get (get_pointers (run_pointers [] calls') key) j ≡ some q)
      × SameClocks p.clock q.clock
get_pointers-converge content key calls calls' s s' same i p e =
    survivor content (get_pointers (run_pointers [] calls) key)
      (get_pointers (run_pointers [] calls') key) (write_ids (writes_of key calls))
      (write_ids (writes_of key calls')) same (get_pointers-Holds content key calls s)
      (get_pointers-Holds content key calls' s') i p e

-- A write of an object that is there already replaces its clock, also by one that is behind it.
update_bucket-regress :
    (i : Codes) (p : Pointer) (vv : VersionVector) (origin : String)
    → update_bucket ((i, p) ∷ []) i vv origin
      ≡ ((i, record { clock = vv; origin_node = origin }) ∷ [], true)
unfolding update_bucket scan verdict delete_all put
update_bucket-regress i p vv origin = ground (arith, ==_refl i)

-- What a call of `resolve_pointer` does, from what the bucket holds under the winner.
abbrev pub Resolves : Pointers → String → Codes → String → Option Pointer → Type 0
Resolves pointers key winner k none = resolve_pointer pointers key winner ≡ (pointers, false)
Resolves pointers key winner k (some p) =
    ((resolve_pointer pointers key winner).1 ≡ true)
    × (get_pointers (resolve_pointer pointers key winner).0 k
        ≡ (if key == k then (winner, p) ∷ [] else get_pointers pointers k))

resolve-case :
    (pointers : Pointers) (key : String) (winner : Codes) (k : String) (found : Option Pointer)
    → get (get_or pointers key []) winner ≡ found
    → Resolves pointers key winner k found
unfolding resolve_pointer get_pointers
resolve-case pointers key winner k none e = ap (resolved pointers key winner) e
resolve-case pointers key winner k (some p) e = (
  ap (λ o. (resolved pointers key winner o).1) e,
  ap (λ o. get_or (resolved pointers key winner o).0 k []) e
      ∙ get_or-put pointers key k ((winner, p) ∷ []) [],
)

-- `resolve_pointer` leaves the winner alone under its key and returns true, or changes nothing and
-- returns false where the winner is none of the pointers; other keys keep their pointers.
pub resolve_pointer-Resolves :
    (pointers : Pointers) (key : String) (winner : Codes) (k : String)
    → Resolves pointers key winner k (get (get_pointers pointers key) winner)
unfolding get_pointers
resolve_pointer-Resolves pointers key winner k =
    resolve-case pointers key winner k (get (get_or pointers key []) winner) refl
