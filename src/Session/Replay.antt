-- ===== src/Session/Replay.antt =====
-- Reconstruction (src/cks_runtime/session/session.py) against the states that a history records.
use cks_runtime.Prelude.{
  ℕ, zero, suc, ◌+◌, ◌-◌, ◌≤◌, List, [], ◌∷◌, ◌≡◌, refl, ap, sym, ◌∙◌, Bool, true, false, none,
  some, string_eq, get_elem?, is_some, if◌then◌else◌, arith, ◌⊎◌, inl, inr, length, ==_refl,
  Option-cases, get_elem?-some, lt_of_get_elem?,
}
use mathlib.Core.Path.{subst}
use mathlib.Core.Option.{some-injective}
use cks_runtime.Dict.{put, remove}
use cks_runtime.Core.{Core, add_object, remove_object, other, Patch, by_id, AddsNew, Faithful}
use cks_runtime.Result.{ok}
use cks_runtime.Versioning.Version.{RuntimeVersion}
use cks_runtime.Session.{
  Existing, dedupe_from, dedupe_replayed_add_objects, verify_checkpoint, snapshot_at, walk_back,
  replay_version, replay_at, replay, replay_from_snapshot, state_at,
}

module _ (c : Core) where
  dedupe_from_new :
      (existing : Existing c) (patch : Patch c)
      → AddsNew c existing patch
      → dedupe_from c existing patch ≡ patch
  unfolding dedupe_from
  dedupe_from_new existing [] h = refl
  dedupe_from_new existing (add_object obj ∷ ops) h =
      rw (h.0, dedupe_from)
        (ap (◌∷◌ (add_object obj)) (dedupe_from_new (put existing (c.object_id obj) obj) ops h.1))
  dedupe_from_new existing (remove_object id ∷ ops) h =
      ap (◌∷◌ (remove_object id)) (dedupe_from_new (remove existing id) ops h)
  dedupe_from_new existing (other x ∷ ops) h = ap (◌∷◌ (other x)) (dedupe_from_new existing ops h)

  -- A patch that adds only new objects is replayed as it was recorded.
  pub dedupe_new :
      (state : c.Structure) (patch : Patch c)
      → AddsNew c (by_id c (c.objects state) []) patch
      → dedupe_replayed_add_objects c state patch ≡ patch
  unfolding dedupe_replayed_add_objects
  dedupe_new state patch h = ground (arith, dedupe_from_new (by_id c (c.objects state) []) patch h)

  -- A version records a state in full.
  pub record InFull (version : RuntimeVersion c) (state : c.Structure) : Type 0 where
    pub structure : version.knowledge_structure ≡ some state
    pub hash : (version.state_hash ≡ c.hash state) ⊎ (version.state_hash ≡ none)

  -- A version records a state as the difference to the one before.
  pub record AsPatch (version : RuntimeVersion c) (previous state : c.Structure) : Type 0 where
    pub structure : version.knowledge_structure ≡ none
    pub patch : version.patch ≡ some (c.diff previous state)
    pub hash : (version.state_hash ≡ c.hash state) ⊎ (version.state_hash ≡ none)

  -- A history records the states of a list, one for each version, the first one in full.
  pub record Records (history : List (RuntimeVersion c)) (states : List c.Structure) : Type 0 where
    pub sizes : length history ≡ length states
    pub first :
        (v : RuntimeVersion c)
        → get_elem? history 0 ≡ some v
        → (s : c.Structure) × (get_elem? states 0 ≡ some s) × InFull v s
    pub later :
        (k : ℕ) (v : RuntimeVersion c)
        → get_elem? history (suc k) ≡ some v
        → (p s : c.Structure) × (get_elem? states k ≡ some p)
          × (get_elem? states (suc k) ≡ some s)
          × (InFull v s ⊎ AsPatch v p s)

module _ {c : Core} where
  checkpoint_passes :
      (b : Bool) (v : RuntimeVersion c) (s : c.Structure)
      → (v.state_hash ≡ c.hash s) ⊎ (v.state_hash ≡ none)
      → verify_checkpoint b v s ≡ ok tt
  unfolding verify_checkpoint
  checkpoint_passes false v s h = refl
  checkpoint_passes true v s (inr e) = rw (e, verify_checkpoint)
  checkpoint_passes true v s (inl e) = elim (Option-cases (c.hash s)) [
    | inl none_there ↦ rw (e, none_there, verify_checkpoint)
    | inr (actual, there) ↦ rw (e, there, verify_checkpoint) (ground (arith, ==_refl actual))
  ]

  replays :
      (f : Faithful c) (v : RuntimeVersion c) (p s : c.Structure)
      → AsPatch c v p s
      → replay_version p v ≡ ok s
  unfolding replay_version
  replays f v p s a = rw (
    a.patch,
    dedupe_new c p (c.diff p s) (f.diff-AddsNew p s),
    f.evolve-diff p s,
    checkpoint_passes true v s a.hash,
    replay_version,
  )

  -- From the snapshot at which the walk back ends, the replay reaches the state of the index.
  record Reaches (history : List (RuntimeVersion c)) (i : ℕ) (s : c.Structure) : Type 0 where
    index : ℕ
    below : index ≤ i
    start : c.Structure
    version : RuntimeVersion c
    found : walk_back history i ≡ some index
    there : get_elem? history index ≡ some version
    full : InFull c version start
    arrives : replay history (index + 1) (i - index) start ≡ ok s

  snapshot_of :
      (history : List (RuntimeVersion c)) (i : ℕ) (v : RuntimeVersion c)
      → get_elem? history i ≡ some v
      → snapshot_at history i ≡ v.knowledge_structure
  snapshot_of history i v e = rw (e, snapshot_at)

  stops :
      (history : List (RuntimeVersion c)) (i : ℕ) (s : c.Structure)
      → snapshot_at history i ≡ some s
      → walk_back history i ≡ some i
  unfolding walk_back
  stops history zero s e = ap (λ o. if is_some o then some 0 else none) e
  stops history (suc i) s e = ap (λ o. if is_some o then some (suc i) else walk_back history i) e

  goes_on :
      (history : List (RuntimeVersion c)) (i : ℕ)
      → snapshot_at history (suc i) ≡ none
      → walk_back history (suc i) ≡ walk_back history i
  unfolding walk_back
  goes_on history i e = ap (λ o. if is_some o then some (suc i) else walk_back history i) e

  at_once :
      (history : List (RuntimeVersion c)) (i : ℕ) (v : RuntimeVersion c) (s : c.Structure)
      → get_elem? history i ≡ some v
      → InFull c v s
      → Reaches history i s
  unfolding replay
  at_once history i v s e full =
      let no_rounds : i - i ≡ 0 = omega arith in
      record {
        index = i;
        below = omega arith;
        start = s;
        version = v;
        found = stops history i s (snapshot_of history i v e ∙ full.structure);
        there = e;
        full = full;
        arrives = rw no_rounds;
      }

  one_more :
      (f : Faithful c) (history : List (RuntimeVersion c)) (i : ℕ) (v : RuntimeVersion c)
      (p s : c.Structure)
      → get_elem? history (suc i) ≡ some v
      → AsPatch c v p s
      → Reaches history i p
      → Reaches history (suc i) s
  unfolding replay
  one_more f history i v p s e delta r =
      let rounds : suc i - r.index ≡ suc (i - r.index) = omega (arith, r.below) in
      let place : r.index + 1 + (i - r.index) ≡ suc i = omega (arith, r.below) in
      record {
        index = r.index;
        below = omega (arith, r.below);
        start = r.start;
        version = r.version;
        found = goes_on history i (snapshot_of history (suc i) v e ∙ delta.structure) ∙ r.found;
        there = r.there;
        full = r.full;
        arrives = rw rounds (rw r.arrives (rw place (rw (e, replay_at) (replays f v p s delta))));
      }

  reaches :
      (f : Faithful c) (history : List (RuntimeVersion c)) (states : List c.Structure)
      → Records c history states
      → (i : ℕ) (s : c.Structure) → get_elem? states i ≡ some s
      → Reaches history i s
  reaches f history states r zero s e =
      let (v, there) =
        get_elem?-some history 0 (omega (arith, r.sizes, lt_of_get_elem? states 0 s e)) in
      let (s', e', full) = r.first v there in
      at_once history 0 v s there
        (subst (λ t. InFull c v t) (some-injective s' s (sym e' ∙ e)) full)
  reaches f history states r (suc i) s e =
      let (v, there) =
        get_elem?-some history (suc i)
          (omega (arith, r.sizes, lt_of_get_elem? states (suc i) s e)) in
      let (p, s', before, e', how) = r.later i v there in
      subst (λ t. Reaches history (suc i) t) (some-injective s' s (sym e' ∙ e))
        (elim how [
          | inl full ↦ at_once history (suc i) v s' there full
          | inr delta ↦
              one_more f history i v p s' there delta (reaches f history states r i p before)
        ])

  full_case :
      (history : List (RuntimeVersion c)) (i : ℕ) (v : RuntimeVersion c) (s : c.Structure)
      → get_elem? history i ≡ some v
      → InFull c v s
      → state_at history i true ≡ ok s
  unfolding state_at
  full_case history i v s e full =
      rw (e, state_at) (rw full.structure (rw (checkpoint_passes true v s full.hash)))

  delta_case :
      (history : List (RuntimeVersion c)) (i : ℕ) (v : RuntimeVersion c) (s : c.Structure)
      → get_elem? history i ≡ some v
      → v.knowledge_structure ≡ none
      → Reaches history i s
      → state_at history i true ≡ ok s
  unfolding state_at replay_from_snapshot
  delta_case history i v s e delta r =
      rw (e, state_at)
        (rw delta (
          rw r.found (
            rw (r.there, replay_from_snapshot)
              (rw r.full.structure
                (rw (checkpoint_passes true r.version r.start r.full.hash) r.arrives)))))

  -- If a history records a list of states, then reconstructing the version at an index gives the
  -- state recorded there, whether that version is a snapshot or a difference.
  pub state_at-Records :
      (f : Faithful c) (history : List (RuntimeVersion c)) (states : List c.Structure)
      → Records c history states
      → (i : ℕ) (s : c.Structure) → get_elem? states i ≡ some s
      → state_at history i true ≡ ok s
  state_at-Records f history states r zero s e =
      let (v, there) =
        get_elem?-some history 0 (omega (arith, r.sizes, lt_of_get_elem? states 0 s e)) in
      let (s', e', full) = r.first v there in
      full_case history 0 v s there
        (subst (λ t. InFull c v t) (some-injective s' s (sym e' ∙ e)) full)
  state_at-Records f history states r (suc i) s e =
      let (v, there) =
        get_elem?-some history (suc i)
          (omega (arith, r.sizes, lt_of_get_elem? states (suc i) s e)) in
      let (p, s', before, e', how) = r.later i v there in
      subst (λ t. state_at history (suc i) true ≡ ok t) (some-injective s' s (sym e' ∙ e))
        (elim how [
          | inl full ↦ full_case history (suc i) v s' there full
          | inr delta ↦
              delta_case history (suc i) v s' there delta.structure
                (one_more f history i v p s' there delta (reaches f history states r i p before))
        ])
