-- ===== src/Versioning/Manager/History.antt =====
-- The versions that src/cks_runtime/versioning/version_manager.py makes, as records of states.
use cks_runtime.Prelude.{
  Option, ap, ℕ, suc, String, List, [], ◌∷◌, ◌++◌, ◌≡◌, refl, ap, sym, ◌∙◌, true, false, some, ltb,
  string_eq, length, get_elem?, arith, ◌⊎◌, inl, inr, Bool-cases, ltb→lt, get_elem?-some,
  get_elem?-append_left, get_elem?-append_last, lt_of_get_elem?, length-append,
}
use mathlib.Core.Path.{subst}
use mathlib.Core.Option.{some-injective}
use cks_runtime.Core.{Core}
use cks_runtime.Result.{ok}
use cks_runtime.Session.{add_version, RuntimeSession}
use cks_runtime.Session.Replay.{InFull, AsPatch, Records}
use cks_runtime.Versioning.Version.{RuntimeVersion}
use cks_runtime.Versioning.Manager.{
  attach, create, raise_clocks, records_snapshot, snapshot_version, delta_version, version_for,
}

module _ {c : Core} where
  -- What a version may be that follows the states of a history.
  unfoldable pub Continues : RuntimeVersion c → c.Structure → List c.Structure → Type 0
  Continues v s states =
      InFull c v s
      ⊎ ((k : ℕ) × (p : c.Structure) × (length states ≡ suc k)
          × (get_elem? states k ≡ some p)
          × AsPatch c v p s)

  extend-first :
      (history : List (RuntimeVersion c)) (states : List c.Structure) (v : RuntimeVersion c)
      (s : c.Structure)
      → Records c history states
      → Continues v s states
      → (w : RuntimeVersion c) → get_elem? (history ++ v ∷ []) 0 ≡ some w
      → (t : c.Structure) × (get_elem? (states ++ s ∷ []) 0 ≡ some t) × InFull c w t
  unfolding Continues
  extend-first [] [] v s r (inl full) w e =
      (s, refl, subst (λ x. InFull c x s) (some-injective v w e) full)
  extend-first [] [] v s r (inr (k, p, n, there, delta)) w e = absurd (omega (arith, n))
  extend-first [] (t ∷ ts) v s r how w e = absurd (omega (arith, r.sizes))
  extend-first (h ∷ hs) [] v s r how w e = absurd (omega (arith, r.sizes))
  extend-first (h ∷ hs) (t ∷ ts) v s r how w e = r.first w e

  last-index :
      (history : List (RuntimeVersion c)) (v : RuntimeVersion c) (k : ℕ) (w : RuntimeVersion c)
      → get_elem? (history ++ v ∷ []) (suc k) ≡ some w
      → ltb (suc k) (length history) ≡ false
      → suc k ≡ length history
  last-index history v k w e after =
      let low = lt_of_get_elem? (history ++ v ∷ []) (suc k) w e in
      let n = length-append history (v ∷ []) in ground arith

  extend-last :
      (history : List (RuntimeVersion c)) (states : List c.Structure) (v : RuntimeVersion c)
      (s : c.Structure)
      → Records c history states
      → Continues v s states
      → (k : ℕ) (w : RuntimeVersion c) → suc k ≡ length history
      → v ≡ w
      → (p t : c.Structure) × (get_elem? (states ++ s ∷ []) k ≡ some p)
        × (get_elem? (states ++ s ∷ []) (suc k) ≡ some t)
        × (InFull c w t ⊎ AsPatch c w p t)
  unfolding Continues
  extend-last history states v s r (inl full) k w place same =
      let (p, e) = get_elem?-some states k (omega (arith, place, r.sizes)) in
      (
        p,
        s,
        get_elem?-append_left states (s ∷ []) k (omega (arith, place, r.sizes)) ∙ e,
        ap (get_elem? (states ++ s ∷ [])) (place ∙ r.sizes) ∙ get_elem?-append_last states s,
        inl (subst (λ x. InFull c x s) same full),
      )
  extend-last history states v s r (inr (i, p, n, there, delta)) k w place same =
      let same_index : k ≡ i = omega (arith, place, r.sizes, n) in
      (
        p,
        s,
        get_elem?-append_left states (s ∷ []) k (omega (arith, place, r.sizes))
            ∙ (ap (get_elem? states) same_index ∙ there),
        ap (get_elem? (states ++ s ∷ [])) (place ∙ r.sizes) ∙ get_elem?-append_last states s,
        inr (subst (λ x. AsPatch c x p s) same delta),
      )

  extend-later :
      (history : List (RuntimeVersion c)) (states : List c.Structure) (v : RuntimeVersion c)
      (s : c.Structure)
      → Records c history states
      → Continues v s states
      → (k : ℕ) (w : RuntimeVersion c) → get_elem? (history ++ v ∷ []) (suc k) ≡ some w
      → (p t : c.Structure) × (get_elem? (states ++ s ∷ []) k ≡ some p)
        × (get_elem? (states ++ s ∷ []) (suc k) ≡ some t)
        × (InFull c w t ⊎ AsPatch c w p t)
  unfolding Continues
  extend-later history states v s r how k w e = elim (Bool-cases (ltb (suc k) (length history))) [
    | inl before ↦
        let inside = ltb→lt (suc k) (length history) before in
        let (p, t, e1, e2, how') =
          r.later k w (sym (get_elem?-append_left history (v ∷ []) (suc k) inside) ∙ e) in
        (
          p,
          t,
          get_elem?-append_left states (s ∷ []) k (omega (arith, inside, r.sizes)) ∙ e1,
          get_elem?-append_left states (s ∷ []) (suc k) (omega (arith, inside, r.sizes)) ∙ e2,
          how',
        )
    | inr after ↦
        let place = last-index history v k w e after in
        extend-last history states v s r how k w place (
          some-injective v w (
            sym (get_elem?-append_last history v)
            ∙ (ap (get_elem? (history ++ v ∷ [])) (sym place) ∙ e)))
  ]

  pub extend :
      (history : List (RuntimeVersion c)) (states : List c.Structure) (v : RuntimeVersion c)
      (s : c.Structure)
      → Records c history states
      → Continues v s states
      → Records c (history ++ v ∷ []) (states ++ s ∷ [])
  extend history states v s r how = record {
    sizes = length-append history (v ∷ []) ∙ omega (arith, r.sizes, length-append states (s ∷ []));
    first = extend-first history states v s r how;
    later = extend-later history states v s r how;
  }

  not-first :
      (session : RuntimeSession c) (states : List c.Structure)
      → length session.version_history ≡ length states
      → records_snapshot true session ≡ false
      → (k : ℕ) × (length states ≡ suc k)
  unfolding records_snapshot
  not-first session [] n h = absurd (ground (arith, n, h))
  not-first session (s ∷ states) n h = (length states, refl)

  -- The version that is made for a state records it.
  pub version_for-Continues :
      (session : RuntimeSession c) (version_id : String) (previous : c.Structure)
      (states : List c.Structure)
      → length session.version_history ≡ length states
      → ((k : ℕ) → length states ≡ suc k → get_elem? states k ≡ some previous)
      → (v : RuntimeVersion c) × (version_for true session version_id (some previous) ≡ ok v)
        × (v.version_id ≡ version_id)
        × Continues v session.knowledge_structure states
  unfolding version_for Continues
  version_for-Continues session version_id previous states n last =
      elim (Bool-cases (records_snapshot true session)) [
        | inl full ↦ (
          snapshot_version true session version_id,
          rw full,
          refl,
          inl (record { structure = refl; hash = inl refl }),
        )
        | inr delta ↦
            let (k, few) = not-first session (states) n delta in
            (
              delta_version true session version_id previous,
              rw delta,
              refl,
              inr (
                k,
                previous,
                few,
                last k few,
                record { structure = refl; patch = refl; hash = inl refl },
              ),
            )
      ]

  version_for-made :
      (session : RuntimeSession c) (id : String) (previous : c.Structure)
      → (v : RuntimeVersion c) × (version_for true session id (some previous) ≡ ok v)
        × (v.version_id ≡ id)
  unfolding version_for
  version_for-made session id previous = elim (Bool-cases (records_snapshot true session)) [
    | inl full ↦ (snapshot_version true session id, rw full, refl)
    | inr delta ↦ (delta_version true session id previous, rw delta, refl)
  ]

  -- With a bridge and the state before the transaction, making a version does not fail.
  pub create-made :
      (session : RuntimeSession c) (previous : c.Structure) (node_id replica_id : Option String)
      (id : String)
      → (v : RuntimeVersion c) × (create session true (some previous) node_id replica_id id ≡ (
        add_version
            (record session { metadata = raise_clocks session.metadata node_id replica_id })
            v,
        ok v,
      ))
        × (v.version_id ≡ id)
  unfolding create
  create-made session previous node_id replica_id id =
      let raised : RuntimeSession c = record session {
        metadata = raise_clocks session.metadata node_id replica_id;
      } in
      let (v, made, name) = version_for-made raised id previous in
      (v, ap (attach raised) made, name)
