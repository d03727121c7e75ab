-- ===== src/Versioning/Manager/Commits.antt =====
-- A run of commits, and the states that `RuntimeSession.get_version_state` gives back after it.
use cks_runtime.Prelude.{
  ℕ, suc, String, List, [], ◌∷◌, ◌++◌, ◌≡◌, refl, ap, sym, ◌∙◌, true, Option, none, some, ◌==◌,
  string_eq, length, get_elem?, if◌then◌else◌, arith, inl, inr, Bool-cases, get_elem?-append_last,
  length-append, append-nil, append_assoc,
}
use mathlib.Core.Path.{subst}
use cks_runtime.Core.{Core, Faithful}
use cks_runtime.Dict.{Dict, get, values}
use cks_runtime.Result.{Result, ok}
use cks_runtime.Session.{RuntimeSession, add_version, version_index, get_version_state}
use cks_runtime.Session.Replay.{Records, state_at-Records}
use cks_runtime.Versioning.Version.{RuntimeVersion}
use cks_runtime.Versioning.Manager.History.{extend, version_for-Continues}
use cks_runtime.Versioning.Manager.{attach, version_for, raise_clocks, create}

values-append :
    {A : Type 0}
    → (commits : Dict String A) (id : String) (s : A)
    → values (commits ++ (id, s) ∷ []) ≡ values commits ++ s ∷ []
values-append [] id s = refl
values-append ((id', s') ∷ commits) id s = ap (◌∷◌ s') (values-append commits id s)

module _ {c : Core} where
  -- The ids of the versions are the keys of the commits.
  abbrev Named : List (RuntimeVersion c) → Dict String c.Structure → Type 0
  Named [] [] = Unit
  Named [] ((id, s) ∷ commits) = ⊥
  Named (v ∷ versions) [] = ⊥
  Named (v ∷ versions) ((id, s) ∷ commits) = (v.version_id ≡ id) × Named versions commits

  Named-append :
      (history : List (RuntimeVersion c)) (commits : Dict String c.Structure) (v : RuntimeVersion c)
      (id : String) (s : c.Structure)
      → Named history commits
      → v.version_id ≡ id
      → Named (history ++ v ∷ []) (commits ++ (id, s) ∷ [])
  Named-append [] [] v id s h e = (e, tt)
  Named-append [] ((id', s') ∷ commits) v id s h e = elim h [ ]
  Named-append (w ∷ history) [] v id s h e = elim h [ ]
  Named-append (w ∷ history) ((id', s') ∷ commits) v id s h e =
      (h.0, Named-append history commits v id s h.1 e)

  -- A version id is found at the place of the first commit under it.
  version_index-Named :
      (history : List (RuntimeVersion c)) (commits : Dict String c.Structure) (id : String)
      (s : c.Structure)
      → Named history commits
      → get commits id ≡ some s
      → (i : ℕ) × (version_index history id ≡ some i) × (get_elem? (values commits) i ≡ some s)
  unfolding version_index get
  version_index-Named [] [] id s h e = absurd (ground arith)
  version_index-Named [] ((id', s') ∷ commits) id s h e = elim h [ ]
  version_index-Named (w ∷ history) [] id s h e = elim h [ ]
  version_index-Named (w ∷ history) ((id', s') ∷ commits) id s h e = elim (Bool-cases (id' == id)) [
    | inl here ↦ (
      0,
      ap
          (λ b.
            if b
            then some 0
            else (elim (version_index history id) [ none ↦ none | some i ↦ some (suc i) ]))
          (ap (λ x. x == id) h.0 ∙ here),
      ap (λ b. if b then some s' else get commits id) (sym here) ∙ e,
    )
    | inr elsewhere ↦
        let (i, found, there) =
          version_index-Named history commits id s h.1
            (ap (λ b. if b then some s' else get commits id) (sym elsewhere) ∙ e) in
        (
          suc i,
          ap
                (λ b.
                  if b
                  then some 0
                  else (elim (version_index history id) [ none ↦ none | some i ↦ some (suc i) ]))
                (ap (λ x. x == id) h.0 ∙ elsewhere)
              ∙ ap (λ (o : Option ℕ). elim o [ none ↦ none | some i ↦ some (suc i) ]) found,
          there,
        )
  ]

  -- A session whose versions are those of a list of commits, the last of which is its state.
  record Tracks (session : RuntimeSession c) (commits : Dict String c.Structure) : Type 0 where
    records : Records c session.version_history (values commits)
    named : Named session.version_history commits
    last :
        (k : ℕ)
        → length (values commits) ≡ suc k
        → get_elem? (values commits) k ≡ some session.knowledge_structure

  nothing : (session : RuntimeSession c) → session.version_history ≡ [] → Tracks session []
  nothing session new = record {
    records = record {
      sizes = ap length new;
      first = λ v e. absurd (ground (arith, sym (ap (λ h. get_elem? h 0) new) ∙ e));
      later = λ k v e. absurd (ground (arith, sym (ap (λ h. get_elem? h (suc k)) new) ∙ e));
    };
    named = subst (λ h. Named h []) (sym new) tt;
    last = λ k n. absurd (omega (arith, n));
  }

  module _ (node_id replica_id : Option String) where
    abbrev moved : RuntimeSession c → c.Structure → RuntimeSession c
    moved session state = record session {
      knowledge_structure = state;
      metadata = raise_clocks session.metadata node_id replica_id;
    }

    -- A transaction that takes the session to a state: the version is made with the state before it.
    unfoldable pub commit_state :
        RuntimeSession c → String → c.Structure → RuntimeSession c × Result (RuntimeVersion c)
    unfolding create
    commit_state session version_id state =
        create (record session { knowledge_structure = state }) true
          (some session.knowledge_structure) node_id replica_id version_id

    commit_state-attach :
        (session : RuntimeSession c) (id : String) (state : c.Structure)
        → commit_state session id state
          ≡ attach
              (moved session state)
              (version_for true (moved session state) id (some session.knowledge_structure))
    unfolding commit_state create
    commit_state-attach session id state = refl

    commit_state-Tracks :
        (session : RuntimeSession c) (commits : Dict String c.Structure) (id : String)
        (state : c.Structure)
        → Tracks session commits
        → Tracks (commit_state session id state).0 (commits ++ (id, state) ∷ [])
    commit_state-Tracks session commits id state t =
        let (v, made, name, how) =
          version_for-Continues (moved session state) id session.knowledge_structure
            (values commits) t.records.sizes t.last in
        let done : (commit_state session id state).0 ≡ add_version (moved session state) v =
          ap (λ r. r.0)
            (commit_state-attach session id state ∙ ap (attach (moved session state)) made) in
        subst (λ s. Tracks s (commits ++ (id, state) ∷ [])) (sym done)
          (record {
            records =
                rw (values-append commits id state)
                  (extend session.version_history (values commits) v state t.records how);
            named = Named-append session.version_history commits v id state t.named name;
            last = λ k n.
                let place : k ≡ length (values commits) = omega (
                  arith,
                  n,
                  ap length (values-append commits id state),
                  length-append (values commits) (state ∷ []),
                ) in
                ap (λ xs. get_elem? xs k) (values-append commits id state)
                ∙ ap (get_elem? (values commits ++ state ∷ [])) place
                ∙ get_elem?-append_last (values commits) state;
          })

    -- The commits of a list, one after the other.
    unfoldable pub commit_all : RuntimeSession c → Dict String c.Structure → RuntimeSession c
    commit_all session [] = session
    commit_all session ((id, state) ∷ commits) =
        commit_all (commit_state session id state).0 commits

    commit_all-Tracks :
        (session : RuntimeSession c) (before commits : Dict String c.Structure)
        → Tracks session before
        → Tracks (commit_all session commits) (before ++ commits)
    unfolding commit_all
    commit_all-Tracks session before [] t = rw (append-nil before) t
    commit_all-Tracks session before ((id, state) ∷ commits) t =
        rw (sym (append_assoc before ((id, state) ∷ []) commits)) (
          commit_all-Tracks (commit_state session id state).0 (before ++ (id, state) ∷ []) commits
            (commit_state-Tracks session before id state t))

    -- After any run of commits with a bridge on a session without versions, the reconstruction of a
    -- version id gives the state that the first commit under that id recorded, if the engine keeps
    -- what it documents of `diff` and `evolve`.
    pub get_version_state-commit_all :
        (f : Faithful c) (session : RuntimeSession c) (commits : Dict String c.Structure)
        → session.version_history ≡ []
        → (id : String) (state : c.Structure) → get commits id ≡ some state
        → get_version_state (commit_all session commits) id true ≡ ok state
    unfolding get_version_state
    get_version_state-commit_all f session commits new id state e =
        let t = commit_all-Tracks session [] commits (nothing session new) in
        let (i, found, there) =
          version_index-Named (commit_all session commits).version_history commits id state t.named
            e in
        rw (found, get_version_state)
          (state_at-Records f (commit_all session commits).version_history (values commits)
            t.records i state there)
