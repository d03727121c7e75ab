-- ===== src/GarbageCollector/Sweeping.antt =====
-- What a sweep of src/cks_runtime/gc/garbage_collector.py takes and what it leaves.
use cks_runtime.Prelude.{
  ℕ, ◌-◌, String, List, [], ◌∷◌, true, false, Option, none, some, string_eq, ◌==◌, ==_refl, ◌≡◌,
  refl, sym, ap, ◌∙◌, inl, inr, ◌⊎◌, arith, Bool-cases, All-take, All-select, All-weaken,
  All-sort_by, sort_by, select, All, if◌then◌else◌,
}
use mathlib.Core.Path.{subst}
use cks_runtime.Core.{Core}
use cks_runtime.Result.{Result, ok, raise, ◌>>=◌}
use cks_runtime.Dict.{Dict, get, keys, IsDict}
use cks_runtime.Dict.Laws.{get-put, get-remove}
use cks_runtime.Session.{RuntimeSession}
use cks_runtime.Versioning.Version.{RuntimeVersion}
use cks_runtime.Storage.Sqlite.{
  SqliteCodec, map_result, SqliteStorage, SessionRow, archived, archive_session, load_all,
  with_loaded, load_session, load_row, list_sessions_modified_before, version_rows, read_version,
  read_session, oldest_sessions, modified_before, modified_first,
}
use cks_runtime.GarbageCollector.{GarbageCollector, archive_closed, swept, sweep}

archived-other :
    (archive : Dict String SessionRow) (closing id : String) (row : Option SessionRow)
    → closing == id ≡ false
    → get (archived archive closing row) id ≡ get archive id
archived-other archive closing id none other = refl
archived-other archive closing id (some row) other =
    get-put archive closing id row ∙ ap (λ b. if b then some row else get archive id) other

-- What may become of the row of a session: it stays, or, if the session is closed and was last
-- modified before the cutoff, it is moved to the archive as it was.
abbrev pub Kept : {c : Core} → ℕ → SqliteStorage c → String → SessionRow → Type 0
Kept cutoff after id row =
    (get after.sessions id ≡ some row)
    ⊎ ((row.payload.closed ≡ true)
        × (modified_before cutoff row ≡ true)
        × (get after.sessions id ≡ none)
        × (get after.archive_sessions id ≡ some row))

module _ {c : Core} where
  archive_session-other :
      (self : SqliteStorage c) (closing id : String)
      → closing == id ≡ false
      → (get (archive_session self closing).sessions id ≡ get self.sessions id)
        × (get (archive_session self closing).archive_sessions id ≡ get self.archive_sessions id)
  unfolding archive_session
  archive_session-other self closing id other = (
    get-remove self.sessions closing id ∙ ap (λ b. if b then none else get self.sessions id) other,
    archived-other self.archive_sessions closing id (get self.sessions closing) other,
  )

  archive_session-moved :
      (self : SqliteStorage c) (id : String) (row : SessionRow)
      → get self.sessions id ≡ some row
      → (get (archive_session self id).sessions id ≡ none)
        × (get (archive_session self id).archive_sessions id ≡ some row)
  unfolding archive_session
  archive_session-moved self id row found = (
    get-remove self.sessions id id
        ∙ ap (λ b. if b then none else get self.sessions id) (==_refl id),
    ap (λ r. get (archived self.archive_sessions id r) id) found
        ∙ get-put self.archive_sessions id id row
        ∙ ap (λ b. if b then some row else get self.archive_sessions id) (==_refl id),
  )

  -- A second archival of a session that is gone changes nothing for it.
  archive_session-gone :
      (self : SqliteStorage c) (id : String)
      → get self.sessions id ≡ none
      → (get (archive_session self id).sessions id ≡ none)
        × (get (archive_session self id).archive_sessions id ≡ get self.archive_sessions id)
  unfolding archive_session
  archive_session-gone self id gone = (
    get-remove self.sessions id id
        ∙ ap (λ b. if b then none else get self.sessions id) (==_refl id),
    ap (λ r. get (archived self.archive_sessions id r) id) gone,
  )

  -- A candidate is what was loaded of a row that is old enough.
  abbrev pub Found : ℕ → SqliteStorage c → RuntimeSession c → Type 0
  Found cutoff before session =
      (row : SessionRow) × (get before.sessions session.session_id ≡ some row)
      × (row.payload.closed ≡ session.closed)
      × (modified_before cutoff row ≡ true)

  -- The row is in the table or in the archive.
  abbrev AllKept : ℕ → SqliteStorage c → SqliteStorage c → Type 0
  AllKept cutoff before after =
      (id : String) (row : SessionRow)
      → get before.sessions id ≡ some row
      → Kept cutoff after id row

  Kept-other :
      (cutoff : ℕ) (now : SqliteStorage c) (closing id : String) (row : SessionRow)
      → closing == id ≡ false
      → Kept cutoff now id row
      → Kept cutoff (archive_session now closing) id row
  Kept-other cutoff now closing id row other (inl stays) =
      inl ((archive_session-other now closing id other).0 ∙ stays)
  Kept-other cutoff now closing id row other (inr (closed, old, gone, there)) =
      let (sessions, archive) = archive_session-other now closing id other in
      inr (closed, old, sessions ∙ gone, archive ∙ there)

  Kept-moved :
      (cutoff : ℕ) (now : SqliteStorage c) (id : String) (row : SessionRow)
      → row.payload.closed ≡ true
      → modified_before cutoff row ≡ true
      → Kept cutoff now id row
      → Kept cutoff (archive_session now id) id row
  Kept-moved cutoff now id row closed old (inl stays) =
      let (sessions, archive) = archive_session-moved now id row stays in
      inr (closed, old, sessions, archive)
  Kept-moved cutoff now id row closed old (inr (_, _, gone, there)) =
      let (sessions, archive) = archive_session-gone now id gone in
      inr (closed, old, sessions, archive ∙ there)

  archive_session-Kept :
      (cutoff : ℕ) (before now : SqliteStorage c) (session : RuntimeSession c)
      → Found cutoff before session
      → session.closed ≡ true
      → AllKept cutoff before now
      → AllKept cutoff before (archive_session now session.session_id)
  archive_session-Kept cutoff before now session (row, found, same, old) closed kept id r there =
      elim (Bool-cases (session.session_id == id)) [
        | inl e ↦
            (let name = (string_eq.agrees_iff session.session_id id).0 e in
              let one : row ≡ r =
                ap (λ (o : Option SessionRow). elim o [ none ↦ row | some x ↦ x ])
                  (sym found ∙ ap (get before.sessions) name ∙ there) in
              subst (λ i. Kept cutoff (archive_session now i) id r) (sym name)
                (Kept-moved cutoff now id r
                  (subst (λ (x : SessionRow). x.payload.closed ≡ true) one (same ∙ closed))
                  (subst (λ (x : SessionRow). modified_before cutoff x ≡ true) one old)
                  (kept id r there)))
        | inr e ↦ Kept-other cutoff now session.session_id id r e (kept id r there)
      ]

  archive_closed-Kept :
      (cutoff : ℕ) (before now : SqliteStorage c) (candidates : List (RuntimeSession c))
      → All (Found cutoff before) candidates
      → AllKept cutoff before now
      → AllKept cutoff before (archive_closed candidates now)
  unfolding archive_closed
  archive_closed-Kept cutoff before now [] found kept = kept
  archive_closed-Kept cutoff before now (session ∷ candidates) found kept =
      elim (Bool-cases session.closed) [
        | inl closed ↦ rw closed (
            archive_closed-Kept cutoff before (archive_session now session.session_id) candidates
              found.1 (archive_session-Kept cutoff before now session found.0 closed kept))
        | inr live ↦ rw live (archive_closed-Kept cutoff before now candidates found.1 kept)
      ]

-- Each row is filed under the id of its session, and once.
pub record IsFiled {c : Core} (self : SqliteStorage c) : Type 0 where
  pub unique : IsDict self.sessions
  pub filed : All (λ (r : String × SessionRow). r.1.payload.session_id ≡ r.0) self.sessions

get-filed :
    (rows : Dict String SessionRow) (id : String) (row : SessionRow)
    → All (λ (r : String × SessionRow). r.1.payload.session_id ≡ r.0) rows
    → get rows id ≡ some row
    → row.payload.session_id ≡ id
unfolding get
get-filed [] id row filed found = absurd (ground arith)
get-filed ((j, r) ∷ rows) id row filed found = elim (Bool-cases (j == id)) [
  | inl same ↦ ground (arith, rw same at found, filed.0, (string_eq.agrees_iff j id).0 same)
  | inr differs ↦ get-filed rows id row filed.1 (rw differs at found)
]

get-behind :
    (id : String) (row : SessionRow) (rows : Dict String SessionRow) (other : String)
    (r : SessionRow)
    → get rows id ≡ none
    → get rows other ≡ some r
    → get ((id, row) ∷ rows) other ≡ some r
unfolding get
get-behind id row rows other r absent found = elim (Bool-cases (id == other)) [
  | inl same ↦
      absurd (
        ground (arith, sym absent ∙ ap (get rows) ((string_eq.agrees_iff id other).0 same) ∙ found))
  | inr differs ↦ ap (λ b. if b then some row else get rows other) differs ∙ found
]

All-get :
    (rows : Dict String SessionRow)
    → IsDict rows
    → All (λ (r : String × SessionRow). get rows r.0 ≡ some r.1) rows
unfolding get
All-get [] h = tt
All-get ((id, row) ∷ rows) h = (
  ap (λ b. if b then some row else get rows id) (==_refl id),
  All-weaken (λ (r : String × SessionRow). get rows r.0 ≡ some r.1)
      (λ (r : String × SessionRow). get ((id, row) ∷ rows) r.0 ≡ some r.1) rows
      (λ r found. get-behind id row rows r.0 r.1 h.0 found) (All-get rows h.1),
)

module _ {c : Core} where
  -- An entry of the query is a row of the table that is old enough.
  abbrev pub Entry : ℕ → SqliteStorage c → String × SessionRow → Type 0
  Entry cutoff self r = (get self.sessions r.0 ≡ some r.1) × (modified_before cutoff r.1 ≡ true)

  pub oldest_sessions-Entry :
      (cutoff limit : ℕ) (self : SqliteStorage c)
      → IsDict self.sessions
      → All (Entry cutoff self) (oldest_sessions (modified_before cutoff) limit self.sessions)
  unfolding oldest_sessions
  oldest_sessions-Entry cutoff limit self unique =
      let keep = λ (r : String × SessionRow). modified_before cutoff r.1 in
      let found = λ (r : String × SessionRow). get self.sessions r.0 ≡ some r.1 in
      All-take (Entry cutoff self) limit (sort_by modified_first (select keep self.sessions)) (
        All-sort_by modified_first (Entry cutoff self) (select keep self.sessions)
          (All-select found keep self.sessions (All-get self.sessions unique)))

  -- All of what was read, where nothing was raised.
  abbrev pub AllRead : (RuntimeSession c → Type 0) → Result (List (RuntimeSession c)) → Type 0
  AllRead P (raise e) = Unit
  AllRead P (ok sessions) = All P sessions

  abbrev AllFound : (RuntimeSession c → Type 0) → Option (RuntimeSession c) → Type 0
  AllFound P none = Unit
  AllFound P (some s) = P s

  AllRead-with :
      (P : RuntimeSession c → Type 0) (found : Option (RuntimeSession c))
      (rest : Result (List (RuntimeSession c)))
      → AllFound P found
      → AllRead P rest
      → AllRead P (rest >>= λ sessions. ok (with_loaded found sessions))
  AllRead-with P found (raise e) h k = tt
  AllRead-with P none (ok sessions) h k = k
  AllRead-with P (some s) (ok sessions) h k = (h, k)

  -- A row that is read gives a session with its id and its flag.
  pub AllRead-row :
      (codec : SqliteCodec c) (P : RuntimeSession c → Type 0) (row : SessionRow)
      (history : Result (List (RuntimeVersion c))) (rest : Result (List (RuntimeSession c)))
      → ((versions : List (RuntimeVersion c)) → P (read_session codec row.payload versions))
      → AllRead P rest
      → AllRead P (
          (history >>= λ versions. ok (some (read_session codec row.payload versions))) >>= λ found.
          rest >>= λ sessions. ok (with_loaded found sessions))
  AllRead-row codec P row (raise e) rest h k = tt
  AllRead-row codec P row (ok versions) rest h k =
      AllRead-with P (some (read_session codec row.payload versions)) rest (h versions) k

  pub load_all-Found :
      (codec : SqliteCodec c) (cutoff : ℕ) (self : SqliteStorage c)
      (entries : Dict String SessionRow)
      → IsFiled self
      → All (Entry cutoff self) entries
      → AllRead (Found cutoff self) (load_all codec self (keys entries))
  unfolding load_all load_session read_session
  load_all-Found codec cutoff self [] filed h = tt
  load_all-Found codec cutoff self ((id, row) ∷ entries) filed h =
      subst
        (λ o. AllRead (Found cutoff self) (
          load_row codec self id o >>= λ found.
          load_all codec self (keys entries) >>= λ sessions. ok (with_loaded found sessions)))
        (sym h.0.0)
        (AllRead-row codec (Found cutoff self) row
          (map_result (read_version codec) (version_rows self id))
          (load_all codec self (keys entries))
          (λ versions. (
            row,
            ap (get self.sessions) (get-filed self.sessions id row filed.filed h.0.0) ∙ h.0.0,
            refl,
            h.0.1,
          ))
          (load_all-Found codec cutoff self entries filed h.1))

  swept-Kept :
      (cutoff : ℕ) (storage : SqliteStorage c) (candidates : Result (List (RuntimeSession c)))
      → AllRead (Found cutoff storage) candidates
      → AllKept cutoff storage (swept storage candidates).0
  swept-Kept cutoff storage (raise e) found = λ i r h. inl h
  swept-Kept cutoff storage (ok candidates) found =
      archive_closed-Kept cutoff storage storage candidates found (λ i r h. inl h)

  -- A sweep loses nothing and archives only what it may, also where its query raises: after it, the row
  -- of every session is where it was, or the session is closed, was last modified before the cutoff,
  -- is gone from the table and stands in the archive with the row it had. The sessions are filed under
  -- their own ids, once.
  pub sweep-Kept :
      (self : GarbageCollector) (codec : SqliteCodec c) (now : ℕ) (storage : SqliteStorage c)
      (id : String) (row : SessionRow)
      → IsFiled storage
      → get storage.sessions id ≡ some row
      → Kept (now - self.retention) (sweep self codec now storage).0 id row
  unfolding sweep list_sessions_modified_before
  sweep-Kept self codec now storage id row filed found =
      let cutoff = now - self.retention in
      let entries = oldest_sessions (modified_before cutoff) self.batch_size storage.sessions in
      swept-Kept cutoff storage (load_all codec storage (keys entries))
        (load_all-Found codec cutoff storage entries filed
          (oldest_sessions-Entry cutoff self.batch_size storage filed.unique))
        id row found
