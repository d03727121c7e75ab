-- ===== src/Storage/Sqlite/Loading.antt =====
-- What src/cks_runtime/storage/sqlite_storage.py reads back after a commit.
use cks_runtime.Prelude.{
  ℕ, String, List, [], ◌∷◌, ◌++◌, true, false, Option, none, some, string_eq, ◌==◌, ==_refl, leb,
  ◌≡◌, refl, sym, ap, ◌∙◌, inl, inr, Bool-cases, select, select-append, sort_by, sort_by-append,
  All, if◌then◌else◌,
}
use cks_runtime.Core.{Exact, Core, Patch}
use cks_runtime.Dict.{get, has, put, values}
use cks_runtime.Dict.Laws.{get-put, values-put}
use cks_runtime.Result.{
  Result, ok, raise, ◌>>=◌, ok_injective, ok-raise, concurrent_modification, integrity_error,
}
use cks_runtime.Session.{RuntimeSession}
use cks_runtime.Versioning.Version.{RuntimeVersion}
use cks_runtime.Storage.PatchCodec.{Item}
use cks_runtime.Storage.PatchCodec.Roundtrip.{
  IsKnown, Freezes, deserialize_operators-serialize_operators,
}
use cks_runtime.Storage.Sqlite.{
  SqliteCodec, map_result, row_of, insert_version, read_patch, version_of, SqliteStorage,
  SessionRow, VersionRow, session_row, write_session, session_data, compare_and_set, save_session,
  version_row, version_texts, save_version, parse_text, read_version, created_before, version_rows,
  read_session, load_row, load_session, row_matches,
}

map_result-step :
    {B : Type 0}
    → (r q : Result B) (m : Result (List B))
    → (r >>= λ b. (m >>= λ bs. q >>= λ d. ok (bs ++ d ∷ [])) >>= λ bs. ok (b ∷ bs))
      ≡ ((r >>= λ b. m >>= λ bs. ok (b ∷ bs)) >>= λ bs. q >>= λ d. ok (bs ++ d ∷ []))
map_result-step (raise e) q m = refl
map_result-step (ok b) q (raise e) = refl
map_result-step (ok b) (raise e) (ok bs) = refl
map_result-step (ok b) (ok d) (ok bs) = refl

-- The last element is the last one that the loop comes to.
map_result-last :
    {A B : Type 0}
    → (f : A → Result B) (xs : List A) (y : A)
    → map_result f (xs ++ y ∷ []) ≡ (map_result f xs >>= λ bs. f y >>= λ d. ok (bs ++ d ∷ []))
unfolding map_result
map_result-last f [] y = refl
map_result-last f (x ∷ xs) y =
    ap (λ r. f x >>= λ b. r >>= λ bs. ok (b ∷ bs)) (map_result-last f xs y)
    ∙ map_result-step (f x) (f y) (map_result f xs)

module _ {c : Core} where
  -- What the engine documents: its text is exact, a patch is its operators, and its constructors freeze
  -- what they are given.
  pub record IsExact (codec : SqliteCodec c) : Type 0 where
    pub structures : Exact codec.structures
    pub patch_of-operators : (p : Patch c) → codec.patch_of (codec.operators p) ≡ p
    pub freezing : Freezes codec.freeze

  -- A version holds a structure or a patch, never both, and a patch has operators of the four classes
  -- with frozen structures.
  abbrev pub Storable : SqliteCodec c → Option c.Structure → Option (Patch c) → Type 0
  Storable codec (some ks) patch = patch ≡ none
  Storable codec none none = Unit
  Storable codec none (some p) = All IsKnown (codec.operators p)

  abbrev pub IsStorable : SqliteCodec c → RuntimeVersion c → Type 0
  IsStorable codec v = Storable codec v.knowledge_structure v.patch

  -- The history that is read for a session.
  abbrev pub loaded_history :
      SqliteCodec c → SqliteStorage c → String → Result (List (RuntimeVersion c))
  loaded_history codec self id = map_result (read_version codec) (version_rows self id)

  -- A session as it is read: without its diagnostics, and attached to no transaction.
  abbrev pub detached : RuntimeSession c → RuntimeSession c
  detached s = record s { diagnostics = []; active_transaction = none }

  -- Nothing of the session was created later.
  abbrev pub IsNewest : SqliteStorage c → String → ℕ → Type 0
  IsNewest self id created_at =
      All (λ (row : VersionRow c). leb row.created_at created_at ≡ true)
        (select (λ (row : VersionRow c). row.session_id == id) (values self.versions))

  texts-read :
      (codec : SqliteCodec c) (ks : Option c.Structure) (patch : Option (Patch c))
      → IsExact codec
      → Storable codec ks patch
      → (t : Option String × Option (List Item)) × (version_texts codec ks patch ≡ ok t)
        × (parse_text codec t.0 ≡ ks)
        × (read_patch codec t.1 ≡ ok patch)
  texts-read codec (some ks) patch exact h = (
    (some (codec.structures.serialize ks), none),
    refl,
    rw (exact.structures.serialize_nonempty ks) (ap some (exact.structures.parse-serialize ks)),
    ap ok (sym h),
  )
  texts-read codec none none exact h = ((none, none), refl, refl, refl)
  texts-read codec none (some p) exact h =
      let (items, written, json, read) =
        deserialize_operators-serialize_operators codec.freeze exact.freezing (codec.operators p)
          h in
      (
        (none, some items),
        ap (λ r. (r >>= λ i. ok (some i)) >>= λ i. ok (none, i)) written,
        refl,
        ap (λ r. r >>= λ ops. ok (some (codec.patch_of ops))) read
            ∙ ap (λ q. ok (some q)) (exact.patch_of-operators p),
      )

  -- A version that can be stored makes a row, and is read from it as it was.
  pub read_version-version_row :
      (codec : SqliteCodec c) (created_at : ℕ) (v : RuntimeVersion c)
      → IsExact codec
      → IsStorable codec v
      → (t : Option String × Option (List Item)) × (version_row codec created_at v
          ≡ ok (row_of created_at v t))
        × (read_version codec (row_of created_at v t) ≡ ok v)
  unfolding read_version version_row
  read_version-version_row codec created_at v exact h =
      let (t, written, ks, patch) = texts-read codec v.knowledge_structure v.patch exact h in
      (
        t,
        ap (λ r. r >>= λ x. ok (row_of created_at v x)) written,
        ap (λ r. r >>= λ p. ok (version_of codec (row_of created_at v t) p)) patch
            ∙ ap (λ x. ok (record v { knowledge_structure = x })) ks,
      )

  pub save_version-stored :
      (codec : SqliteCodec c) (created_at : ℕ) (self after : SqliteStorage c) (v : RuntimeVersion c)
      (t : Option String × Option (List Item))
      → version_row codec created_at v ≡ ok (row_of created_at v t)
      → save_version codec created_at self v ≡ ok after
      → (has self.versions v.version_id ≡ false)
        × (record self { versions = put self.versions v.version_id (row_of created_at v t) }
            ≡ after)
  unfolding save_version
  save_version-stored codec created_at self after v t written saved =
      let stored = record self {
        versions = put self.versions v.version_id (row_of created_at v t);
      } in
      let h : insert_version self (row_of created_at v t) ≡ ok after =
        sym (ap (λ r. r >>= λ row. insert_version self row) written) ∙ saved in
      elim (Bool-cases (has self.versions v.version_id)) [
        | inl there ↦ absurd (
            ok-raise after integrity_error
              (sym h ∙ ap (λ b. if b then raise integrity_error else ok stored) there))
        | inr new ↦ (
          new,
          ok_injective stored after
              (sym (ap (λ b. if b then raise integrity_error else ok stored) new) ∙ h),
        )
      ]

  version_rows-put :
      (self : SqliteStorage c) (row : VersionRow c)
      → has self.versions row.version_id ≡ false
      → IsNewest self row.session_id row.created_at
      → version_rows
          (record self { versions = put self.versions row.version_id row })
          row.session_id
        ≡ version_rows self row.session_id ++ row ∷ []
  unfolding version_rows
  version_rows-put self row new newest =
      let mine = λ (r : VersionRow c). r.session_id == row.session_id in
      ap (λ rows. sort_by created_before (select mine rows))
        (values-put self.versions row.version_id row new)
      ∙ ap (sort_by created_before) (
          select-append mine (values self.versions) (row ∷ [])
          ∙ ap (λ b. select mine (values self.versions) ++ (if b then row ∷ [] else []))
              (==_refl row.session_id))
      ∙ sort_by-append created_before (select mine (values self.versions)) row newest

  set-stored :
      (row : Option SessionRow) (expected : String) (written after : SqliteStorage c)
      → compare_and_set row expected written ≡ ok after
      → written ≡ after
  set-stored none expected written after h = ok_injective written after h
  set-stored (some row) expected written after h = elim (Bool-cases (row_matches row expected)) [
    | inl agreed ↦
        ok_injective written after
          (sym (ap (λ b. if b then ok written else raise concurrent_modification) agreed) ∙ h)
    | inr differs ↦ absurd (
        ok-raise after concurrent_modification
          (sym h ∙ ap (λ b. if b then ok written else raise concurrent_modification) differs))
  ]

  -- A version that is saved and is the newest of its session comes last in the history that is read,
  -- whether or not the session itself is ever saved.
  pub loaded_history-save_version :
      (codec : SqliteCodec c) (created_at : ℕ) (self after : SqliteStorage c) (v : RuntimeVersion c)
      (history : List (RuntimeVersion c))
      → IsExact codec
      → IsStorable codec v
      → IsNewest self v.session_id created_at
      → loaded_history codec self v.session_id ≡ ok history
      → save_version codec created_at self v ≡ ok after
      → loaded_history codec after v.session_id ≡ ok (history ++ v ∷ [])
  loaded_history-save_version codec created_at self after v history exact storable newest before h =
      let (t, written, read) = read_version-version_row codec created_at v exact storable in
      let (new, stored) = save_version-stored codec created_at self after v t written h in
      let row = row_of created_at v t in
      ap (λ t. loaded_history codec t v.session_id) (sym stored)
      ∙ ap (map_result (read_version codec)) (version_rows-put self row new newest)
      ∙ map_result-last (read_version codec) (version_rows self v.session_id) row
      ∙ ap (λ r. r >>= λ bs. read_version codec row >>= λ d. ok (bs ++ d ∷ [])) before
      ∙ ap (λ r. r >>= λ d. ok (history ++ d ∷ [])) read

  pub save_session-stored :
      (codec : SqliteCodec c) (now : ℕ) (self after : SqliteStorage c) (s : RuntimeSession c)
      (expected : Option String)
      → save_session codec now self s expected ≡ ok after
      → write_session codec now s self ≡ after
  unfolding save_session
  save_session-stored codec now self after s none h =
      ok_injective (write_session codec now s self) after h
  save_session-stored codec now self after s (some e) h =
      set-stored (get self.sessions s.session_id) e (write_session codec now s self) after h

  -- What is read is what was written, with the history that the versions make.
  abbrev pub read_back : RuntimeSession c → List (RuntimeVersion c) → RuntimeSession c
  read_back s history = record (detached s) { version_history = history }

  read_session-session_data :
      (codec : SqliteCodec c) (s : RuntimeSession c) (history : List (RuntimeVersion c))
      → IsExact codec
      → read_session codec (session_data codec s) history ≡ read_back s history
  unfolding read_session session_data
  read_session-session_data codec s history exact =
      rw (exact.structures.parse-serialize s.knowledge_structure) refl

  pub load_session-session_row :
      (codec : SqliteCodec c) (now : ℕ) (self : SqliteStorage c) (s : RuntimeSession c)
      (id : String) (history : List (RuntimeVersion c))
      → IsExact codec
      → get self.sessions id ≡ some (session_row codec now s)
      → loaded_history codec self id ≡ ok history
      → load_session codec self id ≡ ok (some (read_back s history))
  unfolding load_session
  load_session-session_row codec now self s id history exact found read =
      ap (load_row codec self id) found
      ∙ ap (λ r. r >>= λ vs. ok (some (read_session codec (session_data codec s) vs))) read
      ∙ ap (λ x. ok (some x)) (read_session-session_data codec s history exact)

  pub get-write_session :
      (codec : SqliteCodec c) (now : ℕ) (self : SqliteStorage c) (s : RuntimeSession c)
      → get (write_session codec now s self).sessions s.session_id ≡ some (session_row codec now s)
  get-write_session codec now self s =
      let row = session_row codec now s in
      get-put self.sessions s.session_id s.session_id row
      ∙ ap (λ b. if b then some row else get self.sessions s.session_id) (==_refl s.session_id)

  -- A commit reads back as it was written, whether its version is a snapshot or a patch: where the
  -- engine keeps what it documents, the history of the tables reads as that of the session before, and
  -- the new version, which can be stored and is newer than those, and then the session are saved
  -- without an error, loading does not raise and gives the session with its whole history, detached
  -- from its transaction and without its diagnostics, which are not stored.
  pub load_session-commit :
      (codec : SqliteCodec c) (created_at now : ℕ) (self stored after : SqliteStorage c)
      (v : RuntimeVersion c) (s : RuntimeSession c) (expected : Option String)
      (history : List (RuntimeVersion c))
      → IsExact codec
      → IsStorable codec v
      → v.session_id ≡ s.session_id
      → IsNewest self v.session_id created_at
      → loaded_history codec self v.session_id ≡ ok history
      → s.version_history ≡ history ++ v ∷ []
      → save_version codec created_at self v ≡ ok stored
      → save_session codec now stored s expected ≡ ok after
      → load_session codec after s.session_id ≡ ok (some (detached s))
  unfolding version_rows
  load_session-commit codec created_at now self stored after v s expected history exact storable
        same newest before grown saved committed =
      ap (λ t. load_session codec t s.session_id)
        (sym (save_session-stored codec now stored after s expected committed))
      ∙ load_session-session_row codec now (write_session codec now s stored) s s.session_id
          (history ++ v ∷ []) exact (get-write_session codec now stored s)
          (ap (loaded_history codec stored) (sym same)
            ∙ loaded_history-save_version codec created_at self stored v history exact storable
                newest before saved)
      ∙ ap (λ h. ok (some (read_back s h))) (sym grown)
