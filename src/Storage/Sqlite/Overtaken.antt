-- ===== src/Storage/Sqlite/Overtaken.antt =====
-- Two writers of one session over src/cks_runtime/storage/sqlite_storage.py, as the commits of
-- src/cks_runtime/pipeline/execution_pipeline.py call it: the version first, then the session.
use cks_runtime.Prelude.{
  ℕ, String, List, [], ◌∷◌, ◌++◌, false, Option, some, string_eq, ◌==◌, ◌≡◌, sym, ap, ◌∙◌,
  if◌then◌else◌, append_assoc,
}
use cks_runtime.Core.{Core}
use cks_runtime.Dict.{get}
use cks_runtime.Result.{ok, raise, concurrent_modification}
use cks_runtime.Session.{RuntimeSession}
use cks_runtime.Storage.Memory.{latest_version_id, same_id}
use cks_runtime.Versioning.Version.{RuntimeVersion}
use cks_runtime.Storage.Sqlite.{
  SqliteCodec, SqliteStorage, session_row, write_session, compare_and_set, save_session,
  save_version, load_session, version_rows,
}
use cks_runtime.Storage.Sqlite.Loading.{
  IsExact, IsStorable, read_version-version_row, IsNewest, loaded_history, read_back,
  save_version-stored, save_session-stored, loaded_history-save_version, load_session-session_row,
  get-write_session,
}

module _ {c : Core} where
  -- The row that the first writer leaves, which the second one's version does not touch.
  committed_row :
      (codec : SqliteCodec c) (now created_at : ℕ) (before between after : SqliteStorage c)
      (first : RuntimeSession c) (b : RuntimeVersion c) (expected : Option String)
      → IsExact codec
      → IsStorable codec b
      → save_session codec now before first expected ≡ ok between
      → save_version codec created_at between b ≡ ok after
      → get after.sessions first.session_id ≡ some (session_row codec now first)
  committed_row codec now created_at before between after first b expected exact storable h k =
      let (texts, written, _) = read_version-version_row codec created_at b exact storable in
      ap (λ (t : SqliteStorage c). get t.sessions first.session_id)
        (sym (save_version-stored codec created_at between after b texts written k).1)
      ∙ ap (λ (t : SqliteStorage c). get t.sessions first.session_id)
          (sym (save_session-stored codec now before between first expected h))
      ∙ get-write_session codec now before first

  -- Saving a session changes no history.
  loaded_history-save_session :
      (codec : SqliteCodec c) (now : ℕ) (self after : SqliteStorage c) (s : RuntimeSession c)
      (expected : Option String) (id : String)
      → save_session codec now self s expected ≡ ok after
      → loaded_history codec after id ≡ loaded_history codec self id
  unfolding version_rows
  loaded_history-save_session codec now self after s expected id h =
      ap (λ t. loaded_history codec t id)
        (sym (save_session-stored codec now self after s expected h))

  save_session-refused :
      (codec : SqliteCodec c) (now later : ℕ) (self : SqliteStorage c)
      (first second : RuntimeSession c) (expected new : String)
      → first.session_id ≡ second.session_id
      → get self.sessions first.session_id ≡ some (session_row codec now first)
      → latest_version_id first ≡ some new
      → new == expected ≡ false
      → save_session codec later self second (some expected) ≡ raise concurrent_modification
  unfolding save_session
  save_session-refused codec now later self first second expected new same found latest other =
      let written = write_session codec later second self in
      ap (λ id. compare_and_set (get self.sessions id) expected written) (sym same)
      ∙ ap (λ row. compare_and_set row expected written) found
      ∙ ap (λ l. if same_id l expected then ok written else raise concurrent_modification) latest
      ∙ ap (λ b. if b then ok written else raise concurrent_modification) other

  -- A commit that was overtaken leaves its version behind: where the engine keeps what it documents,
  -- the versions a and b can be stored and each is the newest of the session when it is saved, and the
  -- history of the tables can be read, when a first writer has committed version a against the
  -- expected version and a second one saves its version b of the same session, the second one's save
  -- of the session against the same expected version is refused, and yet the session that is loaded
  -- from then on is the first writer's with the refused version b at the end of its history.
  pub load_session-overtaken :
      (codec : SqliteCodec c) (t1 t2 now later : ℕ) (self s1 s2 s3 : SqliteStorage c)
      (a b : RuntimeVersion c) (first second : RuntimeSession c) (expected : String)
      (history : List (RuntimeVersion c))
      → IsExact codec
      → IsStorable codec a × IsStorable codec b
      → (a.session_id ≡ first.session_id)
        × (b.session_id ≡ first.session_id)
        × (first.session_id ≡ second.session_id)
      → IsNewest self a.session_id t1 × IsNewest s2 b.session_id t2
      → loaded_history codec self first.session_id ≡ ok history
      → latest_version_id first ≡ some a.version_id
      → a.version_id == expected ≡ false
      → save_version codec t1 self a ≡ ok s1
      → save_session codec now s1 first (some expected) ≡ ok s2
      → save_version codec t2 s2 b ≡ ok s3
      → (save_session codec later s3 second (some expected) ≡ raise concurrent_modification)
        × (load_session codec s3 first.session_id
            ≡ ok (some (read_back first (history ++ a ∷ b ∷ []))))
  load_session-overtaken codec t1 t2 now later self s1 s2 s3 a b first second expected history exact
        (storable_a, storable_b) (same_a, same_b, same) (newest_a, newest_b) before latest other h1
        h2 h3 =
      let row =
        committed_row codec now t2 s1 s2 s3 first b (some expected) exact storable_b h2 h3 in
      let id = first.session_id in
      let reads_a : loaded_history codec s1 id ≡ ok (history ++ a ∷ []) =
        ap (loaded_history codec s1) (sym same_a)
        ∙ loaded_history-save_version codec t1 self s1 a history exact storable_a newest_a
            (ap (loaded_history codec self) same_a ∙ before) h1 in
      let reads_2 : loaded_history codec s2 id ≡ ok (history ++ a ∷ []) =
        loaded_history-save_session codec now s1 s2 first (some expected) id h2 ∙ reads_a in
      let reads_b : loaded_history codec s3 id ≡ ok ((history ++ a ∷ []) ++ b ∷ []) =
        ap (loaded_history codec s3) (sym same_b)
        ∙ loaded_history-save_version codec t2 s2 s3 b (history ++ a ∷ []) exact storable_b newest_b
            (ap (loaded_history codec s2) same_b ∙ reads_2) h3 in
      (
        save_session-refused codec now later s3 first second expected a.version_id same row latest
            other,
        load_session-session_row codec now s3 first id (history ++ a ∷ b ∷ []) exact row
            (reads_b ∙ ap ok (append_assoc history (a ∷ []) (b ∷ []))),
      )
