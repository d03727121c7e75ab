-- ===== src/GarbageCollector/Starvation.antt =====
-- Sweeps of src/cks_runtime/gc/garbage_collector.py that find open sessions only.
use cks_runtime.Prelude.{ℕ, ◌-◌, String, List, [], ◌∷◌, false, string_eq, ◌≡◌, refl, sym, All}
use mathlib.Core.Path.{subst}
use cks_runtime.Core.{Core}
use cks_runtime.Result.{Result, ok, raise, ◌>>=◌}
use cks_runtime.Dict.{Dict, keys}
use cks_runtime.Session.{RuntimeSession}
use cks_runtime.Storage.Sqlite.{
  SqliteCodec, map_result, read_version, version_rows, SqliteStorage, SessionRow, load_all,
  load_row, load_session, with_loaded, read_session, list_sessions_modified_before, oldest_sessions,
  modified_before,
}
use cks_runtime.GarbageCollector.{GarbageCollector, archive_closed, swept, sweep}
use cks_runtime.GarbageCollector.Sweeping.{
  AllRead, AllRead-row, IsFiled, Entry, oldest_sessions-Entry,
}

abbrev pub IsOpen : String × SessionRow → Type 0
IsOpen (id, row) = row.payload.closed ≡ false

module _ {c : Core} where
  load_all-open :
      (codec : SqliteCodec c) (cutoff : ℕ) (self : SqliteStorage c)
      (entries : Dict String SessionRow)
      → All (Entry cutoff self) entries
      → All IsOpen entries
      → AllRead (λ (s : RuntimeSession c). s.closed ≡ false) (load_all codec self (keys entries))
  unfolding load_all load_session read_session
  load_all-open codec cutoff self [] found live = tt
  load_all-open codec cutoff self ((id, row) ∷ entries) found live =
      let P = λ (s : RuntimeSession c). s.closed ≡ false in
      subst
        (λ o. AllRead P (
          load_row codec self id o >>= λ found.
          load_all codec self (keys entries) >>= λ sessions. ok (with_loaded found sessions)))
        (sym found.0.0)
        (AllRead-row codec P row (map_result (read_version codec) (version_rows self id))
          (load_all codec self (keys entries)) (λ versions. live.0)
          (load_all-open codec cutoff self entries found.1 live.1))

  archive_closed-open :
      (candidates : List (RuntimeSession c)) (storage : SqliteStorage c)
      → All (λ (s : RuntimeSession c). s.closed ≡ false) candidates
      → archive_closed candidates storage ≡ storage
  unfolding archive_closed
  archive_closed-open [] storage live = refl
  archive_closed-open (session ∷ candidates) storage live =
      rw live.0 (archive_closed-open candidates storage live.1)

  swept-open :
      (storage : SqliteStorage c) (candidates : Result (List (RuntimeSession c)))
      → AllRead (λ (s : RuntimeSession c). s.closed ≡ false) candidates
      → (swept storage candidates).0 ≡ storage
  swept-open storage (raise e) live = refl
  swept-open storage (ok candidates) live = archive_closed-open candidates storage live

  -- Where the `batch_size` oldest of the sessions that were last modified before the cutoff are all
  -- open, a sweep changes nothing, however many closed sessions lie behind them.
  pub sweep-open :
      (self : GarbageCollector) (codec : SqliteCodec c) (now : ℕ) (storage : SqliteStorage c)
      → IsFiled storage
      → All IsOpen (
          oldest_sessions (modified_before (now - self.retention)) self.batch_size storage.sessions)
      → (sweep self codec now storage).0 ≡ storage
  unfolding sweep list_sessions_modified_before
  sweep-open self codec now storage filed live =
      let cutoff = now - self.retention in
      let entries = oldest_sessions (modified_before cutoff) self.batch_size storage.sessions in
      swept-open storage (load_all codec storage (keys entries)) (
        load_all-open codec cutoff storage entries
          (oldest_sessions-Entry cutoff self.batch_size storage filed.unique) live)
