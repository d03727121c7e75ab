-- ===== src/GarbageCollector/Filed.antt =====
-- That src/cks_runtime/storage/sqlite_storage.py files each session under its own id, once.
use cks_runtime.Prelude.{
  ℕ, String, List, [], ◌∷◌, Option, string_eq, ◌==◌, ◌≡◌, refl, sym, ◌∙◌, inl, inr, Bool-cases, All,
}
use mathlib.Core.Path.{subst}
use cks_runtime.Core.{Core}
use cks_runtime.Dict.{Dict, put, remove}
use cks_runtime.Dict.Laws.{put-IsDict, remove-IsDict}
use cks_runtime.Result.{ok}
use cks_runtime.Session.{RuntimeSession}
use cks_runtime.Storage.Sqlite.{
  SqliteCodec, SqliteStorage, SessionRow, session_row, session_data, save_session, archive_session,
}
use cks_runtime.Storage.Sqlite.Loading.{save_session-stored}
use cks_runtime.GarbageCollector.{archive_closed}
use cks_runtime.GarbageCollector.Sweeping.{IsFiled}

abbrev Filed : String × SessionRow → Type 0
Filed r = r.1.payload.session_id ≡ r.0

put-Filed :
    (rows : Dict String SessionRow) (id : String) (row : SessionRow)
    → row.payload.session_id ≡ id
    → All Filed rows
    → All Filed (put rows id row)
unfolding put
put-Filed [] id row same h = (same, tt)
put-Filed ((j, r) ∷ rows) id row same h = elim (Bool-cases (j == id)) [
  | inl e ↦ rw e (same ∙ sym ((string_eq.agrees_iff j id).0 e), h.1)
  | inr e ↦ rw e (h.0, put-Filed rows id row same h.1)
]

remove-Filed :
    (rows : Dict String SessionRow) (id : String) → All Filed rows → All Filed (remove rows id)
unfolding remove
remove-Filed [] id h = tt
remove-Filed ((j, r) ∷ rows) id h = elim (Bool-cases (j == id)) [
  | inl e ↦ rw e (remove-Filed rows id h.1)
  | inr e ↦ rw e (h.0, remove-Filed rows id h.1)
]

module _ {c : Core} where
  -- A save that succeeds keeps the sessions filed.
  pub save_session-IsFiled :
      (codec : SqliteCodec c) (now : ℕ) (self after : SqliteStorage c) (s : RuntimeSession c)
      (expected : Option String)
      → save_session codec now self s expected ≡ ok after
      → IsFiled self
      → IsFiled after
  unfolding session_data
  save_session-IsFiled codec now self after s expected h filed =
      let row = session_row codec now s in
      subst IsFiled (save_session-stored codec now self after s expected h) (record {
        unique = put-IsDict self.sessions s.session_id row filed.unique;
        filed = put-Filed self.sessions s.session_id row refl filed.filed;
      })

  archive_session-IsFiled :
      (self : SqliteStorage c) (id : String) → IsFiled self → IsFiled (archive_session self id)
  unfolding archive_session
  archive_session-IsFiled self id h = record {
    unique = remove-IsDict self.sessions id h.unique;
    filed = remove-Filed self.sessions id h.filed;
  }

  -- So does a sweep over any candidates.
  pub archive_closed-IsFiled :
      (candidates : List (RuntimeSession c)) (self : SqliteStorage c)
      → IsFiled self
      → IsFiled (archive_closed candidates self)
  unfolding archive_closed
  archive_closed-IsFiled [] self h = h
  archive_closed-IsFiled (session ∷ candidates) self h = elim (Bool-cases session.closed) [
    | inl closed ↦ rw closed (
        archive_closed-IsFiled candidates (archive_session self session.session_id)
          (archive_session-IsFiled self session.session_id h))
    | inr live ↦ rw live (archive_closed-IsFiled candidates self h)
  ]
