-- ===== src/GarbageCollector.antt =====
-- src/cks_runtime/gc/garbage_collector.py over the storage in SQLite: one sweep. Starting and
-- stopping the loop and log lines are left out.
mod Sweeping
mod Starvation
mod Filed
mod Tests
use cks_runtime.Prelude.{ℕ, ◌-◌, List, [], ◌∷◌, if◌then◌else◌}
use cks_runtime.Core.{Core}
use cks_runtime.Result.{Result, ok, raise}
use cks_runtime.Session.{RuntimeSession}
use cks_runtime.Storage.Sqlite.{
  SqliteCodec, SqliteStorage, list_sessions_modified_before, archive_session,
}

-- `retention` in seconds, and `batch_size`.
pub record GarbageCollector : Type 0 where
  pub retention : ℕ
  pub batch_size : ℕ

module _ {c : Core} where
  -- The loop over the candidates, which skips the open sessions.
  unfoldable pub archive_closed : List (RuntimeSession c) → SqliteStorage c → SqliteStorage c
  archive_closed [] storage = storage
  archive_closed (session ∷ candidates) storage =
      archive_closed candidates
        (if session.closed then archive_session storage session.session_id else storage)

  -- What follows the query, which may raise.
  abbrev pub swept :
      SqliteStorage c → Result (List (RuntimeSession c)) → SqliteStorage c × Result (Unit {0})
  swept storage (raise e) = (storage, raise e)
  swept storage (ok candidates) = (archive_closed candidates storage, ok tt)

  unfoldable pub sweep :
      GarbageCollector → SqliteCodec c → ℕ → SqliteStorage c → SqliteStorage c × Result (Unit {0})
  sweep self codec now storage =
      swept storage
        (list_sessions_modified_before codec storage (now - self.retention) self.batch_size)
