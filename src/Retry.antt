-- ===== src/Retry.antt =====
-- `_retry_on_locked`, the same in src/cks_runtime/crdt/crdt_store.py and
-- src/cks_runtime/storage/sqlite_storage.py: a write to SQLite that is tried again while another
-- process holds the lock. What the attempts give is a parameter; delays are in milliseconds.
pub mod Attempts
mod Tests
use cks_runtime.Prelude.{ℕ, zero, suc, ◌+◌, ◌-◌, ◌*◌, ◌^◌, leb, if◌then◌else◌}

pub data Attempt {ℓ} (A : Type ℓ) : Type ℓ where
  returns : A → Attempt A
  -- an OperationalError that speaks of a lock, and any other exception
  locked fails : Attempt A

abbrev pub write_retries : ℕ
write_retries = 5

abbrev pub write_retry_base_delay : ℕ
write_retry_base_delay = 50

-- What a call returns or raises, how often it has called the function, and how long it has slept.
pub record Run {ℓ} (A : Type ℓ) : Type ℓ where
  pub outcome : Attempt A
  pub calls : ℕ
  pub slept : ℕ

module _ {ℓ} {A : Type ℓ} where
  -- A round of the loop, from what the function gives and from the rest of the loop.
  abbrev pub round : ℕ → Attempt A → Run A → Run A
  round attempt (returns a) rest = record { outcome = returns a; calls = 1; slept = 0 }
  round attempt fails rest = record { outcome = fails; calls = 1; slept = 0 }
  round attempt locked rest =
      if leb (write_retries - 1) attempt
      then record { outcome = locked; calls = 1; slept = 0 }
      else record {
        outcome = rest.outcome;
        calls = 1 + rest.calls;
        slept = write_retry_base_delay * 2 ^ attempt + rest.slept;
      }

  -- for attempt in range(attempt, attempt + rounds), and the raise after it
  unfoldable pub retry : (ℕ → Attempt A) → ℕ → ℕ → Run A
  retry fn attempt zero = record { outcome = locked; calls = 0; slept = 0 }
  retry fn attempt (suc rounds) = round attempt (fn attempt) (retry fn (attempt + 1) rounds)

  unfoldable pub retry_on_locked : (ℕ → Attempt A) → Run A
  retry_on_locked fn = retry fn 0 write_retries
