-- ===== src/Outbox.antt =====
-- The outbox of background tasks: src/cks_runtime/storage/sqlite_storage.py, the table
-- `cks_outbox_tasks`. The rows stand in the order of their keys, and each statement of the
-- database is one step. A column of times holds text, which SQLite compares as text.
mod Rows
mod Requests
mod Lease
mod Drain
pub mod Worker
mod Tests
use cks_runtime.Prelude.{
  ℕ, ◌+◌, ◌-◌, ◌/◌, ◌%◌, String, string_eq, nat_eq, List, [], ◌∷◌, ◌++◌, Bool, true, false, not,
  ◌&&◌, ◌||◌, Option, none, some, ltb, leb, eqb, ◌==◌, if◌then◌else◌, select, sort_by, map,
}
use cks_runtime.Storage.Stamp.{Stamp, datetime, at_most}

pub data TaskStatus : Type 0 where
  pending in_progress dead : TaskStatus

pub record OutboxRow : Type 0 where
  pub task_id : ℕ
  pub task_type : String
  pub session_id : String
  pub payload : String
  pub status : TaskStatus
  pub retry_count : ℕ
  pub next_retry_at : Stamp
  pub last_error : Option String
  pub claimed_at : Option Stamp
  pub created_at : Stamp

-- What a caller gets of a row.
pub record OutboxTask : Type 0 where
  pub task_id : ℕ
  pub task_type : String
  pub session_id : String
  pub payload : String
  pub retry_count : ℕ
  pub last_error : Option String

-- The rows, and the key that AUTOINCREMENT gives next.
pub record Outbox : Type 0 where
  pub rows : List OutboxRow
  pub next_id : ℕ

abbrev pub task_of : OutboxRow → OutboxTask
task_of r = record {
  task_id = r.task_id;
  task_type = r.task_type;
  session_id = r.session_id;
  payload = r.payload;
  retry_count = r.retry_count;
  last_error = none;
}

abbrev pub dead_task_of : OutboxRow → OutboxTask
dead_task_of r = record (task_of r) { last_error = r.last_error }

abbrev pub is_pending : TaskStatus → Bool
is_pending pending = true
is_pending in_progress = false
is_pending dead = false

abbrev pub is_dead : TaskStatus → Bool
is_dead pending = false
is_dead in_progress = false
is_dead dead = true

-- UPDATE ... SET ... WHERE task_id = ?
unfoldable pub update : (OutboxRow → OutboxRow) → ℕ → List OutboxRow → List OutboxRow
update change id [] = []
update change id (r ∷ rs) =
    if r.task_id == id then change r ∷ update change id rs else r ∷ update change id rs

-- DELETE ... WHERE task_id = ?
unfoldable pub delete : ℕ → List OutboxRow → List OutboxRow
delete id rows = select (λ (r : OutboxRow). not (r.task_id == id)) rows

-- A filter that is left out where the argument is `None`.
abbrev pub matches : Option String → String → Bool
matches none s = true
matches (some t) s = s == t

abbrev pub new_row : ℕ → ℕ → String → String → String → OutboxRow
new_row id now task_type session_id payload = record {
  task_id = id;
  task_type = task_type;
  session_id = session_id;
  payload = payload;
  status = pending;
  retry_count = 0;
  next_retry_at = datetime now;
  last_error = none;
  claimed_at = none;
  created_at = datetime now;
}

unfoldable pub enqueue_task : ℕ → String → String → String → Outbox → Outbox
enqueue_task now task_type session_id payload o = record {
  rows = o.rows ++ new_row o.next_id now task_type session_id payload ∷ [];
  next_id = 1 + o.next_id;
}

-- A comparison with NULL is not true.
abbrev pub claimed_by : Option Stamp → Stamp → Bool
claimed_by none limit = false
claimed_by (some c) limit = at_most c limit

-- `_OUTBOX_LEASE_TIMEOUT_MODIFIER`, "-5 minutes".
abbrev pub lease_timeout : ℕ
lease_timeout = 300

abbrev pub eligible : ℕ → TaskStatus → Stamp → Option Stamp → Bool
eligible now pending next_retry_at claimed_at = at_most next_retry_at (datetime now)
eligible now in_progress next_retry_at claimed_at =
    claimed_by claimed_at (datetime (now - lease_timeout))
eligible now dead next_retry_at claimed_at = false

unfoldable pub is_due : ℕ → OutboxRow → Bool
is_due now r = eligible now r.status r.next_retry_at r.claimed_at

abbrev pub older : OutboxRow → Option OutboxRow → Option OutboxRow
older r none = some r
older r (some s) = if at_most r.created_at s.created_at then some r else some s

-- ORDER BY created_at ASC LIMIT 1, which of equally old rows takes the first.
unfoldable pub oldest : List OutboxRow → Option OutboxRow
oldest [] = none
oldest (r ∷ rs) = older r (oldest rs)

abbrev pub lease : ℕ → OutboxRow → OutboxRow
lease now r = record r { status = in_progress; claimed_at = some (datetime now) }

abbrev pub claim : ℕ → Option OutboxRow → Outbox → Outbox × Option OutboxTask
claim now none o = (o, none)
claim now (some r) o = (record o { rows = update (lease now) r.task_id o.rows }, some (task_of r))

unfoldable pub dequeue_next_outbox_task : ℕ → Option String → Outbox → Outbox × Option OutboxTask
dequeue_next_outbox_task now task_type o =
    claim now
      (oldest (select (λ (r : OutboxRow). matches task_type r.task_type && is_due now r) o.rows)) o

unfoldable pub complete_outbox_task : ℕ → Outbox → Outbox
complete_outbox_task id o = record o { rows = delete id o.rows }

abbrev pub fail_row : ℕ → String → Stamp → OutboxRow → OutboxRow
fail_row retry_count error next_retry_at r = record r {
  status = pending;
  retry_count = retry_count;
  next_retry_at = next_retry_at;
  last_error = some error;
  claimed_at = none;
}

unfoldable pub fail_outbox_task : ℕ → ℕ → String → Stamp → Outbox → Outbox
fail_outbox_task id retry_count error next_retry_at o = record o {
  rows = update (fail_row retry_count error next_retry_at) id o.rows;
}

abbrev pub bury : String → OutboxRow → OutboxRow
bury error r = record r { status = dead; last_error = some error; claimed_at = none }

unfoldable pub dead_letter_outbox_task : ℕ → String → Outbox → Outbox
dead_letter_outbox_task id error o = record o { rows = update (bury error) id o.rows }

-- Whether an UPDATE with this condition has a row to change.
abbrev pub any_row : (OutboxRow → Bool) → List OutboxRow → Bool
any_row p [] = false
any_row p (r ∷ rs) = p r || any_row p rs

abbrev pub revive : ℕ → OutboxRow → OutboxRow
revive now r =
    if is_dead r.status
    then record r {
      status = pending;
      retry_count = 0;
      next_retry_at = datetime now;
      last_error = none;
      claimed_at = none;
    }
    else r

unfoldable pub retry_dead_letter_task : ℕ → ℕ → Outbox → Outbox × Bool
retry_dead_letter_task now id o = (
  record o { rows = update (revive now) id o.rows },
  any_row (λ (r : OutboxRow). r.task_id == id && is_dead r.status) o.rows,
)

abbrev pub is_in_progress : TaskStatus → Bool
is_in_progress pending = false
is_in_progress in_progress = true
is_in_progress dead = false

abbrev pub renew : ℕ → OutboxRow → OutboxRow
renew now r = if is_in_progress r.status then record r { claimed_at = some (datetime now) } else r

unfoldable pub touch_outbox_task : ℕ → ℕ → Outbox → Outbox × Bool
touch_outbox_task now id o = (
  record o { rows = update (renew now) id o.rows },
  any_row (λ (r : OutboxRow). r.task_id == id && is_in_progress r.status) o.rows,
)

-- ORDER BY created_at ASC
unfoldable pub by_age : List OutboxRow → List OutboxRow
by_age rows = sort_by (λ (r s : OutboxRow). at_most r.created_at s.created_at) rows

-- DELETE ... WHERE task_id IN (...)
unfoldable pub delete_all : List OutboxRow → List OutboxRow → List OutboxRow
delete_all [] rows = rows
delete_all (r ∷ rs) rows = delete_all rs (delete r.task_id rows)

abbrev pub waits : String → Option String → OutboxRow → Bool
waits task_type session_id r =
    r.task_type == task_type && is_pending r.status && matches session_id r.session_id

unfoldable pub list_tasks_by_type :
    String → Option String → Bool → Outbox → Outbox × List OutboxTask
list_tasks_by_type task_type session_id drain o =
    let found = by_age (select (waits task_type session_id) o.rows) in
    (if drain then record o { rows = delete_all found o.rows } else o, map task_of found)

unfoldable pub list_dead_letter_tasks : Option String → Option String → Outbox → List OutboxTask
list_dead_letter_tasks task_type session_id o = map dead_task_of (
    by_age (
      select
        (λ (r : OutboxRow).
          is_dead r.status && matches task_type r.task_type && matches session_id r.session_id)
        o.rows))
