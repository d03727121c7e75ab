-- ===== src/Outbox/Requests.antt =====
-- The statements of several workers on one table of src/cks_runtime/storage/sqlite_storage.py.
use cks_runtime.Prelude.{
  ℕ, String, string_eq, nat_eq, List, [], ◌∷◌, Bool, true, false, ◌||◌, Option, none, some, eqb,
}
use cks_runtime.Outbox.{
  OutboxTask, Outbox, enqueue_task, dequeue_next_outbox_task, complete_outbox_task,
  fail_outbox_task, dead_letter_outbox_task, retry_dead_letter_task, touch_outbox_task,
  list_tasks_by_type,
}
use cks_runtime.Storage.Stamp.{Stamp}

-- One statement of some worker.
pub data Request : Type 0 where
  enqueue : (task_type session_id payload : String) → Request
  dequeue : (task_type : Option String) → Request
  complete : (id : ℕ) → Request
  fail : (id retry_count : ℕ) (error : String) (next_retry_at : Stamp) → Request
  dead_letter : (id : ℕ) (error : String) → Request
  retry_dead_letter : (id : ℕ) → Request
  touch : (id : ℕ) → Request
  drain : (task_type : String) (session_id : Option String) → Request

-- The statement at a time, and the task it claims.
abbrev pub step : ℕ → Request → Outbox → Outbox × Option OutboxTask
step now (enqueue task_type session_id payload) o =
    (enqueue_task now task_type session_id payload o, none)
step now (dequeue task_type) o = dequeue_next_outbox_task now task_type o
step now (complete id) o = (complete_outbox_task id o, none)
step now (fail id retry_count error next_retry_at) o =
    (fail_outbox_task id retry_count error next_retry_at o, none)
step now (dead_letter id error) o = (dead_letter_outbox_task id error o, none)
step now (retry_dead_letter id) o = ((retry_dead_letter_task now id o).0, none)
step now (touch id) o = ((touch_outbox_task now id o).0, none)
step now (drain task_type session_id) o = ((list_tasks_by_type task_type session_id true o).0, none)

-- The request ends the work on the task.
abbrev pub settles : ℕ → Request → Bool
settles k (enqueue task_type session_id payload) = false
settles k (dequeue task_type) = false
settles k (complete id) = eqb id k
settles k (fail id retry_count error next_retry_at) = eqb id k
settles k (dead_letter id error) = eqb id k
settles k (retry_dead_letter id) = false
settles k (touch id) = false
settles k (drain task_type session_id) = false

abbrev pub is_task : ℕ → Option OutboxTask → Bool
is_task k none = false
is_task k (some task) = eqb task.task_id k

-- Whether some request of the run claims the task.
abbrev pub claims : ℕ → List (ℕ × Request) → Outbox → Bool
claims k [] o = false
claims k ((now, request) ∷ requests) o =
    is_task k (step now request o).1 || claims k requests (step now request o).0
