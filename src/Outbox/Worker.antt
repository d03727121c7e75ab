-- ===== src/Outbox/Worker.antt =====
-- src/cks_runtime/projection/outbox_worker.py: one iteration of the worker. What `_execute_task`
-- does for a session and a payload is a parameter, which gives the text of the error it raised; it
-- may differ from one attempt to the next. A poll has two readings of the clock, when the task is
-- claimed and when it failed.
mod Budget
mod Ready
mod Liveness
mod Backoff
mod Tests
use cks_runtime.Prelude.{
  ℕ, ◌+◌, ◌^◌, String, List, [], ◌∷◌, Option, none, some, min, leb, if◌then◌else◌,
}
use cks_runtime.Outbox.{
  Outbox, OutboxTask, dequeue_next_outbox_task, complete_outbox_task, fail_outbox_task,
  dead_letter_outbox_task,
}
use cks_runtime.Storage.Stamp.{isoformat}

-- `max_retries` of the constructor, and the execution of a task that was claimed at a time.
pub record Worker : Type 0 where
  pub max_retries : ℕ
  pub execute_task : ℕ → String → String → Option String

abbrev pub projection : String
projection = "projection"

abbrev pub delay_seconds : ℕ → ℕ
delay_seconds retry_count = min (2 ^ retry_count) 3600

-- The `except` branch.
unfoldable pub handle_failure : ℕ → ℕ → OutboxTask → String → Outbox → Outbox
handle_failure max_retries now task error o =
    let retry_count = task.retry_count + 1 in
    if leb max_retries retry_count
    then dead_letter_outbox_task task.task_id error o
    else fail_outbox_task task.task_id retry_count error
        (isoformat (now + delay_seconds retry_count)) o

abbrev pub settle : ℕ → ℕ → OutboxTask → Option String → Outbox → Outbox
settle max_retries now task none o = complete_outbox_task task.task_id o
settle max_retries now task (some error) o = handle_failure max_retries now task error o

abbrev pub work : Worker → ℕ → ℕ → Outbox × Option OutboxTask → Outbox
work w started ended (o, none) = o
work w started ended (o, some task) =
    settle w.max_retries ended task (w.execute_task started task.session_id task.payload) o

unfoldable pub process_next_task : Worker → ℕ → ℕ → Outbox → Outbox
process_next_task w started ended o =
    work w started ended (dequeue_next_outbox_task started (some projection) o)

-- The loop of `_run`, for as many polls as there are readings of the clock.
unfoldable pub run : Worker → List (ℕ × ℕ) → Outbox → Outbox
run w [] o = o
run w ((started, ended) ∷ polls) o = run w polls (process_next_task w started ended o)
