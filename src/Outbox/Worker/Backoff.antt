-- ===== src/Outbox/Worker/Backoff.antt =====
-- When the worker of src/cks_runtime/projection/outbox_worker.py sees a failed task again.
use cks_runtime.Prelude.{
  ℕ, ◌+◌, ◌/◌, ◌≤◌, ◌<◌, String, string_eq, nat_eq, List, [], ◌∷◌, ◌≡◌, refl, Bool, false, not,
  ◌||◌, ◌&&◌, Option, inl, inr, arith, Bool-cases, Option-cases, and-eq-true, ◌==◌, eqb, leb,
  select,
}
use cks_runtime.Outbox.{
  OutboxRow, OutboxTask, Outbox, update, matches, is_due, oldest, dequeue_next_outbox_task,
  fail_row, fail_outbox_task,
}
use cks_runtime.Storage.Stamp.{isoformat}
use cks_runtime.Storage.Stamp.{isoformat-same_day}
use cks_runtime.Outbox.Rows.{Every, oldest-found}
use cks_runtime.Outbox.Requests.{is_task}
use cks_runtime.Outbox.Worker.{delay_seconds, handle_failure}

-- A row that is the task cannot be claimed.
abbrev out_of_reach : ℕ → ℕ → OutboxRow → Bool
out_of_reach now id r = not (eqb r.task_id id) || not (is_due now r)

update-out_of_reach :
    (now id : ℕ) (change : OutboxRow → OutboxRow) (rows : List OutboxRow)
    → ((r : OutboxRow) → is_due now (change r) ≡ false)
    → Every (out_of_reach now id) (update change id rows)
unfolding update
update-out_of_reach now id change [] h = tt
update-out_of_reach now id change (r ∷ rs) h = elim (Bool-cases (r.task_id == id)) [
  | inl same ↦ rw same (ground (arith, h r), update-out_of_reach now id change rs h)
  | inr differs ↦ rw differs (ground (arith, differs), update-out_of_reach now id change rs h)
]

out_of_reach-dequeue :
    (now id : ℕ) (task_type : Option String) (o : Outbox)
    → Every (out_of_reach now id) o.rows
    → is_task id (dequeue_next_outbox_task now task_type o).1 ≡ false
unfolding dequeue_next_outbox_task
out_of_reach-dequeue now id task_type o h =
    let due = λ (r : OutboxRow). matches task_type r.task_type && is_due now r in
    elim (Option-cases (oldest (select due o.rows))) [
      | inl nothing ↦ rw nothing refl
      | inr (r, found) ↦
          (let (away, passes, _) = oldest-found (out_of_reach now id) due o.rows r h found in
            let ready = (and-eq-true (matches task_type r.task_type) (is_due now r) passes).1 in
            rw found (ground (arith, rw ready at away)))
    ]

-- A task that failed and may be tried again is claimed by nobody before the day is over on which its
-- delay ends: at any time up to the end of that UTC day, and so also after the delay of `2 ** n`
-- seconds, a poll for any type of task gives another task or none.
pub handle_failure-same_day :
    (max_retries now later : ℕ) (task : OutboxTask) (error : String) (task_type : Option String)
    (o : Outbox)
    → task.retry_count + 1 < max_retries
    → later / 86400 ≤ (now + delay_seconds (task.retry_count + 1)) / 86400
    → is_task task.task_id
        (dequeue_next_outbox_task later task_type (handle_failure max_retries now task error o)).1
      ≡ false
unfolding handle_failure fail_outbox_task is_due
handle_failure-same_day max_retries now later task error task_type o more same_day =
    let n = task.retry_count + 1 in
    let next = now + delay_seconds n in
    let again : leb max_retries n ≡ false = ground arith in
    rw again (
      out_of_reach-dequeue later task.task_id task_type
        (fail_outbox_task task.task_id n error (isoformat next) o)
        (update-out_of_reach later task.task_id (fail_row n error (isoformat next)) o.rows
          (λ r. isoformat-same_day next later same_day)))
