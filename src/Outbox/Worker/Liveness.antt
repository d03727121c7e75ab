-- ===== src/Outbox/Worker/Liveness.antt =====
-- That the loop of src/cks_runtime/projection/outbox_worker.py comes to an end with every task.
use cks_runtime.Prelude.{
  ℕ, ◌+◌, ◌-◌, ◌≤◌, ◌<◌, String, string_eq, nat_eq, List, [], ◌∷◌, ◌≡◌, refl, Bool, true, false,
  not, ◌&&◌, Option, none, some, inl, inr, arith, Bool-cases, Option-cases, and-eq-true, ◌==◌, leb,
  select, length,
}
use cks_runtime.Outbox.{
  TaskStatus, pending, in_progress, dead, OutboxRow, Outbox, update, matches, is_dead, eligible,
  is_due, oldest, lease, dequeue_next_outbox_task, complete_outbox_task, fail_row, fail_outbox_task,
  bury, dead_letter_outbox_task, task_of,
}
use cks_runtime.Storage.Stamp.{Stamp, isoformat}
use cks_runtime.Outbox.Rows.{IsUnique, Every, oldest-found, oldest-none, Member}
use cks_runtime.Outbox.Worker.{
  Worker, projection, delay_seconds, handle_failure, settle, process_next_task, run,
}
use cks_runtime.Outbox.Worker.Ready.{
  ready, Waits, Every-later, ready_but, after-update, after-delete, before-update, fail_row-ready,
  bury-ready,
}
use cks_runtime.Outbox.Worker.Budget.{
  is_live, attempts_left, budget, budget-update, budget-delete, IsUnique-update, IsUnique-delete,
  Member-update,
}

-- A failure costs an attempt.
fail_row-attempts_left :
    (m : ℕ) (error : String) (next : Stamp) (r : OutboxRow)
    → is_live r ≡ true
    → leb m (r.retry_count + 1) ≡ false
    → attempts_left m (fail_row (r.retry_count + 1) error next r) < attempts_left m r
unfolding attempts_left is_live
fail_row-attempts_left m error next r live more = ground (arith, live)

bury-attempts_left :
    (m : ℕ) (error : String) (r : OutboxRow)
    → is_live r ≡ true
    → attempts_left m (bury error r) < attempts_left m r
unfolding attempts_left is_live
bury-attempts_left m error r live = ground (arith, live)

live-attempts_left : (m : ℕ) (r : OutboxRow) → is_live r ≡ true → 0 < attempts_left m r
unfolding attempts_left
live-attempts_left m r live = rw live (omega arith)

-- What a poll that claims a task leads to.
abbrev pub Closer : ℕ → ℕ → Outbox → Outbox → Type 0
Closer m later before after = Waits later after × (budget m after.rows < budget m before.rows)

settle-Closer :
    (m now later : ℕ) (r : OutboxRow) (outcome : Option String) (o : Outbox)
    → now + 90000 ≤ later
    → IsUnique o.rows
    → Member r o.rows
    → is_live r ≡ true
    → Every (ready_but later r.task_id) o.rows
    → Closer m later o (settle m now (task_of r) outcome o)
unfolding complete_outbox_task handle_failure dead_letter_outbox_task fail_outbox_task
settle-Closer m now later r none o le u found live h = (
  record {
    unique = IsUnique-delete r.task_id o.rows u;
    all_ready = after-delete later r.task_id o.rows h;
  },
  omega (arith, budget-delete m o.rows r u found, live-attempts_left m r live),
)
settle-Closer m now later r (some error) o le u found live h =
    elim (Bool-cases (leb m (r.retry_count + 1))) [
      | inl last ↦ rw last (
        record {
          unique = IsUnique-update (bury error) r.task_id o.rows (λ x. refl) u;
          all_ready = after-update later r.task_id (bury error) o.rows (bury-ready later error) h;
        },
        omega (
          arith,
          budget-update m (bury error) o.rows r u found,
          bury-attempts_left m error r live,
        ),
      )
      | inr more ↦
          (let next = isoformat (now + delay_seconds (r.retry_count + 1)) in
            let change = fail_row (r.retry_count + 1) error next in
            rw more (
              record {
                unique = IsUnique-update change r.task_id o.rows (λ x. refl) u;
                all_ready =
                    after-update later r.task_id change o.rows
                      (λ x. fail_row-ready now later (r.retry_count + 1) error x le) h;
              },
              omega (
                arith,
                budget-update m change o.rows r u found,
                fail_row-attempts_left m error next r live more,
              ),
            ))
    ]

-- What the query of the worker finds is a live task.
abbrev wanted : ℕ → OutboxRow → Bool
wanted now r = matches (some projection) r.task_type && is_due now r

eligible-alive :
    (now : ℕ) (status : TaskStatus) (next_retry_at : Stamp) (claimed_at : Option Stamp)
    → eligible now status next_retry_at claimed_at ≡ true
    → is_dead status ≡ false
eligible-alive now pending next_retry_at claimed_at h = refl
eligible-alive now in_progress next_retry_at claimed_at h = refl
eligible-alive now dead next_retry_at claimed_at h = absurd (ground arith)

wanted-live : (now : ℕ) (r : OutboxRow) → wanted now r ≡ true → is_live r ≡ true
unfolding is_live is_due
wanted-live now r h =
    let (kind, due) = and-eq-true (r.task_type == projection) (is_due now r) h in
    rw (kind, eligible-alive now r.status r.next_retry_at r.claimed_at due) refl

lease-live : (now : ℕ) (r : OutboxRow) → is_live r ≡ true → is_live (lease now r) ≡ true
unfolding is_live
lease-live now r h = ground (arith, h)

lease-attempts_left :
    (m now : ℕ) (r : OutboxRow)
    → is_live r ≡ true
    → attempts_left m (lease now r) ≡ attempts_left m r
unfolding attempts_left
lease-attempts_left m now r h = rw (h, lease-live now r h) refl

unwanted :
    (now : ℕ) (r : OutboxRow) → ready now r ≡ true → not (wanted now r) ≡ true → is_live r ≡ false
unfolding is_live
unwanted now r h k = ground (arith, h, k)

-- Where the query finds nothing and all live tasks are ready, there is no live task.
nothing-budget :
    (m now : ℕ) (rows : List OutboxRow)
    → Every (ready now) rows
    → Every (λ r. not (wanted now r)) rows
    → budget m rows ≡ 0
unfolding budget attempts_left
nothing-budget m now [] h k = refl
nothing-budget m now (r ∷ rs) h k =
    rw (unwanted now r h.0 k.0) (omega (arith, nothing-budget m now rs h.1 k.1))

process-Closer :
    (w : Worker) (started ended later : ℕ) (o : Outbox)
    → started ≤ ended
    → ended + 90000 ≤ later
    → Waits started o
    → Waits later (process_next_task w started ended o)
      × (budget w.max_retries (process_next_task w started ended o).rows
          ≤ budget w.max_retries o.rows - 1)
unfolding process_next_task dequeue_next_outbox_task
process-Closer w started ended later o le gap h =
    let m = w.max_retries in
    elim (Option-cases (oldest (select (wanted started) o.rows))) [
      | inl nothing ↦ rw nothing (
        record {
          unique = h.unique;
          all_ready = Every-later started later o.rows (omega arith) h.all_ready;
        },
        omega (
          arith,
          nothing-budget m started o.rows h.all_ready (oldest-none (wanted started) o.rows nothing),
        ),
      )
      | inr (r, found) ↦
          (let (_, passes, member) =
              oldest-found (ready started) (wanted started) o.rows r h.all_ready found in
            let live = wanted-live started r passes in
            let claimed = update (lease started) r.task_id o.rows in
            let (waits, fewer) =
              settle-Closer m ended later (lease started r)
                (w.execute_task started r.session_id r.payload) (record o { rows = claimed }) gap
                (IsUnique-update (lease started) r.task_id o.rows (λ x. refl) h.unique)
                (Member-update (lease started) o.rows r h.unique member) (lease-live started r live)
                (before-update later r.task_id (lease started) o.rows (λ x. refl)
                  (Every-later started later o.rows (omega arith) h.all_ready)) in
            rw found (
              waits,
              omega (
                arith,
                fewer,
                budget-update m (lease started) o.rows r h.unique member,
                lease-attempts_left m started r live,
              ),
            ))
    ]

-- The polls follow each other with 90000 seconds, a day and an hour, or more from the end of one to
-- the start of the next, the first at `now` or later.
abbrev pub Spaced : ℕ → List (ℕ × ℕ) → Type 0
Spaced now [] = Unit
Spaced now ((started, ended) ∷ polls) =
    (now ≤ started) × (started ≤ ended) × Spaced (ended + 90000) polls

run-budget :
    (w : Worker) (now : ℕ) (polls : List (ℕ × ℕ)) (o : Outbox)
    → Waits now o
    → Spaced now polls
    → budget w.max_retries o.rows ≤ length polls
    → budget w.max_retries (run w polls o).rows ≡ 0
unfolding run
run-budget w now [] o h spaced enough = omega (arith, enough)
run-budget w now ((started, ended) ∷ polls) o h (first, le, rest) enough =
    let (waits, fewer) = process-Closer w started ended (ended + 90000) o le (omega arith) (record {
      unique = h.unique;
      all_ready = Every-later now started o.rows first h.all_ready;
    }) in
    run-budget w (ended + 90000) polls (process_next_task w started ended o) waits rest
      (omega (arith, enough, fewer))

none_left : (m : ℕ) (rows : List OutboxRow) → budget m rows ≡ 0 → select is_live rows ≡ []
unfolding budget
none_left m [] h = refl
none_left m (r ∷ rs) h = elim (Bool-cases (is_live r)) [
  | inl live ↦ absurd (omega (arith, h, live-attempts_left m r live))
  | inr gone ↦ rw gone (none_left m rs (omega (arith, h)))
]

-- The worker comes to an end with every task, whatever each single execution gives, also where one
-- attempt fails and the next does not: from distinct keys, all live projection tasks ready at the
-- first poll, and polls of which each starts 25 hours or more after the one before has ended, as many
-- polls as the attempts that are left (for each task `max_retries` less the failures so far, at least
-- one), or more, leave no projection task that is pending or in progress. Each is gone or
-- dead-lettered.
pub run-finishes :
    (w : Worker) (now : ℕ) (polls : List (ℕ × ℕ)) (o : Outbox)
    → Waits now o
    → Spaced now polls
    → budget w.max_retries o.rows ≤ length polls
    → select is_live (run w polls o).rows ≡ []
run-finishes w now polls o h spaced enough =
    none_left w.max_retries (run w polls o).rows (run-budget w now polls o h spaced enough)
