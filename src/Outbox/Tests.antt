-- ===== src/Outbox/Tests.antt =====
-- Runs of the outbox at concrete inputs.
use cks_runtime.Prelude.{
  [], ◌∷◌, ◌≡◌, refl, true, false, not, none, some, arith, string_eq, select, Bool, ◌==◌, ◌&&◌,
  and-eq-true, ◌↔◌, map,
}
use cks_runtime.Outbox.{
  Outbox, OutboxTask, oldest, is_due, update, enqueue_task, dequeue_next_outbox_task, OutboxRow,
  is_pending, by_age, list_tasks_by_type, task_of, new_row,
}
use cks_runtime.Storage.Stamp.{at_most}
use cks_runtime.Outbox.Requests.{enqueue, dequeue, complete, touch, claims}
use cks_runtime.Outbox.Lease.{dequeue-exclusive}
use cks_runtime.Outbox.Drain.{IsWaiting, is_pending-pending, list_tasks_by_type-drain}

abbrev empty : Outbox
empty = record { rows = []; next_id = 1 }

abbrev table : Outbox
table = record {
  rows = new_row 1 1000 "projection" "s" "p" ∷ new_row 2 1001 "gossip_conflict" "s" "q" ∷ [];
  next_id = 3;
}

two_tasks :
    enqueue_task 1001 "gossip_conflict" "s" "q" (enqueue_task 1000 "projection" "s" "p" empty)
    ≡ table
unfolding enqueue_task
two_tasks = refl

abbrev first : OutboxTask
first = task_of (new_row 1 1000 "projection" "s" "p")

claimed : (dequeue_next_outbox_task 2000 none table).1 ≡ some first
unfolding dequeue_next_outbox_task oldest is_due at_most
claimed = refl

dequeue-exclusive_example :
    claims 1
      ((2001, dequeue none)
        ∷ (2100, touch 1)
        ∷ (2200, complete 2)
        ∷ (2250, enqueue "projection" "s" "r")
        ∷ (2299, dequeue (some "projection"))
        ∷ [])
      (dequeue_next_outbox_task 2000 none table).0
    ≡ false
dequeue-exclusive_example =
    dequeue-exclusive 2000 none table first
      ((2001, dequeue none)
        ∷ (2100, touch 1)
        ∷ (2200, complete 2)
        ∷ (2250, enqueue "projection" "s" "r")
        ∷ (2299, dequeue (some "projection"))
        ∷ [])
      (omega arith) (refl, (refl, tt)) claimed
      (
        (omega arith, omega arith, refl),
        (
          (omega arith, omega arith, refl),
          (
            (omega arith, omega arith, refl),
            ((omega arith, omega arith, refl), ((omega arith, omega arith, refl), tt)),
          ),
        ),
      )

-- The lease is stale after five minutes.
stale : claims 1 ((2300, dequeue none) ∷ []) (dequeue_next_outbox_task 2000 none table).0 ≡ true
unfolding dequeue_next_outbox_task oldest is_due at_most update
stale = refl

abbrev is_waiting : OutboxRow → Bool
is_waiting r = r.task_type == "projection" && is_pending r.status

is_waiting_iff : (r : OutboxRow) → (is_waiting r ≡ true) ↔ IsWaiting "projection" none r
is_waiting_iff r = (
  (λ h.
      let (kind, free) = and-eq-true (r.task_type == "projection") (is_pending r.status) h in
      record {
        of_type = (string_eq.agrees_iff r.task_type "projection").0 kind;
        unclaimed = (is_pending-pending r.status).0 free;
        of_session = tt;
      }),
  (λ w.
      rw
        (
          (string_eq.agrees_iff r.task_type "projection").1 w.of_type,
          (is_pending-pending r.status).1 w.unclaimed,
        )
        refl),
)

list_tasks_by_type-drain_example :
    let drained = list_tasks_by_type "projection" none true table in
    (drained.1 ≡ map task_of (by_age (select is_waiting table.rows)))
    × (drained.0.rows ≡ select (λ r. not (is_waiting r)) table.rows)
    × ((list_tasks_by_type "projection" none false drained.0).1 ≡ [])
list_tasks_by_type-drain_example =
    list_tasks_by_type-drain "projection" none table is_waiting is_waiting_iff
      ((refl, tt), (tt, tt))
