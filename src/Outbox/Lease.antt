-- ===== src/Outbox/Lease.antt =====
-- Who may claim a task while its lease runs, in src/cks_runtime/storage/sqlite_storage.py.
use cks_runtime.Prelude.{
  ℕ, ◌+◌, ◌-◌, ◌≤◌, ◌<◌, String, string_eq, nat_eq, List, [], ◌∷◌, ◌≡◌, refl, ap, ◌∙◌, Bool, true,
  false, not, ◌||◌, ◌&&◌, Option, none, some, inl, inr, ◌⊎◌, arith, Bool-cases, Option-cases,
  and-eq-true, ◌==◌, eqb, ltb, select, All,
}
use cks_runtime.Outbox.{
  TaskStatus, pending, in_progress, dead, OutboxRow, OutboxTask, Outbox, update, matches, new_row,
  enqueue_task, eligible, is_due, oldest, lease, dequeue_next_outbox_task, complete_outbox_task,
  fail_row, fail_outbox_task, bury, dead_letter_outbox_task, revive, retry_dead_letter_task, renew,
  touch_outbox_task, by_age, waits, list_tasks_by_type,
}
use cks_runtime.Storage.Stamp.{Stamp, datetime, at_most}
use cks_runtime.Storage.Stamp.{at_most_trans, at_most-datetime, le_of_at_most}
use cks_runtime.Outbox.Rows.{
  Every, Every-append, Every-update, Every-delete, Every-delete_all, oldest-found,
}
use cks_runtime.Outbox.Requests.{
  Request, enqueue, dequeue, complete, fail, dead_letter, retry_dead_letter, touch, drain, step,
  settles, is_task, claims,
}

abbrev pub held_by : ℕ → TaskStatus → Option Stamp → Bool
held_by t pending claimed_at = false
held_by t in_progress none = false
held_by t in_progress (some c) = at_most (datetime t) c
held_by t dead claimed_at = false

-- A row that is the task is claimed, since `t` or later.
abbrev pub held : ℕ → ℕ → OutboxRow → Bool
held t k r = not (eqb r.task_id k) || held_by t r.status r.claimed_at

-- The key was given, and its row is held.
abbrev pub IsHeld : ℕ → ℕ → Outbox → Type 0
IsHeld t k o = Every (held t k) o.rows × (k < o.next_id)

lease-held : (t k now : ℕ) (r : OutboxRow) → t ≤ now → held t k (lease now r) ≡ true
lease-held t k now r le = ground (arith, at_most-datetime t now le)

-- A lease that began at `t` is not yet stale.
held_by-eligible :
    (t now : ℕ) (status : TaskStatus) (next_retry_at : Stamp) (claimed_at : Option Stamp)
    → 0 < t
    → now < t + 300
    → held_by t status claimed_at ≡ true
    → eligible now status next_retry_at claimed_at ≡ false
held_by-eligible t now pending next_retry_at claimed_at past soon h = absurd (ground arith)
held_by-eligible t now in_progress next_retry_at none past soon h = refl
held_by-eligible t now in_progress next_retry_at (some c) past soon h =
    elim (Bool-cases (at_most c (datetime (now - 300)))) [
      | inl stale ↦ absurd (
          omega (
            arith,
            le_of_at_most t (now - 300)
                (at_most_trans (datetime t) c (datetime (now - 300)) h stale),
          ))
      | inr fresh ↦ fresh
    ]
held_by-eligible t now dead next_retry_at claimed_at past soon h = refl

held-is_due :
    (t k now : ℕ) (r : OutboxRow)
    → 0 < t
    → now < t + 300
    → held t k r ≡ true
    → is_due now r ≡ true
    → eqb r.task_id k ≡ false
unfolding is_due
held-is_due t k now r past soon h due = elim (Bool-cases (eqb r.task_id k)) [
  | inl same ↦ absurd (
      ground (
        arith,
        held_by-eligible t now r.status r.next_retry_at r.claimed_at past soon (rw same at h),
      ))
  | inr differs ↦ differs
]

-- A change of other rows, or one that keeps the lease.
update-IsHeld :
    (t k id : ℕ) (change : OutboxRow → OutboxRow) (o : Outbox)
    → ((r : OutboxRow) → r.task_id ≡ id → held t k r ≡ true → held t k (change r) ≡ true)
    → IsHeld t k o
    → IsHeld t k (record o { rows = update change id o.rows })
update-IsHeld t k id change o keeps h = (Every-update (held t k) change id o.rows keeps h.0, h.1)

other-held : (t k : ℕ) (r : OutboxRow) → eqb r.task_id k ≡ false → held t k r ≡ true
other-held t k r e = rw e refl

TaskStatus-cases : (s : TaskStatus) → (s ≡ pending) ⊎ (s ≡ in_progress) ⊎ (s ≡ dead)
TaskStatus-cases pending = inl refl
TaskStatus-cases in_progress = inr (inl refl)
TaskStatus-cases dead = inr (inr refl)

renew-held :
    (t k now : ℕ) (r : OutboxRow) → t ≤ now → held t k r ≡ true → held t k (renew now r) ≡ true
renew-held t k now r le h = elim (TaskStatus-cases r.status) [
  | inl e ↦ rw e (rw e at h)
  | inr (inl e) ↦ rw e (ground (arith, at_most-datetime t now le))
  | inr (inr e) ↦ rw e (rw e at h)
]

revive-held : (t k now : ℕ) (r : OutboxRow) → held t k r ≡ true → held t k (revive now r) ≡ true
revive-held t k now r h = elim (TaskStatus-cases r.status) [
  | inl e ↦ rw e (rw e at h)
  | inr (inl e) ↦ rw e (rw e at h)
  | inr (inr e) ↦ rw e (ground (arith, rw e at h))
]

-- Another task's row keeps the lease through any change that leaves the key alone.
other-change :
    (t k id : ℕ) (change : OutboxRow → OutboxRow)
    → eqb id k ≡ false
    → ((r : OutboxRow) → (change r).task_id ≡ r.task_id)
    → (r : OutboxRow) → r.task_id ≡ id
    → held t k r ≡ true
    → held t k (change r) ≡ true
other-change t k id change differs same r e h =
    other-held t k (change r) (ap (λ n. eqb n k) (same r ∙ e) ∙ differs)

dequeue-IsHeld :
    (t k now : ℕ) (task_type : Option String) (o : Outbox)
    → 0 < t
    → t ≤ now
    → now < t + 300
    → IsHeld t k o
    → (is_task k (dequeue_next_outbox_task now task_type o).1 ≡ false)
      × IsHeld t k (dequeue_next_outbox_task now task_type o).0
unfolding dequeue_next_outbox_task
dequeue-IsHeld t k now task_type o past le soon h =
    let due = λ (r : OutboxRow). matches task_type r.task_type && is_due now r in
    elim (Option-cases (oldest (select due o.rows))) [
      | inl nothing ↦ rw nothing (refl, h)
      | inr (r, found) ↦
          (let (keeps, passes, _) = oldest-found (held t k) due o.rows r h.0 found in
            rw found (
              held-is_due t k now r past soon keeps
                  (and-eq-true (matches task_type r.task_type) (is_due now r) passes).1,
              update-IsHeld t k r.task_id (lease now) o (λ s e same. lease-held t k now s le) h,
            ))
    ]

step-IsHeld :
    (t k now : ℕ) (request : Request) (o : Outbox)
    → 0 < t
    → t ≤ now
    → now < t + 300
    → settles k request ≡ false
    → IsHeld t k o
    → (is_task k (step now request o).1 ≡ false) × IsHeld t k (step now request o).0
unfolding enqueue_task complete_outbox_task fail_outbox_task dead_letter_outbox_task
    retry_dead_letter_task touch_outbox_task list_tasks_by_type
step-IsHeld t k now (enqueue task_type session_id payload) o past le soon other h =
    let row = new_row o.next_id now task_type session_id payload in
    (
      refl,
      (
        Every-append (held t k) o.rows (row ∷ []) h.0
            (other-held t k row (ground (arith, h.1)), tt),
        omega (arith, h.1),
      ),
    )
step-IsHeld t k now (dequeue task_type) o past le soon other h =
    dequeue-IsHeld t k now task_type o past le soon h
step-IsHeld t k now (complete id) o past le soon other h =
    (refl, (Every-delete (held t k) id o.rows h.0, h.1))
step-IsHeld t k now (fail id retry_count error next_retry_at) o past le soon other h = (
  refl,
  update-IsHeld t k id (fail_row retry_count error next_retry_at) o
      (other-change t k id (fail_row retry_count error next_retry_at) other (λ r. refl)) h,
)
step-IsHeld t k now (dead_letter id error) o past le soon other h = (
  refl,
  update-IsHeld t k id (bury error) o (other-change t k id (bury error) other (λ r. refl)) h,
)
step-IsHeld t k now (retry_dead_letter id) o past le soon other h =
    (refl, update-IsHeld t k id (revive now) o (λ r e. revive-held t k now r) h)
step-IsHeld t k now (touch id) o past le soon other h =
    (refl, update-IsHeld t k id (renew now) o (λ r e. renew-held t k now r le) h)
step-IsHeld t k now (drain task_type session_id) o past le soon other h = (
  refl,
  (
    Every-delete_all (held t k) (by_age (select (waits task_type session_id) o.rows)) o.rows h.0,
    h.1,
  ),
)

claimed-held : (t k : ℕ) (rows : List OutboxRow) → Every (held t k) (update (lease t) k rows)
unfolding update
claimed-held t k [] = tt
claimed-held t k (r ∷ rs) = elim (Bool-cases (r.task_id == k)) [
  | inl same ↦ rw same (lease-held t k t r (omega arith), claimed-held t k rs)
  | inr differs ↦ rw differs (other-held t k r differs, claimed-held t k rs)
]

-- The keys that are in use were given.
abbrev pub IsKeyed : Outbox → Type 0
IsKeyed o = Every (λ r. ltb r.task_id o.next_id) o.rows

claim-IsHeld :
    (t : ℕ) (task_type : Option String) (o : Outbox) (task : OutboxTask)
    → IsKeyed o
    → (dequeue_next_outbox_task t task_type o).1 ≡ some task
    → IsHeld t task.task_id (dequeue_next_outbox_task t task_type o).0
unfolding dequeue_next_outbox_task
claim-IsHeld t task_type o task keyed found =
    let due = λ (r : OutboxRow). matches task_type r.task_type && is_due t r in
    elim (Option-cases (oldest (select due o.rows))) [
      | inl nothing ↦ absurd (ground (arith, rw nothing at found))
      | inr (r, e) ↦
          (let (below, _, _) = oldest-found (λ r. ltb r.task_id o.next_id) due o.rows r keyed e in
            let same : r.task_id ≡ task.task_id =
              ap (λ (x : Option OutboxTask). elim x [ none ↦ 0 | some y ↦ y.task_id ])
                (rw e at found) in
            rw e (rw same (claimed-held t task.task_id o.rows), ground (arith, below, same)))
    ]

-- The requests of a run come while the lease lasts, and none ends the work on the task.
abbrev pub Within : ℕ → ℕ → ℕ × Request → Type 0
Within t k (now, request) = (t ≤ now) × (now < t + 300) × (settles k request ≡ false)

held-claims :
    (t k : ℕ) (requests : List (ℕ × Request)) (o : Outbox)
    → 0 < t
    → All (Within t k) requests
    → IsHeld t k o
    → claims k requests o ≡ false
held-claims t k [] o past within h = refl
held-claims t k ((now, request) ∷ requests) o past ((le, soon, other), within) h =
    let (unclaimed, keeps) = step-IsHeld t k now request o past le soon other h in
    ground (arith, unclaimed, held-claims t k requests (step now request o).0 past within keeps)

-- A task that is claimed is not handed out again while its lease of five minutes lasts: whatever
-- statements follow within that time, by this or other workers, as long as none of them completes,
-- fails or dead-letters this task, none of them claims it.
pub dequeue-exclusive :
    (t : ℕ) (task_type : Option String) (o : Outbox) (task : OutboxTask)
    (requests : List (ℕ × Request))
    → 0 < t
    → IsKeyed o
    → (dequeue_next_outbox_task t task_type o).1 ≡ some task
    → All (Within t task.task_id) requests
    → claims task.task_id requests (dequeue_next_outbox_task t task_type o).0 ≡ false
dequeue-exclusive t task_type o task requests past keyed found within =
    held-claims t task.task_id requests (dequeue_next_outbox_task t task_type o).0 past within
      (claim-IsHeld t task_type o task keyed found)
