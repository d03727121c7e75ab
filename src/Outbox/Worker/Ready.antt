-- ===== src/Outbox/Worker/Ready.antt =====
-- When the tasks of src/cks_runtime/projection/outbox_worker.py can be claimed.
use cks_runtime.Prelude.{
  ℕ, ◌+◌, ◌-◌, ◌≤◌, String, string_eq, nat_eq, List, [], ◌∷◌, ◌≡◌, refl, Bool, true, not, ◌||◌,
  Option, none, some, inl, inr, arith, Bool-cases, ◌==◌, ==_refl,
}
use cks_runtime.Outbox.{
  TaskStatus, pending, in_progress, dead, OutboxRow, Outbox, update, delete, eligible, is_due,
  fail_row, bury,
}
use cks_runtime.Storage.Stamp.{Stamp, datetime, isoformat, at_most}
use cks_runtime.Storage.Stamp.{at_most_trans, at_most-datetime, at_most-isoformat}
use cks_runtime.Outbox.Rows.{IsUnique, Every, Every-update}
use cks_runtime.Outbox.Worker.{delay_seconds}
use cks_runtime.Outbox.Worker.Budget.{is_live, KeepsId}

-- Every live task can be claimed.
abbrev pub ready : ℕ → OutboxRow → Bool
ready now r = not (is_live r) || is_due now r

-- The state between two polls: distinct keys, and all live tasks are ready at the next poll.
pub record Waits (now : ℕ) (o : Outbox) : Type 0 where
  pub unique : IsUnique o.rows
  pub all_ready : Every (ready now) o.rows

pub eligible-later :
    (now later : ℕ) (status : TaskStatus) (next_retry_at : Stamp) (claimed_at : Option Stamp)
    → now ≤ later
    → eligible now status next_retry_at claimed_at ≡ true
    → eligible later status next_retry_at claimed_at ≡ true
eligible-later now later pending next_retry_at claimed_at le h =
    at_most_trans next_retry_at (datetime now) (datetime later) h (at_most-datetime now later le)
eligible-later now later in_progress next_retry_at none le h = absurd (ground arith)
eligible-later now later in_progress next_retry_at (some c) le h =
    at_most_trans c (datetime (now - 300)) (datetime (later - 300)) h
      (at_most-datetime (now - 300) (later - 300) (omega arith))
eligible-later now later dead next_retry_at claimed_at le h = absurd (ground arith)

pub ready-later :
    (now later : ℕ) (r : OutboxRow) → now ≤ later → ready now r ≡ true → ready later r ≡ true
unfolding is_due
ready-later now later r le h = elim (Bool-cases (is_live r)) [
  | inl live ↦
      rw live (eligible-later now later r.status r.next_retry_at r.claimed_at le (rw live at h))
  | inr gone ↦ rw gone refl
]

pub Every-later :
    (now later : ℕ) (rows : List OutboxRow)
    → now ≤ later
    → Every (ready now) rows
    → Every (ready later) rows
Every-later now later [] le h = tt
Every-later now later (r ∷ rs) le h =
    (ready-later now later r le h.0, Every-later now later rs le h.1)

-- Ready, but for the one row that is being worked on.
abbrev pub ready_but : ℕ → ℕ → OutboxRow → Bool
ready_but now id r = (r.task_id == id) || ready now r

pub after-update :
    (now id : ℕ) (change : OutboxRow → OutboxRow) (rows : List OutboxRow)
    → ((r : OutboxRow) → ready now (change r) ≡ true)
    → Every (ready_but now id) rows
    → Every (ready now) (update change id rows)
unfolding update
after-update now id change [] good h = tt
after-update now id change (r ∷ rs) good h = elim (Bool-cases (r.task_id == id)) [
  | inl same ↦ rw same (good r, after-update now id change rs good h.1)
  | inr differs ↦ rw differs (ground (arith, h.0, differs), after-update now id change rs good h.1)
]

pub after-delete :
    (now id : ℕ) (rows : List OutboxRow)
    → Every (ready_but now id) rows
    → Every (ready now) (delete id rows)
unfolding delete
after-delete now id [] h = tt
after-delete now id (r ∷ rs) h = elim (Bool-cases (r.task_id == id)) [
  | inl same ↦ rw same (after-delete now id rs h.1)
  | inr differs ↦ rw differs (ground (arith, h.0, differs), after-delete now id rs h.1)
]

ready-ready_but :
    (now id : ℕ) (rows : List OutboxRow) → Every (ready now) rows → Every (ready_but now id) rows
ready-ready_but now id [] h = tt
ready-ready_but now id (r ∷ rs) h = (ground (arith, h.0), ready-ready_but now id rs h.1)

pub before-update :
    (now id : ℕ) (change : OutboxRow → OutboxRow) (rows : List OutboxRow)
    → KeepsId change
    → Every (ready now) rows
    → Every (ready_but now id) (update change id rows)
before-update now id change rows same h =
    Every-update (ready_but now id) change id rows
      (λ r e k.
        let found : ((change r).task_id == id) ≡ true = rw (same r, e) (==_refl id) in
        ground (arith, found))
      (ready-ready_but now id rows h)

pub fail_row-ready :
    (now later n : ℕ) (error : String) (r : OutboxRow)
    → now + 90000 ≤ later
    → ready later (fail_row n error (isoformat (now + delay_seconds n)) r) ≡ true
unfolding is_due
fail_row-ready now later n error r le =
    let next = now + delay_seconds n in
    let due : at_most (isoformat next) (datetime later) ≡ true =
      at_most-isoformat next later (omega arith) in
    let q = fail_row n error (isoformat next) r in
    elim (Bool-cases (is_live q)) [ inl live ↦ rw live due | inr gone ↦ rw gone refl ]

pub bury-ready : (later : ℕ) (error : String) (r : OutboxRow) → ready later (bury error r) ≡ true
unfolding is_live
bury-ready later error r = ground arith
