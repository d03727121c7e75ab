-- ===== src/Outbox/Worker/Tests.antt =====
-- Runs of the worker at concrete inputs.
use cks_runtime.Prelude.{[], ◌∷◌, ◌≡◌, refl, false, none, some, arith, select, ltb, if◌then◌else◌}
use cks_runtime.Outbox.{Outbox, is_due, new_row, task_of, dequeue_next_outbox_task}
use cks_runtime.Storage.Stamp.{at_most}
use cks_runtime.Outbox.Requests.{is_task}
use cks_runtime.Outbox.Worker.{Worker, handle_failure, run}
use cks_runtime.Outbox.Worker.Budget.{is_live, budget, attempts_left}
use cks_runtime.Outbox.Worker.Liveness.{run-finishes}
use cks_runtime.Outbox.Worker.Backoff.{handle_failure-same_day}

-- Attempts fail before a time, and succeed from then on.
abbrev failing : Worker
failing = record {
  max_retries = 2;
  execute_task = λ now session payload. if ltb now 200000 then some "no session" else none;
}

abbrev table : Outbox
table = record {
  rows = new_row 1 1000 "projection" "s" "p" ∷ new_row 2 1001 "projection" "s" "q" ∷ [];
  next_id = 3;
}

run-finishes_example :
    select is_live
      (run failing
        ((2000, 2001) ∷ (100000, 100001) ∷ (200000, 200001) ∷ (300000, 300002) ∷ [])
        table).rows
    ≡ []
unfolding is_due is_live at_most budget attempts_left
run-finishes_example =
    run-finishes failing 2000
      ((2000, 2001) ∷ (100000, 100001) ∷ (200000, 200001) ∷ (300000, 300002) ∷ []) table
      (record { unique = ((refl, tt), (tt, tt)); all_ready = (refl, (refl, tt)) })
      (
        omega arith,
        omega arith,
        (omega arith, omega arith, (omega arith, omega arith, (omega arith, omega arith, tt))),
      )
      (omega arith)

handle_failure-same_day_example :
    is_task 1
      (dequeue_next_outbox_task 80000 none (
        handle_failure 5 2000 (task_of (new_row 1 1000 "projection" "s" "p")) "no session" table)).1
    ≡ false
handle_failure-same_day_example =
    handle_failure-same_day 5 2000 80000 (task_of (new_row 1 1000 "projection" "s" "p"))
      "no session" none table (omega arith) (omega arith)
