-- ===== src/Gossip/Tests.antt =====
-- Runs of the filter, the counter and the scheduler at concrete inputs.
use cks_runtime.Prelude.{
  ℕ, ◌<◌, String, List, [], ◌∷◌, ◌≡◌, refl, true, false, none, some, ◌==◌, string_eq, nat_eq, arith,
  contains, ==_refl, if◌then◌else◌,
}
use cks_runtime.Prelude.Text.{strip}
use cks_runtime.Prelude.Int.{pos, int}
use cks_runtime.Dict.{get, get_or, has, put, IsDict}
use cks_runtime.Gossip.Filter.{Message, init, check, timestamp_passes, nonce_step}
use cks_runtime.Gossip.Filter.Sequence.{accepted, admits}
use cks_runtime.Gossip.Filter.Window.{
  run, Distinct, run-Distinct, filter_after, log_after, check-admits,
}
use cks_runtime.Gossip.SeqNo.{Disk, SeqNoCounter, read_one, next}
use cks_runtime.Gossip.SeqNo.Unique.{
  System, issue, start, stop, issued, Increasing, next-persisted, issued-Increasing,
}
use cks_runtime.Gossip.Scheduling.{PeerScheduler, new_stats, eligible}
use cks_runtime.Gossip.Scheduling.Backoff.{contains-eligible}

abbrev numbered : ℕ → Message
numbered seq = record {
  sender_replica_id = "r1";
  nonce = none;
  seq_no = some (int (pos seq));
  timestamp_ms = none;
  ttl_ms = none;
}

-- Number 7 arrives late and passes; its replay, and the far too old number 1, do not.
abbrev messages : List (Message × ℕ)
messages =
    (numbered 70, 0) ∷ (numbered 7, 1) ∷ (numbered 7, 2) ∷ (numbered 1, 3) ∷ (numbered 71, 4) ∷ []

log_of_run :
    log_after (pos 10) (pos 10) (pos 64) messages ≡ ("r1", 71) ∷ ("r1", 7) ∷ ("r1", 70) ∷ []
unfolding run check init strip get get_or put has
log_of_run = refl

run-Distinct_example : Distinct (run (init (pos 10) (pos 10) (pos 64)) [] messages).1
run-Distinct_example = run-Distinct (pos 10) (pos 10) (pos 64) messages

check-admits_example :
    (check (filter_after (pos 10) (pos 10) (pos 64) messages) (numbered 8) 5).1
    ≡ admits
        (filter_after (pos 10) (pos 10) (pos 64) messages).max_seq_reorder_window
        (accepted (log_after (pos 10) (pos 10) (pos 64) messages) (strip "r1"))
        8
unfolding strip timestamp_passes nonce_step
check-admits_example =
    check-admits (pos 10) (pos 10) (pos 64) messages (numbered 8) 5 8 refl refl refl refl

abbrev disk : Disk
disk = record { content = none; writable = true }

abbrev counter : SeqNoCounter
counter = record { replica_id = "r1"; persist = true; value = 4 }

next-persisted_example :
    (read_one disk counter.replica_id < (next counter disk).2)
    × ((k : String)
        → read_one (next counter disk).1 k
          ≡ (if counter.replica_id == k then (next counter disk).2 else read_one disk k))
next-persisted_example = next-persisted counter disk refl refl

abbrev service_and_server : System
service_and_server = record { counters = counter ∷ record counter { value = 0 } ∷ []; disk = disk }

issued-Increasing_example :
    Increasing
      (read_one disk "r1")
      (issued "r1" service_and_server (issue 1 ∷ issue 0 ∷ stop 0 ∷ start (pos 0) ∷ issue 0 ∷ []))
issued-Increasing_example =
    issued-Increasing "r1" service_and_server
      (issue 1 ∷ issue 0 ∷ stop 0 ∷ start (pos 0) ∷ issue 0 ∷ [])
      (((refl, refl), ((refl, refl), tt)), refl)

abbrev scheduler : PeerScheduler
scheduler = record {
  stats = ("p", new_stats) ∷ ("q", new_stats) ∷ [];
  base_ms = 1000;
  max_ms = 300000;
}

scheduler-IsDict : IsDict scheduler.stats
unfolding get
scheduler-IsDict = (refl, (refl, tt))

contains-eligible_example :
    contains (eligible scheduler.stats 9) "p" ≡ (elim (get scheduler.stats "p") [
      | none ↦ false
      | some stats ↦ (elim (Prim.Native.Nat.compare stats.backoff_until_ms 9) [
        | Prim.Native.Nat.Ordering.gt ↦ false
        | _ ↦ true
      ])
    ])
contains-eligible_example = contains-eligible scheduler.stats "p" 9 scheduler-IsDict

first-member : (p : String) (ps : List String) (ws : List (ℕ × ℕ)) → contains (p ∷ ps) p ≡ true
first-member p ps ws = ground (arith, ==_refl p)
