-- ===== src/Gossip/Filter/Window.antt =====
-- Whole runs of the filter (src/cks_runtime/gossip/filter.py).
use cks_runtime.Prelude.{
  ℕ, String, List, [], ◌∷◌, ◌≡◌, refl, Bool, true, false, Option, none, some, contains, ◌==◌,
  string_eq, nat_eq, if◌then◌else◌, arith, ap,
}
use cks_runtime.Prelude.Text.{strip}
use cks_runtime.Prelude.Int.{ℤ, pos, negsuc, Wire, int, malformed}
use cks_runtime.Dict.{get_or}
use cks_runtime.Gossip.Filter.{
  Filter, Message, init, check, nonce_step, sequence_step, timestamp_passes,
}
use cks_runtime.Gossip.Filter.Sequence.{
  Log, accepted, admits, note, Tracks, check_sequence-admits, check_sequence-Tracks, init-Tracks,
}

-- The sequence number of a message, if it has one that is a natural number.
abbrev pub seq_of : Option Wire → Option ℕ
seq_of (some (int (pos seq))) = some seq
seq_of _ = none

abbrev pub note_wire : Bool → String → Option ℕ → Log → Log
note_wire passed x (some seq) log = note passed x seq log
note_wire passed x none log = log

-- A run of the filter over incoming messages, each with the time at which it arrives, and the
-- numbers that it accepts.
unfoldable pub run : Filter → Log → List (Message × ℕ) → Filter × Log
run f log [] = (f, log)
run f log ((m, now_ms) ∷ rest) =
    let (f', passed) = check f m now_ms in
    run f' (note_wire passed (strip m.sender_replica_id) (seq_of m.seq_no) log) rest

-- No pair of a sender and a number stands twice in the log.
abbrev pub Distinct : Log → Type 0
Distinct [] = Unit
Distinct ((x, seq) ∷ log) = (contains (accepted log x) seq ≡ false) × Distinct log

-- The parts of a filter that the sequence check reads.
record SameSequences (f g : Filter) : Type 0 where
  window : f.max_seq_reorder_window ≡ g.max_seq_reorder_window
  last : f.last_seq ≡ g.last_seq
  seen : f.seen_seq ≡ g.seen_seq

Tracks-SameSequences : (f g : Filter) (log : Log) → SameSequences f g → Tracks f log → Tracks g log
Tracks-SameSequences f g log e t = record {
  last = λ x. ground (arith, t.last x);
  seen = λ x s. ground (arith, t.seen x s, ap (λ d. get_or d x []) e.seen);
}

nonce_step-SameSequences :
    (f : Filter) (x : String) (nonce : Option String) → SameSequences f (nonce_step f x nonce).0
unfolding nonce_step
nonce_step-SameSequences f x none = record { window = refl; last = refl; seen = refl }
nonce_step-SameSequences f x (some nonce) = ground arith

-- A filter in step with a history without repetitions.
pub record IsSound (f : Filter) (log : Log) : Type 0 where
  pub tracks : Tracks f log
  pub distinct : Distinct log

note-Distinct :
    (f : Filter) (log : Log) (x : String) (seq : ℕ) (b : Bool)
    → b ≡ admits f.max_seq_reorder_window (accepted log x) seq
    → Distinct log
    → Distinct (note b x seq log)
note-Distinct f log x seq true e d = (ground arith, d)
note-Distinct f log x seq false e d = d

sequence_step-IsSound :
    (f : Filter) (log : Log) (x : String) (seq_no : Option Wire)
    → IsSound f log
    → IsSound
        (sequence_step f x seq_no).0
        (note_wire (sequence_step f x seq_no).1 x (seq_of seq_no) log)
unfolding sequence_step
sequence_step-IsSound f log x none s = s
sequence_step-IsSound f log x (some malformed) s = s
sequence_step-IsSound f log x (some (int (negsuc n))) s = s
sequence_step-IsSound f log x (some (int (pos seq))) s = record {
  tracks = check_sequence-Tracks f log x seq s.tracks;
  distinct = note-Distinct f log x seq _ (check_sequence-admits f log x seq s.tracks) s.distinct;
}

-- A result of the filter at which the log is noted keeps everything sound.
abbrev Good : String → Option ℕ → Log → Filter × Bool → Type 0
Good x w log r = IsSound r.0 (note_wire r.1 x w log)

Good-if :
    (x : String) (w : Option ℕ) (log : Log) (b : Bool) (r r' : Filter × Bool)
    → Good x w log r
    → Good x w log r'
    → Good x w log (if b then r else r')
Good-if x w log true r r' h k = h
Good-if x w log false r r' h k = k

Good-rejected :
    (x : String) (w : Option ℕ) (log : Log) (f : Filter) → IsSound f log → Good x w log (f, false)
Good-rejected x none log f s = s
Good-rejected x (some seq) log f s = s

nonce_step-IsSound :
    (f : Filter) (log : Log) (x : String) (nonce : Option String)
    → IsSound f log
    → IsSound (nonce_step f x nonce).0 log
nonce_step-IsSound f log x nonce s = record {
  tracks = Tracks-SameSequences f _ log (nonce_step-SameSequences f x nonce) s.tracks;
  distinct = s.distinct;
}

pub check-IsSound :
    (f : Filter) (log : Log) (m : Message) (now_ms : ℕ)
    → IsSound f log
    → Good (strip m.sender_replica_id) (seq_of m.seq_no) log (check f m now_ms)
unfolding check
check-IsSound f log m now_ms s =
    let x = strip m.sender_replica_id in
    let w = seq_of m.seq_no in
    let f' = (nonce_step f x m.nonce).0 in
    let s' = nonce_step-IsSound f log x m.nonce s in
    Good-if x w log (x == "") _ _ (Good-rejected x w log f s) (
      Good-if x w log (timestamp_passes f m now_ms) _ _
        (Good-if x w log (nonce_step f x m.nonce).1 _ _ (sequence_step-IsSound f' log x m.seq_no s')
          (Good-rejected x w log f' s'))
        (Good-rejected x w log f s))

run-IsSound :
    (f : Filter) (log : Log) (messages : List (Message × ℕ))
    → IsSound f log
    → IsSound (run f log messages).0 (run f log messages).1
unfolding run
run-IsSound f log [] s = s
run-IsSound f log ((m, now_ms) ∷ rest) s =
    run-IsSound (check f m now_ms).0
      (note_wire (check f m now_ms).1 (strip m.sender_replica_id) (seq_of m.seq_no) log) rest
      (check-IsSound f log m now_ms s)

-- Whatever messages arrive, at whatever times and in whatever order, a new filter accepts no
-- sequence number of a sender twice.
pub run-Distinct :
    (skew cache window : ℤ) (messages : List (Message × ℕ))
    → Distinct (run (init skew cache window) [] messages).1
run-Distinct skew cache window messages =
    (run-IsSound (init skew cache window) [] messages
      (record { tracks = init-Tracks skew cache window; distinct = tt })).distinct

-- The filter after a run, and its history.
abbrev pub filter_after : ℤ → ℤ → ℤ → List (Message × ℕ) → Filter
filter_after skew cache window messages = (run (init skew cache window) [] messages).0

abbrev pub log_after : ℤ → ℤ → ℤ → List (Message × ℕ) → Log
log_after skew cache window messages = (run (init skew cache window) [] messages).1

-- After any run, a message that passes the checks of its time and of its nonce is accepted exactly
-- when its number was never accepted from its sender and is not behind the reorder window of the
-- highest accepted one, whether it lies above or below that one.
pub check-admits :
    (skew cache window : ℤ) (messages : List (Message × ℕ)) (m : Message) (now_ms seq : ℕ)
    → (strip m.sender_replica_id == "") ≡ false
    → timestamp_passes (filter_after skew cache window messages) m now_ms ≡ true
    → (nonce_step (filter_after skew cache window messages) (strip m.sender_replica_id) m.nonce).1
      ≡ true
    → m.seq_no ≡ some (int (pos seq))
    → (check (filter_after skew cache window messages) m now_ms).1
      ≡ admits
          (filter_after skew cache window messages).max_seq_reorder_window
          (accepted (log_after skew cache window messages) (strip m.sender_replica_id))
          seq
unfolding check sequence_step
check-admits skew cache window messages m now_ms seq named timely fresh number =
    let f = filter_after skew cache window messages in
    let x = strip m.sender_replica_id in
    let s =
      run-IsSound (init skew cache window) [] messages
        (record { tracks = init-Tracks skew cache window; distinct = tt }) in
    let same = nonce_step-SameSequences f x m.nonce in
    let t = (nonce_step-IsSound f (log_after skew cache window messages) x m.nonce s).tracks in
    ground (
      arith,
      check_sequence-admits (nonce_step f x m.nonce).0 (log_after skew cache window messages) x seq
          t,
      same.window,
    )
