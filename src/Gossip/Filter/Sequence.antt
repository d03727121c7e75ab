-- ===== src/Gossip/Filter/Sequence.antt =====
-- The sequence check against the full history of what was accepted.
use cks_runtime.Prelude.{
  ℕ, ◌+◌, max, String, List, [], ◌∷◌, ◌++◌, ◌≡◌, refl, Bool, true, false, Option, none, some, leb,
  not, contains, ◌==◌, string_eq, nat_eq, if◌then◌else◌, arith, ◌&&◌, ◌||◌, contains-append,
  contains-select_eq, eqb, ◌∙◌, Option-cases, inl, inr,
}
use cks_runtime.Prelude.Int.{ℤ, pos, int}
use cks_runtime.Dict.{get, get_or, put, set_default}
use cks_runtime.Dict.Laws.{get-put, get_or-put, get_or-some, get_or-set_default}
use cks_runtime.Gossip.Filter.{Filter, too_old, is_newer, prune, check_sequence, init}

-- Every accepted pair of a sender and a sequence number, the latest first.
abbrev pub Log : Type 0
Log = List (String × ℕ)

abbrev pub accepted : Log → String → List ℕ
accepted [] sender = []
accepted ((x, seq) ∷ log) sender =
    if x == sender then seq ∷ accepted log sender else accepted log sender

abbrev pub join : Option ℕ → ℕ → ℕ
join none seq = seq
join (some m) seq = max m seq

abbrev pub highest : List ℕ → Option ℕ
highest [] = none
highest (seq ∷ seqs) = some (join (highest seqs) seq)

-- What the filter promises: a number passes if it is not behind the window of the highest accepted
-- one, and was never accepted before.
abbrev pub admits : ℕ → List ℕ → ℕ → Bool
admits window seqs seq = not (too_old window (highest seqs) seq) && not (contains seqs seq)

pub record Tracks (f : Filter) (log : Log) : Type 0 where
  pub last : (x : String) → get f.last_seq x ≡ highest (accepted log x)
  pub seen :
      (x : String) (s : ℕ)
      → contains (get_or f.seen_seq x []) s ≡ (
          contains (accepted log x) s
          && not (too_old f.max_seq_reorder_window (highest (accepted log x)) s))

-- On the numbers the check computes what the history admits.
pub check_sequence-admits :
    (f : Filter) (log : Log) (x : String) (seq : ℕ)
    → Tracks f log
    → (check_sequence f x (int (pos seq))).1 ≡ admits f.max_seq_reorder_window (accepted log x) seq
unfolding check_sequence
check_sequence-admits f log x seq t =
    ground (arith, t.last x, t.seen x seq, get_or-set_default f.seen_seq x x [])

-- The history after a check.
abbrev pub note : Bool → String → ℕ → Log → Log
note true x seq log = (x, seq) ∷ log
note false x seq log = log

module _ (f : Filter) (log : Log) (x : String) (seq : ℕ) (t : Tracks f log) where
  abbrev after : Filter
  after = (check_sequence f x (int (pos seq))).0

  abbrev passed : Bool
  passed = (check_sequence f x (int (pos seq))).1

  last-after : (y : String) → get after.last_seq y ≡ highest (accepted (note passed x seq log) y)
  unfolding check_sequence
  last-after y =
      ground (arith, t.last x, t.last y, get-put f.last_seq x y seq, string_eq.agrees_iff x y)

  -- The new high-water mark is the highest number accepted so far.
  high_water :
      get_or (if is_newer (get f.last_seq x) seq then put f.last_seq x seq else f.last_seq) x 0
      ≡ join (highest (accepted log x)) seq
  high_water = elim (Option-cases (highest (accepted log x))) [
    | inl new ↦
        ground (arith, new, t.last x, get_or-put f.last_seq x x seq 0, string_eq.agrees_iff x x)
    | inr (m, old) ↦ ground (
      arith,
      old,
      t.last x,
      get_or-put f.last_seq x x seq 0,
      get_or-some f.last_seq x 0 m (t.last x ∙ old),
      string_eq.agrees_iff x x,
    )
  ]

  -- What the clean-up keeps of the numbers seen so far and the new one.
  contains-prune :
      (window hi : ℕ) (seen : List ℕ) (s : ℕ)
      → contains (prune window hi (seen ++ seq ∷ [])) s
        ≡ (not (leb (s + window) hi) && (contains seen s || eqb seq s))
  unfolding prune
  contains-prune window hi seen s = ground (
    arith,
    contains-select_eq (λ j. not (leb (j + window) hi)) (seen ++ seq ∷ []) s,
    contains-append seen (seq ∷ []) s,
  )

  seen-after :
      (y : String) (s : ℕ)
      → contains (get_or after.seen_seq y []) s ≡ (
          contains (accepted (note passed x seq log) y) s
          && not
              (too_old f.max_seq_reorder_window (highest (accepted (note passed x seq log) y)) s))
  unfolding check_sequence
  seen-after y s = ground (
    arith,
    t.last x,
    t.seen x seq,
    t.seen y s,
    high_water,
    get_or-set_default f.seen_seq x x [],
    get_or-set_default f.seen_seq x y [],
    get_or-put (set_default f.seen_seq x []) x y
        (prune f.max_seq_reorder_window (join (highest (accepted log x)) seq)
          (get_or (set_default f.seen_seq x []) x [] ++ seq ∷ []))
        [],
    contains-prune f.max_seq_reorder_window (join (highest (accepted log x)) seq)
        (get_or (set_default f.seen_seq x []) x []) s,
    string_eq.agrees_iff x y,
  )

  window-after : after.max_seq_reorder_window ≡ f.max_seq_reorder_window
  unfolding check_sequence
  window-after = ground arith

  -- The check keeps the filter in step with the history.
  pub check_sequence-Tracks : Tracks after (note passed x seq log)
  check_sequence-Tracks = record {
    last = last-after;
    seen = λ y s. rw window-after (seen-after y s);
  }

pub init-Tracks : (a b c : ℤ) → Tracks (init a b c) []
unfolding init get get_or
init-Tracks a b c = record { last = λ x. refl; seen = λ x s. refl }
