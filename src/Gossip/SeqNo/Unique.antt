-- ===== src/Gossip/SeqNo/Unique.antt =====
-- Counters that share a file (src/cks_runtime/gossip/seq_no.py), and the numbers they issue.
use cks_runtime.Prelude.{
  ℕ, zero, suc, ◌<◌, String, List, [], ◌∷◌, ◌≡◌, refl, ap, true, Option, none, some, ◌==◌,
  string_eq, if◌then◌else◌, arith, All, get_elem?, ◌∙◌, Option-cases, inl, inr,
}
use cks_runtime.Prelude.Int.{ℤ, pos, negsuc}
use mathlib.Core.Path.{subst}
use mathlib.Core.Option.{some-injective}
use cks_runtime.Dict.{Dict}
use cks_runtime.Dict.Laws.{get_or-put}
use cks_runtime.Gossip.SeqNo.{
  Disk, SeqNoCounter, numbers, read_all, read_one, encode, write_all, init, next,
}

numbers-encode : (d : Dict String ℕ) → numbers (encode d) ≡ d
unfolding numbers encode
numbers-encode [] = refl
numbers-encode ((k, v) ∷ d) = ap (◌∷◌ (k, v)) (numbers-encode d)

-- What is written to a writable file is what is read back.
read_all-write_all :
    (disk : Disk) (values : Dict String ℕ)
    → disk.writable ≡ true
    → read_all (write_all disk values) ≡ values
unfolding read_all write_all
read_all-write_all disk values w = ground (arith, numbers-encode values)

writable-next : (c : SeqNoCounter) (disk : Disk) → (next c disk).1.writable ≡ disk.writable
unfolding next write_all
writable-next c disk = ground arith

-- Every number is above the one that the counter issued before, also without persistence.
pub next-above-value :
    (c : SeqNoCounter) (disk : Disk)
    → (c.value < (next c disk).2) × ((next c disk).0.value ≡ (next c disk).2)
unfolding next
next-above-value c disk = ground arith

-- A persistent counter issues a number above the stored one, stores it, and leaves the numbers of
-- the other replicas alone.
pub next-persisted :
    (c : SeqNoCounter) (disk : Disk)
    → c.persist ≡ true
    → disk.writable ≡ true
    → (read_one disk c.replica_id < (next c disk).2)
      × ((k : String)
          → read_one (next c disk).1 k
            ≡ (if c.replica_id == k then (next c disk).2 else read_one disk k))
unfolding next read_one
next-persisted c disk p w = rw p (
  omega arith,
  λ k. rw (read_all-write_all disk _ w) (get_or-put (read_all disk) c.replica_id k _ 0),
)

-- Several processes of one replica: their counters, and the file that they share.
pub record System : Type 0 where
  pub counters : List SeqNoCounter
  pub disk : Disk

-- Counter `i` issues a number, or a process starts, perhaps after an earlier one was killed.
pub data Event : Type 0 where
  issue : ℕ → Event
  start : ℤ → Event
  stop : ℕ → Event

abbrev pub set_counter : List SeqNoCounter → ℕ → SeqNoCounter → List SeqNoCounter
set_counter [] i c = []
set_counter (x ∷ xs) zero c = c ∷ xs
set_counter (x ∷ xs) (suc i) c = x ∷ set_counter xs i c

abbrev pub drop_counter : List SeqNoCounter → ℕ → List SeqNoCounter
drop_counter [] i = []
drop_counter (x ∷ xs) zero = xs
drop_counter (x ∷ xs) (suc i) = x ∷ drop_counter xs i

abbrev pub add_counter : Option SeqNoCounter → List SeqNoCounter → List SeqNoCounter
add_counter none xs = xs
add_counter (some c) xs = c ∷ xs

-- One event of a replica, and the number that it issues, if any.
pub step : String → System → Event → System × Option ℕ
step r s (issue i) = elim (get_elem? s.counters i) [
  | none ↦ (s, none)
  | some c ↦
      let (c', disk', seq_no) = next c s.disk in
      (record { counters = set_counter s.counters i c'; disk = disk' }, some seq_no)
]
step r s (start first) =
    (record s { counters = add_counter (init s.disk r true first) s.counters }, none)
step r s (stop i) = (record s { counters = drop_counter s.counters i }, none)

abbrev pub emit : Option ℕ → List ℕ → List ℕ
emit none ns = ns
emit (some n) ns = n ∷ ns

-- The numbers that a run of a replica issues, in order.
pub issued : String → System → List Event → List ℕ
issued r s [] = []
issued r s (e ∷ events) = let (s', seq_no) = step r s e in emit seq_no (issued r s' events)

-- Each number of the list is above `low` and above those before it.
abbrev pub Increasing : ℕ → List ℕ → Type 0
Increasing low [] = Unit
Increasing low (n ∷ ns) = (low < n) × Increasing n ns

-- The counters of one replica that share the file.
abbrev pub Shares : String → SeqNoCounter → Type 0
Shares r c = (c.persist ≡ true) × (c.replica_id ≡ r)

Shares-next : (r : String) (c : SeqNoCounter) (disk : Disk) → Shares r c → Shares r (next c disk).0
unfolding next
Shares-next r c disk h = h

All-set_counter :
    (P : SeqNoCounter → Type 0) (xs : List SeqNoCounter) (i : ℕ) (c : SeqNoCounter)
    → All P xs
    → P c
    → All P (set_counter xs i c)
All-set_counter P [] i c h p = tt
All-set_counter P (x ∷ xs) zero c h p = (p, h.1)
All-set_counter P (x ∷ xs) (suc i) c h p = (h.0, All-set_counter P xs i c h.1 p)

All-drop_counter :
    (P : SeqNoCounter → Type 0) (xs : List SeqNoCounter) (i : ℕ)
    → All P xs
    → All P (drop_counter xs i)
All-drop_counter P [] i h = tt
All-drop_counter P (x ∷ xs) zero h = h.1
All-drop_counter P (x ∷ xs) (suc i) h = (h.0, All-drop_counter P xs i h.1)

All-get_elem? :
    (P : SeqNoCounter → Type 0) (xs : List SeqNoCounter) (i : ℕ) (c : SeqNoCounter)
    → All P xs
    → get_elem? xs i ≡ some c
    → P c
All-get_elem? P [] i c h e = cc
All-get_elem? P (x ∷ xs) zero c h e = subst P (some-injective x c e) h.0
All-get_elem? P (x ∷ xs) (suc i) c h e = All-get_elem? P xs i c h.1 e

All-add_counter :
    (r : String) (disk : Disk) (first : ℤ) (xs : List SeqNoCounter)
    → All (Shares r) xs
    → All (Shares r) (add_counter (init disk r true first) xs)
unfolding init
All-add_counter r disk (negsuc n) xs h = h
All-add_counter r disk (pos n) xs h = ground arith

abbrev pub IsReady : String → System → Type 0
IsReady r s = All (Shares r) s.counters × (s.disk.writable ≡ true)

-- What an event does to the stored number.
abbrev Advances : String → System → System × Option ℕ → Type 0
Advances r s (s', none) = read_one s'.disk r ≡ read_one s.disk r
Advances r s (s', some n) = (read_one s.disk r < n) × (read_one s'.disk r ≡ n)

step-IsReady : (r : String) (s : System) (e : Event) → IsReady r s → IsReady r (step r s e).0
unfolding step
step-IsReady r s (start first) h = (All-add_counter r s.disk first s.counters h.0, h.1)
step-IsReady r s (stop i) h = (All-drop_counter (Shares r) s.counters i h.0, h.1)
step-IsReady r s (issue i) h = elim (Option-cases (get_elem? s.counters i)) [
  | inl e ↦ rw (e, step) h
  | inr (c, e) ↦
      rw (e, step)
        (
          All-set_counter (Shares r) s.counters i (next c s.disk).0 h.0
              (Shares-next r c s.disk (All-get_elem? (Shares r) s.counters i c h.0 e)),
          writable-next c s.disk ∙ h.1,
        )
]

step-Advances : (r : String) (s : System) (e : Event) → IsReady r s → Advances r s (step r s e)
unfolding step
step-Advances r s (start first) h = refl
step-Advances r s (stop i) h = refl
step-Advances r s (issue i) h = elim (Option-cases (get_elem? s.counters i)) [
  | inl e ↦ rw (e, step) refl
  | inr (c, e) ↦
      let (persists, same) = All-get_elem? (Shares r) s.counters i c h.0 e in
      let (above, stored) = next-persisted c s.disk persists h.1 in
      rw (e, step)
        (
          subst (λ k. read_one s.disk k < (next c s.disk).2) same above,
          stored r ∙ ground (arith, string_eq.agrees_iff c.replica_id r),
        )
]

-- However the processes of a replica interleave, start and stop, with a shared writable file the
-- numbers that they issue are strictly increasing, above the number stored at the start: no two
-- envelopes of the replica have the same number.
pub issued-Increasing :
    (r : String) (s : System) (events : List Event)
    → IsReady r s
    → Increasing (read_one s.disk r) (issued r s events)
unfolding issued
issued-Increasing r s [] h = tt
issued-Increasing r s (e ∷ events) h =
    add (step r s e) (step-Advances r s e h)
      (issued-Increasing r (step r s e).0 events (step-IsReady r s e h))
  where
    add :
        (t : System × Option ℕ)
        → Advances r s t
        → Increasing (read_one t.0.disk r) (issued r t.0 events)
        → Increasing (read_one s.disk r) (emit t.1 (issued r t.0 events))
    add (s', none) same rest = subst (λ n. Increasing n (issued r s' events)) same rest
    add (s', some n) (above, stored) rest =
        (above, subst (λ m. Increasing m (issued r s' events)) stored rest)
