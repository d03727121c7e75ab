-- ===== src/Storage/Stamp.antt =====
-- Times in the columns of src/cks_runtime/storage/sqlite_storage.py, and how they compare.
use cks_runtime.Prelude.{
  ℕ, ◌/◌, ◌%◌, ◌≤◌, ◌<◌, ◌≡◌, Bool, true, false, ◌&&◌, ◌||◌, ltb, leb, eqb, arith,
}

-- A time as text: the date, the character after it and the time of the day. The fields before the
-- fraction have a fixed width, so the order of the texts is that of the three fields in turn.
pub record Stamp : Type 0 where
  pub day : ℕ
  pub mark : ℕ
  pub second : ℕ

-- `datetime('now')` at a second since the epoch, with a blank (32) after the date.
abbrev pub datetime : ℕ → Stamp
datetime t = record { day = t / 86400; mark = 32; second = t % 86400 }

-- `datetime.now(UTC).isoformat()`, with a "T" (84) after the date.
abbrev pub isoformat : ℕ → Stamp
isoformat t = record { day = t / 86400; mark = 84; second = t % 86400 }

-- `a <= b` on two columns.
unfoldable pub at_most : Stamp → Stamp → Bool
at_most a b =
    ltb a.day b.day
    || (eqb a.day b.day && (ltb a.mark b.mark || (eqb a.mark b.mark && leb a.second b.second)))

pub at_most_trans : (a b c : Stamp) → at_most a b ≡ true → at_most b c ≡ true → at_most a c ≡ true
unfolding at_most
at_most_trans a b c h k = ground arith

pub at_most-datetime : (s t : ℕ) → s ≤ t → at_most (datetime s) (datetime t) ≡ true
unfolding at_most
at_most-datetime s t h = ground arith

pub le_of_at_most : (s t : ℕ) → at_most (datetime s) (datetime t) ≡ true → s ≤ t
unfolding at_most
le_of_at_most s t h = ground arith

-- A time with a "T" is no later than one with a blank only where its day is over.
pub at_most-isoformat :
    (s t : ℕ) → s / 86400 < t / 86400 → at_most (isoformat s) (datetime t) ≡ true
unfolding at_most
at_most-isoformat s t h = ground arith

pub isoformat-same_day :
    (s t : ℕ) → t / 86400 ≤ s / 86400 → at_most (isoformat s) (datetime t) ≡ false
unfolding at_most
isoformat-same_day s t h = ground arith
