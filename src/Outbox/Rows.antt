-- ===== src/Outbox/Rows.antt =====
-- Updates, deletions and selections of rows, for src/cks_runtime/storage/sqlite_storage.py.
use cks_runtime.Prelude.{
  ℕ, nat_eq, List, [], ◌∷◌, ◌++◌, ◌≡◌, refl, sym, ap, ◌∙◌, Bool, true, not, none, some, inl, inr,
  ◌⊎◌, arith, Bool-cases, Option-cases, ◌==◌, select, All,
}
use cks_runtime.Outbox.{OutboxRow, update, delete, delete_all, oldest}
use cks_runtime.Storage.Stamp.{at_most}

-- Every row passes a test.
abbrev pub Every : (OutboxRow → Bool) → List OutboxRow → Type 0
Every p rows = All (λ r. p r ≡ true) rows

pub Every-select :
    (p q : OutboxRow → Bool) (rows : List OutboxRow) → Every p rows → Every p (select q rows)
Every-select p q [] h = tt
Every-select p q (r ∷ rs) h = elim (Bool-cases (q r)) [
  | inl kept ↦ rw kept (h.0, Every-select p q rs h.1)
  | inr dropped ↦ rw dropped (Every-select p q rs h.1)
]

pub Every-selected : (p : OutboxRow → Bool) (rows : List OutboxRow) → Every p (select p rows)
Every-selected p [] = tt
Every-selected p (r ∷ rs) = elim (Bool-cases (p r)) [
  | inl kept ↦ rw kept (kept, Every-selected p rs)
  | inr dropped ↦ rw dropped (Every-selected p rs)
]

pub Every-append :
    (p : OutboxRow → Bool) (xs ys : List OutboxRow) → Every p xs → Every p ys → Every p (xs ++ ys)
Every-append p [] ys h k = k
Every-append p (x ∷ xs) ys h k = (h.0, Every-append p xs ys h.1 k)

pub Every-update :
    (p : OutboxRow → Bool) (change : OutboxRow → OutboxRow) (id : ℕ) (rows : List OutboxRow)
    → ((r : OutboxRow) → r.task_id ≡ id → p r ≡ true → p (change r) ≡ true)
    → Every p rows
    → Every p (update change id rows)
unfolding update
Every-update p change id [] keeps h = tt
Every-update p change id (r ∷ rs) keeps h = elim (Bool-cases (r.task_id == id)) [
  | inl same ↦
      rw same (
        keeps r ((nat_eq.agrees_iff r.task_id id).0 same) h.0,
        Every-update p change id rs keeps h.1,
      )
  | inr differs ↦ rw differs (h.0, Every-update p change id rs keeps h.1)
]

pub Every-delete :
    (p : OutboxRow → Bool) (id : ℕ) (rows : List OutboxRow)
    → Every p rows
    → Every p (delete id rows)
unfolding delete
Every-delete p id rows h = Every-select p (λ r. not (r.task_id == id)) rows h

pub Every-delete_all :
    (p : OutboxRow → Bool) (found rows : List OutboxRow)
    → Every p rows
    → Every p (delete_all found rows)
unfolding delete_all
Every-delete_all p [] rows h = h
Every-delete_all p (r ∷ rs) rows h =
    Every-delete_all p rs (delete r.task_id rows) (Every-delete p r.task_id rows h)

-- A row that is found stands among the rows.
abbrev pub Member : OutboxRow → List OutboxRow → Type 0
Member r [] = ⊥
Member r (x ∷ xs) = (x ≡ r) ⊎ Member r xs

pub Member-oldest : (rows : List OutboxRow) (r : OutboxRow) → oldest rows ≡ some r → Member r rows
unfolding oldest
Member-oldest [] r h = absurd (ground arith)
Member-oldest (x ∷ xs) r h = elim (Option-cases (oldest xs)) [
  | inl nothing ↦ inl (ground (arith, rw nothing at h))
  | inr (s, found) ↦ elim (Bool-cases (at_most x.created_at s.created_at)) [
    | inl first ↦ inl (ground (arith, rw (found, first) at h))
    | inr later ↦ inr (Member-oldest xs r (found ∙ ground (arith, rw (found, later) at h)))
  ]
]

pub Every-Member :
    (p : OutboxRow → Bool) (rows : List OutboxRow) (r : OutboxRow)
    → Every p rows
    → Member r rows
    → p r ≡ true
Every-Member p [] r h m = elim m [ ]
Every-Member p (x ∷ xs) r h (inl e) = ap p (sym e) ∙ h.0
Every-Member p (x ∷ xs) r h (inr m) = Every-Member p xs r h.1 m

pub Member-select :
    (q : OutboxRow → Bool) (rows : List OutboxRow) (r : OutboxRow)
    → Member r (select q rows)
    → Member r rows
Member-select q [] r m = m
Member-select q (x ∷ xs) r m = elim (Bool-cases (q x)) [
  | inl kept ↦ elim (rw kept at m) [ inl e ↦ inl e | inr k ↦ inr (Member-select q xs r k) ]
  | inr dropped ↦ inr (Member-select q xs r (rw dropped at m))
]

-- What a query for one row finds: it is in the table, it passes the condition, and it has what all
-- rows of the table have.
pub oldest-found :
    (p q : OutboxRow → Bool) (rows : List OutboxRow) (r : OutboxRow)
    → Every p rows
    → oldest (select q rows) ≡ some r
    → (p r ≡ true) × (q r ≡ true) × Member r rows
oldest-found p q rows r h found =
    let m = Member-oldest (select q rows) r found in
    (
      Every-Member p rows r h (Member-select q rows r m),
      Every-Member q (select q rows) r (Every-selected q rows) m,
      Member-select q rows r m,
    )

-- A query that finds nothing had no row to find.
pub oldest-none :
    (q : OutboxRow → Bool) (rows : List OutboxRow)
    → oldest (select q rows) ≡ none
    → Every (λ r. not (q r)) rows
unfolding oldest
oldest-none q [] h = tt
oldest-none q (r ∷ rs) h = elim (Bool-cases (q r)) [
  | inl kept ↦ elim (Option-cases (oldest (select q rs))) [
    | inl nothing ↦ absurd (ground (arith, rw (kept, nothing) at h))
    | inr (s, found) ↦ elim (Bool-cases (at_most r.created_at s.created_at)) [
      | inl first ↦ absurd (ground (arith, rw (kept, found, first) at h))
      | inr later ↦ absurd (ground (arith, rw (kept, found, later) at h))
    ]
  ]
  | inr dropped ↦ (rw dropped refl, oldest-none q rs (rw dropped at h))
]

-- The key is a primary key.
abbrev pub absent : ℕ → OutboxRow → Bool
absent id r = not (r.task_id == id)

abbrev pub IsUnique : List OutboxRow → Type 0
IsUnique [] = Unit
IsUnique (r ∷ rs) = Every (absent r.task_id) rs × IsUnique rs
