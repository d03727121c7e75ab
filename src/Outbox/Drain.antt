-- ===== src/Outbox/Drain.antt =====
-- What a drain of src/cks_runtime/storage/sqlite_storage.py takes and what it leaves.
use mathlib.Core.Path.{subst}
use cks_runtime.Prelude.{
  insert_by, sort_by, ℕ, String, string_eq, nat_eq, List, [], ◌∷◌, ◌≡◌, refl, sym, ap, ◌∙◌, Bool,
  true, false, not, ◌||◌, ◌&&◌, Option, none, some, inl, inr, arith, Bool-cases, and-eq-true, ◌↔◌,
  fun_ext, ◌==◌, ==_refl, select, map,
}
use cks_runtime.Outbox.{
  TaskStatus, pending, in_progress, dead, is_pending, matches, OutboxRow, Outbox, delete, any_row,
  by_age, delete_all, waits, list_tasks_by_type, task_of,
}
use cks_runtime.Storage.Stamp.{at_most}
use cks_runtime.Outbox.Rows.{Every, Member, Every-Member, IsUnique, absent}

abbrev pub has_id : ℕ → OutboxRow → Bool
has_id id r = r.task_id == id

any_row-insert_by :
    (before : OutboxRow → OutboxRow → Bool) (p : OutboxRow → Bool) (r : OutboxRow)
    (rows : List OutboxRow)
    → any_row p (insert_by before r rows) ≡ (p r || any_row p rows)
any_row-insert_by before p r [] = refl
any_row-insert_by before p r (s ∷ rs) = elim (Bool-cases (before r s)) [
  | inl first ↦ rw first refl
  | inr later ↦ rw later (ground (arith, any_row-insert_by before p r rs))
]

any_row-sort_by :
    (before : OutboxRow → OutboxRow → Bool) (p : OutboxRow → Bool) (rows : List OutboxRow)
    → any_row p (sort_by before rows) ≡ any_row p rows
unfolding sort_by
any_row-sort_by before p [] = refl
any_row-sort_by before p (r ∷ rs) =
    any_row-insert_by before p r (sort_by before rs)
    ∙ ap (λ b. p r || b) (any_row-sort_by before p rs)

any_row-by_age :
    (p : OutboxRow → Bool) (rows : List OutboxRow) → any_row p (by_age rows) ≡ any_row p rows
unfolding by_age
any_row-by_age p rows = any_row-sort_by (λ r s. at_most r.created_at s.created_at) p rows

select-select :
    (p q : OutboxRow → Bool) (rows : List OutboxRow)
    → select p (select q rows) ≡ select (λ r. q r && p r) rows
select-select p q [] = refl
select-select p q (r ∷ rs) = elim (Bool-cases (q r)) [
  | inl kept ↦ rw (kept, select-select p q rs) refl
  | inr dropped ↦ rw (dropped, select-select p q rs) refl
]

select-agree :
    (p q : OutboxRow → Bool) (rows : List OutboxRow)
    → ((r : OutboxRow) → Member r rows → p r ≡ q r)
    → select p rows ≡ select q rows
select-agree p q [] same = refl
select-agree p q (r ∷ rs) same =
    rw (same r (inl refl), select-agree p q rs (λ x m. same x (inr m))) refl

select-all : (rows : List OutboxRow) → select (λ r. true) rows ≡ rows
select-all [] = refl
select-all (r ∷ rs) = ap (λ x. r ∷ x) (select-all rs)

delete_all-select :
    (found rows : List OutboxRow)
    → delete_all found rows ≡ select (λ r. not (any_row (has_id r.task_id) found)) rows
unfolding delete_all delete
delete_all-select [] rows = sym (select-all rows)
delete_all-select (f ∷ fs) rows =
    delete_all-select fs (delete f.task_id rows)
    ∙ select-select (λ r. not (any_row (has_id r.task_id) fs)) (λ r. not (r.task_id == f.task_id))
        rows
    ∙ select-agree (λ r. not (r.task_id == f.task_id) && not (any_row (has_id r.task_id) fs))
        (λ r. not (any_row (has_id r.task_id) (f ∷ fs))) rows (λ r m. ground arith)

any_row-absent :
    (p : OutboxRow → Bool) (id : ℕ) (rows : List OutboxRow)
    → Every (absent id) rows
    → any_row (has_id id) (select p rows) ≡ false
any_row-absent p id [] h = refl
any_row-absent p id (r ∷ rs) h = elim (Bool-cases (p r)) [
  | inl kept ↦ rw kept (ground (arith, h.0, any_row-absent p id rs h.1))
  | inr dropped ↦ rw dropped (any_row-absent p id rs h.1)
]

-- The key of a row is among the selected keys exactly where the row is selected.
any_row-Member :
    (p : OutboxRow → Bool) (rows : List OutboxRow) (r : OutboxRow)
    → IsUnique rows
    → Member r rows
    → any_row (has_id r.task_id) (select p rows) ≡ p r
any_row-Member p [] r u m = elim m [ ]
any_row-Member p (x ∷ xs) r u (inl e) =
    subst (λ y. any_row (has_id y.task_id) (select p (x ∷ xs)) ≡ p y) e
      (elim (Bool-cases (p x)) [
        | inl kept ↦ rw (kept, ==_refl x.task_id) refl
        | inr dropped ↦ rw dropped (any_row-absent p x.task_id xs u.0)
      ])
any_row-Member p (x ∷ xs) r u (inr m) =
    let other : (x.task_id == r.task_id) ≡ false =
      ground (arith, Every-Member (absent x.task_id) xs r u.0 m) in
    elim (Bool-cases (p x)) [
      | inl kept ↦ rw (kept, other) (any_row-Member p xs r u.1 m)
      | inr dropped ↦ rw dropped (any_row-Member p xs r u.1 m)
    ]

drained :
    (p : OutboxRow → Bool) (rows : List OutboxRow)
    → IsUnique rows
    → delete_all (by_age (select p rows)) rows ≡ select (λ r. not (p r)) rows
drained p rows u =
    delete_all-select (by_age (select p rows)) rows
    ∙ select-agree (λ r. not (any_row (has_id r.task_id) (by_age (select p rows)))) (λ r. not (p r))
        rows
        (λ r m.
          ap not (any_row-by_age (has_id r.task_id) (select p rows) ∙ any_row-Member p rows r u m))

nothing_left :
    (p : OutboxRow → Bool) (rows : List OutboxRow) → select p (select (λ r. not (p r)) rows) ≡ []
nothing_left p [] = refl
nothing_left p (r ∷ rs) = elim (Bool-cases (p r)) [
  | inl kept ↦ rw kept (nothing_left p rs)
  | inr dropped ↦ rw (dropped, dropped) (nothing_left p rs)
]

nothing_by_age : by_age [] ≡ []
unfolding by_age sort_by
nothing_by_age = refl

-- What a caller of a listing asks for: tasks of a type that nobody has claimed, of one session where
-- one is given.
abbrev pub OfSession : Option String → OutboxRow → Type 0
OfSession none r = Unit
OfSession (some id) r = r.session_id ≡ id

pub record IsWaiting (task_type : String) (session_id : Option String) (r : OutboxRow)
    : Type 0 where
  pub of_type : r.task_type ≡ task_type
  pub unclaimed : r.status ≡ pending
  pub of_session : OfSession session_id r

matches-OfSession :
    (session_id : Option String) (r : OutboxRow)
    → (matches session_id r.session_id ≡ true) ↔ OfSession session_id r
matches-OfSession none r = ((λ h. tt), (λ h. refl))
matches-OfSession (some id) r = string_eq.agrees_iff r.session_id id

pub is_pending-pending : (s : TaskStatus) → (is_pending s ≡ true) ↔ (s ≡ pending)
is_pending-pending pending = ((λ h. refl), (λ h. refl))
is_pending-pending in_progress = ((λ h. absurd (ground arith)), (λ h. ap is_pending h))
is_pending-pending dead = ((λ h. absurd (ground arith)), (λ h. ap is_pending h))

waits_iff :
    (task_type : String) (session_id : Option String) (r : OutboxRow)
    → (waits task_type session_id r ≡ true) ↔ IsWaiting task_type session_id r
waits_iff task_type session_id r = (
  (λ h.
      let (both, mine) =
        and-eq-true (r.task_type == task_type && is_pending r.status)
          (matches session_id r.session_id) h in
      let (kind, free) = and-eq-true (r.task_type == task_type) (is_pending r.status) both in
      record {
        of_type = (string_eq.agrees_iff r.task_type task_type).0 kind;
        unclaimed = (is_pending-pending r.status).0 free;
        of_session = (matches-OfSession session_id r).0 mine;
      }),
  (λ w.
      rw
        (
          (string_eq.agrees_iff r.task_type task_type).1 w.of_type,
          (is_pending-pending r.status).1 w.unclaimed,
          (matches-OfSession session_id r).1 w.of_session,
        )
        refl),
)

same_test : (a b : Bool) {P : Type 0} → (a ≡ true) ↔ P → (b ≡ true) ↔ P → a ≡ b
same_test true b f g = sym (g.1 (f.0 refl))
same_test false true f g = f.1 (g.0 refl)
same_test false false f g = refl

-- Where the keys are distinct, and for any test that holds of exactly the rows of the type that are
-- pending and of the given session, if one is given: a drain returns the tasks of the rows of which
-- the test holds, the oldest first, and leaves exactly the others, claimed and dead ones among them,
-- in their order. A listing that follows is empty.
pub list_tasks_by_type-drain :
    (task_type : String) (session_id : Option String) (o : Outbox) (wanted : OutboxRow → Bool)
    → ((r : OutboxRow) → (wanted r ≡ true) ↔ IsWaiting task_type session_id r)
    → IsUnique o.rows
    → let drained = list_tasks_by_type task_type session_id true o in
      (drained.1 ≡ map task_of (by_age (select wanted o.rows)))
      × (drained.0.rows ≡ select (λ r. not (wanted r)) o.rows)
      × ((list_tasks_by_type task_type session_id false drained.0).1 ≡ [])
unfolding list_tasks_by_type
list_tasks_by_type-drain task_type session_id o wanted decides u =
    let p = waits task_type session_id in
    let same : p ≡ wanted =
      fun_ext (λ r. same_test (p r) (wanted r) (waits_iff task_type session_id r) (decides r)) in
    let left = drained p o.rows u in
    (
      ap (λ q. map task_of (by_age (select q o.rows))) same,
      left ∙ ap (λ (q : OutboxRow → Bool). select (λ r. not (q r)) o.rows) same,
      ap (λ rows. map task_of (by_age (select p rows))) left
          ∙ ap (λ rows. map task_of (by_age rows)) (nothing_left p o.rows)
          ∙ ap (map task_of) nothing_by_age,
    )
