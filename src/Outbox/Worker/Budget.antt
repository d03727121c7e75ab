-- ===== src/Outbox/Worker/Budget.antt =====
-- The attempts that are left to the worker of src/cks_runtime/projection/outbox_worker.py.
use cks_runtime.Prelude.{
  ℕ, ◌+◌, ◌-◌, string_eq, nat_eq, List, [], ◌∷◌, ◌≡◌, refl, ap, Bool, true, false, not, ◌&&◌, inl,
  inr, arith, Bool-cases, ==_refl, ◌==◌, if◌then◌else◌,
}
use mathlib.Core.Path.{subst}
use cks_runtime.Outbox.{OutboxRow, update, delete, is_dead}
use cks_runtime.Outbox.Rows.{
  absent, IsUnique, Every, Every-update, Every-delete, Member, Every-Member,
}
use cks_runtime.Outbox.Worker.{projection}

-- A task of the worker that is not yet finished.
unfoldable pub is_live : OutboxRow → Bool
is_live r = r.task_type == projection && not (is_dead r.status)

-- The attempts that a task may still take, at least one while it lives.
unfoldable pub attempts_left : ℕ → OutboxRow → ℕ
attempts_left max_retries r = if is_live r then 1 + (max_retries - (1 + r.retry_count)) else 0

unfoldable pub budget : ℕ → List OutboxRow → ℕ
budget max_retries [] = 0
budget max_retries (r ∷ rs) = attempts_left max_retries r + budget max_retries rs

update-absent :
    (change : OutboxRow → OutboxRow) (id : ℕ) (rows : List OutboxRow)
    → Every (absent id) rows
    → update change id rows ≡ rows
unfolding update
update-absent change id [] h = refl
update-absent change id (r ∷ rs) h =
    let other : (r.task_id == id) ≡ false = ground (arith, h.0) in
    rw other (ap (λ x. r ∷ x) (update-absent change id rs h.1))

delete-absent : (id : ℕ) (rows : List OutboxRow) → Every (absent id) rows → delete id rows ≡ rows
unfolding delete
delete-absent id [] h = refl
delete-absent id (r ∷ rs) h = rw h.0 (ap (λ x. r ∷ x) (delete-absent id rs h.1))

-- What a change of the one row does to the attempts that are left.
pub budget-update :
    (m : ℕ) (change : OutboxRow → OutboxRow) (rows : List OutboxRow) (r : OutboxRow)
    → IsUnique rows
    → Member r rows
    → budget m (update change r.task_id rows) + attempts_left m r
      ≡ budget m rows + attempts_left m (change r)
unfolding update budget
budget-update m change [] r u found = elim found [ ]
budget-update m change (x ∷ xs) r u (inl e) =
    subst
      (λ y.
        budget m (update change y.task_id (x ∷ xs)) + attempts_left m y
        ≡ budget m (x ∷ xs) + attempts_left m (change y))
      e (rw (==_refl x.task_id, update-absent change x.task_id xs u.0) (omega arith))
budget-update m change (x ∷ xs) r u (inr found) =
    let other : (x.task_id == r.task_id) ≡ false =
      ground (arith, Every-Member (absent x.task_id) xs r u.0 found) in
    rw other (omega (arith, budget-update m change xs r u.1 found))

pub budget-delete :
    (m : ℕ) (rows : List OutboxRow) (r : OutboxRow)
    → IsUnique rows
    → Member r rows
    → budget m (delete r.task_id rows) + attempts_left m r ≡ budget m rows
unfolding delete budget
budget-delete m [] r u found = elim found [ ]
budget-delete m (x ∷ xs) r u (inl e) =
    subst (λ y. budget m (delete y.task_id (x ∷ xs)) + attempts_left m y ≡ budget m (x ∷ xs)) e
      (rw (==_refl x.task_id, delete-absent x.task_id xs u.0) (omega arith))
budget-delete m (x ∷ xs) r u (inr found) =
    let other : (x.task_id == r.task_id) ≡ false =
      ground (arith, Every-Member (absent x.task_id) xs r u.0 found) in
    rw other (omega (arith, budget-delete m xs r u.1 found))

-- A change that leaves the key alone.
abbrev pub KeepsId : (OutboxRow → OutboxRow) → Type 0
KeepsId change = (r : OutboxRow) → (change r).task_id ≡ r.task_id

absent-change :
    (change : OutboxRow → OutboxRow) (id : ℕ) (r : OutboxRow)
    → KeepsId change
    → absent id r ≡ true
    → absent id (change r) ≡ true
absent-change change id r same h = rw (same r) h

pub IsUnique-update :
    (change : OutboxRow → OutboxRow) (id : ℕ) (rows : List OutboxRow)
    → KeepsId change
    → IsUnique rows
    → IsUnique (update change id rows)
unfolding update
IsUnique-update change id [] same u = tt
IsUnique-update change id (r ∷ rs) same u =
    let others : Every (absent r.task_id) (update change id rs) =
      Every-update (absent r.task_id) change id rs
        (λ x e h. absent-change change r.task_id x same h) u.0 in
    elim (Bool-cases (r.task_id == id)) [
      | inl e ↦ rw (e, same r) (others, IsUnique-update change id rs same u.1)
      | inr e ↦ rw e (others, IsUnique-update change id rs same u.1)
    ]

pub IsUnique-delete : (id : ℕ) (rows : List OutboxRow) → IsUnique rows → IsUnique (delete id rows)
unfolding delete
IsUnique-delete id [] u = tt
IsUnique-delete id (r ∷ rs) u = elim (Bool-cases (not (r.task_id == id))) [
  | inl kept ↦ rw kept (Every-delete (absent r.task_id) id rs u.0, IsUnique-delete id rs u.1)
  | inr dropped ↦ rw dropped (IsUnique-delete id rs u.1)
]

-- The row that is found, after its change.
pub Member-update :
    (change : OutboxRow → OutboxRow) (rows : List OutboxRow) (r : OutboxRow)
    → IsUnique rows
    → Member r rows
    → Member (change r) (update change r.task_id rows)
unfolding update
Member-update change [] r u found = elim found [ ]
Member-update change (x ∷ xs) r u (inl e) =
    subst (λ y. Member (change y) (update change y.task_id (x ∷ xs))) e
      (rw (==_refl x.task_id) (inl refl))
Member-update change (x ∷ xs) r u (inr found) =
    let other : (x.task_id == r.task_id) ≡ false =
      ground (arith, Every-Member (absent x.task_id) xs r u.0 found) in
    rw other (inr (Member-update change xs r u.1 found))
