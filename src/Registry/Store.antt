-- ===== src/Registry/Store.antt =====
-- What the methods of src/cks_runtime/session/session.py do to the transactions that the objects of
-- the store are attached to.
use cks_runtime.Prelude.{
  ℕ, String, List, [], ◌∷◌, Bool, true, false, Option, none, some, nat_eq, string_eq, ◌==◌, ==_refl,
  ◌≡◌, refl, sym, ap, ◌∙◌, ◌||◌, inl, inr, arith, Bool-cases, if◌then◌else◌, if_false,
  some_injective, false≢true,
}
use cks_runtime.Core.{Core}
use cks_runtime.Dict.{Dict, get, put, values}
use cks_runtime.Dict.Laws.{get-put}
use cks_runtime.Session.{RuntimeSession, close}
use cks_runtime.Transaction.{Operations}
use cks_runtime.Registry.{
  Handle, changed, call, attach_transaction, detach_transaction, detach_all, close_all,
}

module _ {c : Core} where
  abbrev pub active_of : Option (RuntimeSession c) → Option String
  active_of none = none
  active_of (some s) = s.active_transaction

  -- The transaction that the object behind a reference is attached to.
  abbrev pub active_at : Dict ℕ (RuntimeSession c) → ℕ → Option String
  active_at objects a = active_of (get objects a)

  pub active_at-put :
      (objects : Dict ℕ (RuntimeSession c)) (a b : ℕ) (s : RuntimeSession c)
      → active_at (put objects a s) b
        ≡ (if a == b then s.active_transaction else active_at objects b)
  active_at-put objects a b s = elim (Bool-cases (a == b)) [
    | inl same ↦ rw (get-put objects a b s, same) refl
    | inr other ↦ rw (get-put objects a b s, other) refl
  ]

  active_at-same :
      (f : RuntimeSession c → RuntimeSession c) (g : Option String → Option String)
      (objects : Dict ℕ (RuntimeSession c)) (a b : ℕ) (found : Option (RuntimeSession c))
      → ((s : RuntimeSession c) → (f s).active_transaction ≡ g s.active_transaction)
      → g none ≡ none
      → a == b ≡ true
      → get objects a ≡ found
      → active_at (changed f a objects found) b ≡ g (active_of found)
  active_at-same f g objects a b none law nothing same h =
      ap (active_at objects) (sym ((nat_eq.agrees_iff a b).0 same)) ∙ ap active_of h ∙ sym nothing
  active_at-same f g objects a b (some s) law nothing same h =
      active_at-put objects a b (f s)
      ∙ ap (λ t. if t then (f s).active_transaction else active_at objects b) same
      ∙ law s

  active_at-other :
      (f : RuntimeSession c → RuntimeSession c) (objects : Dict ℕ (RuntimeSession c)) (a b : ℕ)
      (found : Option (RuntimeSession c))
      → a == b ≡ false
      → active_at (changed f a objects found) b ≡ active_at objects b
  active_at-other f objects a b none other = refl
  active_at-other f objects a b (some s) other =
      active_at-put objects a b (f s)
      ∙ ap (λ t. if t then (f s).active_transaction else active_at objects b) other

  -- A method that changes the attachment of every object in the same way, also of one that is missing.
  active_at-changed :
      (f : RuntimeSession c → RuntimeSession c) (g : Option String → Option String)
      (objects : Dict ℕ (RuntimeSession c)) (a b : ℕ) (found : Option (RuntimeSession c))
      → ((s : RuntimeSession c) → (f s).active_transaction ≡ g s.active_transaction)
      → g none ≡ none
      → get objects a ≡ found
      → active_at (changed f a objects found) b
        ≡ (if a == b then g (active_at objects b) else active_at objects b)
  active_at-changed f g objects a b found law nothing h =
      let before = active_at objects b in
      elim (Bool-cases (a == b)) [
        | inl same ↦
            (let here : before ≡ active_of found =
                ap (active_at objects) (sym ((nat_eq.agrees_iff a b).0 same)) ∙ ap active_of h in
              active_at-same f g objects a b found law nothing same h
              ∙ ap g (sym here)
              ∙ sym (ap (λ t. if t then g before else before) same))
        | inr other ↦
            active_at-other f objects a b found other
            ∙ sym (ap (λ t. if t then g before else before) other)
      ]

  pub active_at-call :
      (f : RuntimeSession c → RuntimeSession c) (g : Option String → Option String)
      (objects : Dict ℕ (RuntimeSession c)) (a b : ℕ)
      → ((s : RuntimeSession c) → (f s).active_transaction ≡ g s.active_transaction)
      → g none ≡ none
      → active_at (call f a objects) b
        ≡ (if a == b then g (active_at objects b) else active_at objects b)
  unfolding call
  active_at-call f g objects a b law nothing =
      active_at-changed f g objects a b (get objects a) law nothing refl

  pub active_at-detach :
      (objects : Dict ℕ (RuntimeSession c)) (a b : ℕ)
      → active_at (call detach_transaction a objects) b
        ≡ (if a == b then none else active_at objects b)
  active_at-detach objects a b =
      active_at-call detach_transaction (λ t. none) objects a b (λ s. refl) refl

  pub active_at-close :
      (objects : Dict ℕ (RuntimeSession c)) (a b : ℕ)
      → active_at (call close a objects) b ≡ active_at objects b
  active_at-close objects a b =
      active_at-call close (λ t. t) objects a b (λ s. refl) refl
      ∙ elim (Bool-cases (a == b)) [ inl e ↦ rw e refl | inr e ↦ rw e refl ]

  pub active_at-close_all :
      (references : List ℕ) (objects : Dict ℕ (RuntimeSession c)) (b : ℕ)
      → active_at (close_all references objects) b ≡ active_at objects b
  unfolding close_all
  active_at-close_all [] objects b = refl
  active_at-close_all (a ∷ references) objects b =
      active_at-close_all references (call close a objects) b ∙ active_at-close objects a b

  pub active_at-attach :
      (objects : Dict ℕ (RuntimeSession c)) (a b : ℕ) (s : RuntimeSession c) (id : String)
      → get objects a ≡ some s
      → active_at (call (attach_transaction id) a objects) b
        ≡ (if a == b then some id else active_at objects b)
  unfolding call
  active_at-attach objects a b s id h =
      ap (λ found. active_at (changed (attach_transaction id) a objects found) b) h
      ∙ active_at-put objects a b (attach_transaction id s)

  -- A session that is attached is not the one that begins.
  pub attach-other :
      (a : ℕ) (s : RuntimeSession c) (id i : String) (b : ℕ) (objects : Dict ℕ (RuntimeSession c))
      → get objects a ≡ some s
      → s.active_transaction ≡ none
      → active_at objects b ≡ some i
      → active_at (call (attach_transaction id) a objects) b ≡ some i
  attach-other a s id i b objects found idle at = elim (Bool-cases (a == b)) [
    | inl same ↦ absurd (
        ground (
          arith,
          sym idle
              ∙ sym (ap active_of found)
              ∙ ap (active_at objects) ((nat_eq.agrees_iff a b).0 same)
              ∙ at,
        ))
    | inr other ↦
        active_at-attach objects a b s id found
        ∙ if_false (a == b) (some id) (active_at objects b) other
        ∙ at
  ]

  -- A session that is attached to another transaction is not the one that is detached.
  pub detach-other :
      (a b : ℕ) (id i : String) (objects : Dict ℕ (RuntimeSession c))
      → active_at objects a ≡ some id
      → id == i ≡ false
      → active_at objects b ≡ some i
      → active_at (call detach_transaction a objects) b ≡ some i
  detach-other a b id i objects mine differs at = elim (Bool-cases (a == b)) [
    | inl same ↦
        (let name =
            some_injective id i
              (sym mine ∙ ap (active_at objects) ((nat_eq.agrees_iff a b).0 same) ∙ at) in
          absurd (false≢true (sym differs ∙ (string_eq.agrees_iff id i).1 name)))
    | inr other ↦
        active_at-detach objects a b ∙ if_false (a == b) none (active_at objects b) other ∙ at
  ]

module _ {c : Core} {o : Operations c} where
  -- A session that some of the transactions refer to.
  abbrev pub referred : List (Handle c o) → ℕ → Bool
  referred [] a = false
  referred (h ∷ handles) a = h.session == a || referred handles a

  pub active_at-detach_all :
      (handles : List (Handle c o)) (objects : Dict ℕ (RuntimeSession c)) (b : ℕ)
      → active_at (detach_all handles objects) b
        ≡ (if referred handles b then none else active_at objects b)
  unfolding detach_all
  active_at-detach_all [] objects b = refl
  active_at-detach_all (h ∷ handles) objects b =
      active_at-detach_all handles (call detach_transaction h.session objects) b
      ∙ elim (Bool-cases (referred handles b)) [
        | inl later ↦ elim (Bool-cases (h.session == b)) [
          | inl e ↦ rw (later, e) refl
          | inr e ↦ rw (later, e) refl
        ]
        | inr no_more ↦ elim (Bool-cases (h.session == b)) [
          | inl e ↦ rw (no_more, active_at-detach objects h.session b, e) refl
          | inr e ↦ rw (no_more, active_at-detach objects h.session b, e) refl
        ]
      ]

  pub referred-get :
      (transactions : Dict String (Handle c o)) (id : String) (h : Handle c o)
      → get transactions id ≡ some h
      → referred (values transactions) h.session ≡ true
  unfolding get
  referred-get [] id h found = absurd (ground arith)
  referred-get ((j, g) ∷ rest) id h found = elim (Bool-cases (j == id)) [
    | inl same ↦
        (let one : g.session ≡ h.session =
            ap (λ (x : Option (Handle c o)). elim x [ none ↦ 0 | some y ↦ y.session ])
              (rw same at found) in
          rw one (ap (λ t. t || referred (values rest) h.session) (==_refl h.session)))
    | inr other ↦ ground (arith, referred-get rest id h (rw other at found))
  ]
