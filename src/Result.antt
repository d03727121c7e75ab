-- ===== src/Result.antt =====
-- What a call returns or raises. Each constructor of `Error` is one `raise` of the program.

use cks_runtime.Prelude.{◌≡◌, ◌≢◌, ap, sym, ◌∙◌, arith}

pub data Error : Type 0 where
  -- versions
  missing_previous_state unknown_version no_core_bridge no_snapshot no_patch hash_mismatch : Error
  -- the semantic engine raised
  core_failed : Error
  -- sessions and transactions
  bad_snapshot_interval active_transaction_exists unknown_transaction : Error
  -- the pipeline
  validation_failed operation_failed concurrent_modification : Error
  -- objects from other replicas
  bad_payload identity_mismatch bad_object_id : Error
  -- the database refused a second row with the same primary key
  integrity_error : Error
  -- a value of the wrong type, such as a text for `hmac.compare_digest` that is not ASCII
  type_error : Error
  -- the codec of patches: an operator of unknown type, and a missing key
  unknown_operator missing_key : Error

pub data Result {ℓ} (A : Type ℓ) : Type ℓ where
  ok : A → Result A
  raise : Error → Result A

infixl 5 ◌>>=◌
abbrev pub ◌>>=◌ {ℓ κ} : {A : Type ℓ} {B : Type κ} → Result A → (A → Result B) → Result B
ok a >>= k = k a
raise e >>= k = raise e

pub ok_injective {ℓ} : {A : Type ℓ} (a b : A) → ok a ≡ ok b → a ≡ b
ok_injective a b h = ap (λ (r : Result _). elim r [ ok x ↦ x | raise e ↦ a ]) h

pub ok-raise {ℓ} : {A : Type ℓ} (a : A) (e : Error) → ok a ≢ raise e
ok-raise a e h = ground arith

pub raise_unique {ℓ} : {A : Type ℓ} (r : Result A) (e d : Error) → r ≡ raise e → r ≡ raise d → e ≡ d
raise_unique r e d h k = ap (λ (q : Result _). elim q [ ok x ↦ e | raise f ↦ f ]) (sym h ∙ k)
