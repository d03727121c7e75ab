-- ===== src/Retry/Attempts.antt =====
-- How often `_retry_on_locked` (src/cks_runtime/crdt/crdt_store.py) tries.
use cks_runtime.Prelude.{
  ℕ, zero, suc, ◌+◌, ◌-◌, ◌*◌, ◌^◌, ◌≤◌, ◌<◌, ◌≡◌, refl, sym, ap, ◌∙◌, leb, arith, Bool-cases, inl,
  inr, eqb, eqb_iff,
}
use native.Mathlib.Omega.{pow_step}
use cks_runtime.Retry.{
  Attempt, returns, locked, fails, Run, write_retries, write_retry_base_delay, round, retry,
  retry_on_locked,
}

module _ {ℓ} {A : Type ℓ} (fn : ℕ → Attempt A) where
  -- The loop from an attempt on has stopped at attempt `k`.
  pub record Stops (attempt : ℕ) (run : Run A) (k : ℕ) : Type ℓ where
    pub low : attempt ≤ k
    pub high : k < write_retries
    pub waited : (j : ℕ) → attempt ≤ j → j < k → fn j ≡ locked
    pub outcome : run.outcome ≡ fn k
    pub last : fn k ≡ locked → k ≡ 4
    pub calls : run.calls + attempt ≡ k + 1
    pub slept : run.slept + write_retry_base_delay * 2 ^ attempt ≡ write_retry_base_delay * 2 ^ k

  here-Stops :
      (attempt : ℕ) (x : Attempt A) (calls slept : ℕ)
      → fn attempt ≡ x
      → attempt < write_retries
      → calls ≡ 1
      → slept ≡ 0
      → (x ≡ locked → attempt ≡ 4)
      → Stops attempt (record { outcome = x; calls = calls; slept = slept }) attempt
  here-Stops attempt x calls slept e h c d l = record {
    low = omega arith;
    high = h;
    waited = λ j lo hi. absurd (omega (arith, lo, hi));
    outcome = sym e;
    last = λ k. l (sym e ∙ k);
    calls = omega (arith, c);
    slept = omega (arith, d);
  }

  -- A locked attempt that is not the last one.
  rest-Stops :
      (attempt : ℕ) (rest : Run A) (k : ℕ)
      → fn attempt ≡ locked
      → Stops (attempt + 1) rest k
      → Stops attempt
          (record {
            outcome = rest.outcome;
            calls = 1 + rest.calls;
            slept = write_retry_base_delay * 2 ^ attempt + rest.slept;
          })
          k
  rest-Stops attempt rest k e s =
      let next : attempt + 1 ≡ suc attempt = omega arith in
      record {
        low = omega (arith, s.low);
        high = s.high;
        waited = λ j lo hi. elim (Bool-cases (eqb j attempt)) [
          | inl same ↦ ap fn ((eqb_iff j attempt).0 same) ∙ e
          | inr later ↦ s.waited j (ground (arith, lo, later, eqb_iff j attempt)) hi
        ];
        outcome = s.outcome;
        last = s.last;
        calls = omega (arith, s.calls);
        slept = omega (arith, s.slept, ap (λ n. 2 ^ n) next, pow_step 2 attempt);
      }

  round-Stops :
      (attempt : ℕ) (x : Attempt A) (rest : Run A)
      → fn attempt ≡ x
      → attempt < write_retries
      → (attempt < 4 → (k : ℕ) × Stops (attempt + 1) rest k)
      → (k : ℕ) × Stops attempt (round attempt x rest) k
  round-Stops attempt (returns a) rest e h more =
      (attempt, here-Stops attempt (returns a) 1 0 e h refl refl (λ k. absurd (ground (arith, k))))
  round-Stops attempt fails rest e h more =
      (attempt, here-Stops attempt fails 1 0 e h refl refl (λ k. absurd (ground (arith, k))))
  round-Stops attempt locked rest e h more = elim (Bool-cases (leb (write_retries - 1) attempt)) [
    | inl final ↦
        rw final (attempt, here-Stops attempt locked 1 0 e h refl refl (λ k. ground (arith, final)))
    | inr early ↦
        (let (k, s) = more (ground (arith, early)) in rw early (k, rest-Stops attempt rest k e s))
  ]

  retry-Stops :
      (rounds attempt : ℕ)
      → attempt + rounds ≡ 4
      → (k : ℕ) × Stops attempt (retry fn attempt (suc rounds)) k
  unfolding retry
  retry-Stops zero attempt e =
      round-Stops attempt (fn attempt) (record { outcome = locked; calls = 0; slept = 0 }) refl
        (omega (arith, e)) (λ h. absurd (omega (arith, e, h)))
  retry-Stops (suc rounds) attempt e =
      round-Stops attempt (fn attempt) (retry fn (attempt + 1) (suc rounds)) refl (omega (arith, e))
        (λ h. retry-Stops rounds (attempt + 1) (omega (arith, e)))

  -- A write that may find the database locked is tried at most five times: some attempt `k` below 5
  -- ends it, the attempts before it all found a lock, what it gave is the outcome, and it is the last
  -- possible one (4) if it found a lock too; the function has been called `k + 1` times and
  -- 50 * (2 ^ k - 1) milliseconds have been slept.
  pub retry_on_locked-Stops : (k : ℕ) × Stops 0 (retry_on_locked fn) k
  unfolding retry_on_locked
  retry_on_locked-Stops = retry-Stops 4 0 refl
