-- ===== src/Retry/Tests.antt =====
-- A write that finds the database locked twice.
use cks_runtime.Prelude.{ℕ, zero, suc, ◌≡◌, refl}
use cks_runtime.Retry.{Attempt, returns, locked, retry, retry_on_locked}
use cks_runtime.Retry.Attempts.{Stops, retry_on_locked-Stops}

abbrev third_time : ℕ → Attempt ℕ
third_time zero = locked
third_time (suc zero) = locked
third_time (suc (suc n)) = returns 7

after_two : retry_on_locked third_time ≡ record { outcome = returns 7; calls = 3; slept = 150 }
unfolding retry_on_locked retry
after_two = refl

retry_on_locked-Stops_example : (k : ℕ) × Stops third_time 0 (retry_on_locked third_time) k
retry_on_locked-Stops_example = retry_on_locked-Stops third_time
