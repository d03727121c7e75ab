-- ===== src/Prelude/Int.antt =====
-- Integers that come over the wire.
use Prim.Native.Nat.{ℕ}

-- `negsuc n` is -(n + 1).
pub data ℤ : Type 0 where
  pos : ℕ → ℤ
  negsuc : ℕ → ℤ

-- What `int(x)` makes of a value: a number, or a `TypeError` or `ValueError`.
pub data Wire : Type 0 where
  int : ℤ → Wire
  malformed : Wire
