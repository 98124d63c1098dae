-- ===== src/Base/Int.antt =====
-- The C `int` counters, as integers: only stepped by one and compared with zero.
use Prim.Native.Nat.{ℕ, zero, suc, ◌+◌}
use mathlib.Core.Path.{◌≡◌}
use mathlib.Core.Bool.{Bool, false}
use native.Mathlib.Omega.{arith}
use vmnet_broker.Base.Tests.{◌==◌, ltb}

-- `negsuc n` is -(n + 1).
pub data ℤ : Type 0 where
  pos : ℕ → ℤ
  negsuc : ℕ → ℤ

-- `++` on an `int`
abbrev pub incr : ℤ → ℤ
incr (pos n) = pos (n + 1)
incr (negsuc zero) = pos 0
incr (negsuc (suc n)) = negsuc n

-- `--` on an `int`
abbrev pub decr : ℤ → ℤ
decr (pos zero) = negsuc 0
decr (pos (suc n)) = pos n
decr (negsuc n) = negsuc (n + 1)

-- `z == n`, for a constant `n` that is not negative
abbrev pub is : ℤ → ℕ → Bool
is (pos m) n = m == n
is (negsuc m) n = false

-- `z > 0`
abbrev pub is_positive : ℤ → Bool
is_positive (pos m) = ltb 0 m
is_positive (negsuc m) = false

pub incr-pos : (n : ℕ) → incr (pos n) ≡ pos (suc n)
incr-pos n = ground arith
