-- ===== src/Base/Int.antt =====
-- Go's signed integers (`int` and `int64` have 64 bits on the gateway's platforms).
use Prim.Native.Nat.{ℕ, zero, suc, ◌+◌, ◌-◌, ◌*◌, ◌≤◌, ◌%◌, ◌^◌}
use mathlib.Core.Path.{◌≡◌}
use native.Mathlib.Omega.{arith}
use mathlib.Core.Bool.{Bool, true, false}
use osg_gateway.Base.Tests.{ltb, leb, eqb, if◌then◌else◌}

-- `negsuc n` is -(n + 1).
pub data ℤ : Type 0 where
  pos : ℕ → ℤ
  negsuc : ℕ → ℤ

abbrev pub max_int64 : ℕ
max_int64 = 2 ^ 63 - 1

-- `x > 0`
abbrev pub is_pos : ℤ → Bool
is_pos (pos n) = ltb 0 n
is_pos (negsuc n) = false

-- `x == 0`
abbrev pub is_zero : ℤ → Bool
is_zero (pos n) = eqb 0 n
is_zero (negsuc n) = false

-- `x < 0`
abbrev pub is_neg : ℤ → Bool
is_neg (pos n) = false
is_neg (negsuc n) = true

-- `a == b`
abbrev pub eq_int : ℤ → ℤ → Bool
eq_int (pos a) (pos b) = eqb a b
eq_int (negsuc a) (negsuc b) = eqb a b
eq_int (pos a) (negsuc b) = false
eq_int (negsuc a) (pos b) = false

-- `x++`, with the wrap-around of 64 bits.
abbrev pub inc : ℤ → ℤ
inc (pos n) = if eqb n max_int64 then negsuc max_int64 else pos (n + 1)
inc (negsuc zero) = pos 0
inc (negsuc (suc n)) = negsuc n

-- The integer whose 64-bit pattern is `n % 2^64`.
abbrev pub of_bits : ℕ → ℤ
of_bits n =
    if leb (n % 2 ^ 64) max_int64 then pos (n % 2 ^ 64) else negsuc (2 ^ 64 - 1 - n % 2 ^ 64)

-- time.Duration(n) * time.Second, with the wrap-around of 64 bits.
unfoldable pub seconds : ℕ → ℤ
seconds n = of_bits (n * 1_000_000_000)

-- Up to 292 years nothing wraps around.
pub seconds_exact : (n : ℕ) → n ≤ 9_223_372_036 → seconds n ≡ pos (n * 1_000_000_000)
unfolding seconds
seconds_exact n h = ground arith
