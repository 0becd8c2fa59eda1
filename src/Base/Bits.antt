-- ===== src/Base/Bits.antt =====
-- Single bits of an unsigned word. `x & BIT(k)`, `x | BIT(k)` and `x & ~BIT(k)` are written by
-- division, which the arithmetic tactics read.
use Prim.Native.Nat.{ℕ, ◌+◌, ◌-◌, ◌/◌, ◌%◌, ◌^◌}
use mathlib.Core.Bool.{Bool}
use nturt_zephyr_common.Base.Tests.{if◌then◌else◌, ◌==◌}

-- x & BIT(k), as a truth value.
abbrev pub test_bit : ℕ → ℕ → Bool
test_bit x k = x / 2 ^ k % 2 == 1

-- x | BIT(k)
abbrev pub set_bit : ℕ → ℕ → ℕ
set_bit x k = if test_bit x k then x else x + 2 ^ k

-- x & ~BIT(k)
abbrev pub clear_bit : ℕ → ℕ → ℕ
clear_bit x k = if test_bit x k then x - 2 ^ k else x
