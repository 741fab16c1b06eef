-- ===== src/Prelude/Machine.antt =====
-- C's 32-bit integers. A `u32` is a number below 2 ^ 32, an `int` is an integer; both wrap.
use Prim.Native.Nat.{ℕ, ◌+◌, ◌-◌, ◌%◌, ◌^◌}
use gapso_rbf_pid.Prelude.Tests.{ltb, if◌then◌else◌}
use gapso_rbf_pid.Prelude.Int.{ℤ, pos, negsuc, ltb_ℤ}

abbrev pub u32 : ℕ → ℕ
u32 n = n % 2 ^ 32

-- a - b of two values of type `u32`.
abbrev pub u32_sub : ℕ → ℕ → ℕ
u32_sub a b = u32 (a + 2 ^ 32 - b)

-- The `int` with this bit pattern.
abbrev pub int_of_u32 : ℕ → ℤ
int_of_u32 w = if ltb w (2 ^ 31) then pos w else negsuc (2 ^ 32 - 1 - w)

-- The bit pattern of an `int`; a wider integer loses its upper bits.
abbrev pub u32_of_int : ℤ → ℕ
u32_of_int (pos n) = u32 n
u32_of_int (negsuc n) = 2 ^ 32 - 1 - u32 n

-- Two's complement negation and `abs` on an `int`: both leave INT_MIN as it is.
abbrev pub int_neg : ℤ → ℤ
int_neg i = int_of_u32 (u32_sub 0 (u32_of_int i))

abbrev pub int_abs : ℤ → ℤ
int_abs i = if ltb_ℤ i (pos 0) then int_neg i else i
