-- ===== src/Exp/Special.antt =====
-- The special cases that the comment of include/exp.h lists.
use gapso_rbf_pid.Prelude.{◌%◌, ◌^◌, ◌<◌, ◌≡◌, arith}
use gapso_rbf_pid.Double.{Double, ◌⊕◌}
use gapso_rbf_pid.Exp.{exp}

module _ {D : Type 0} ⦃d : Double D⦄ where
  open d use {dec, bits}

  -- The patterns of IEEE 754: the fields below the sign are those of infinity, or above them.
  abbrev pub IsNan : D → Type 0
  IsNan x = 0x7ff0_0000_0000_0000 < bits x % 2 ^ 63

  abbrev pub IsInfinity : D → Type 0
  IsInfinity x = bits x ≡ 0x7ff0_0000_0000_0000

  abbrev pub IsMinusInfinity : D → Type 0
  IsMinusInfinity x = bits x ≡ 0xfff0_0000_0000_0000

  -- exp(NaN) is the sum of the NaN with itself, exp(inf) is that infinity and exp(-inf) is 0, for
  -- every pattern of a NaN and of an infinity.
  pub exp_special :
      (x : D)
      → (IsNan x → exp x ≡ x ⊕ x)
        × (IsInfinity x → exp x ≡ x)
        × (IsMinusInfinity x → exp x ≡ dec 0 1)
  unfolding exp
  exp_special x = (λ h. ground arith, λ h. ground arith, λ h. ground arith)
