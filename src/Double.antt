-- ===== src/Double.antt =====
-- C's `double`, as far as the program uses it: an abstract type with the operations of the language
-- and, apart from them, the documented laws (IEEE 754) that proofs rely on. `lt` is false when an
-- operand is NaN; both laws of the order hold with NaN.
use gapso_rbf_pid.Prelude.{ℕ, ◌%◌, ◌^◌, ◌≤◌, ◌≡◌, Bool, true, false}
use gapso_rbf_pid.Prelude.Int.{ℤ, pos}

pub record Double (D : Type 0) : Type 0 where
  pub add : D → D → D
  pub sub : D → D → D
  pub mul : D → D → D
  pub div : D → D → D
  pub neg : D → D
  -- a < b
  pub lt : D → D → Bool
  -- (double) i and (int) x
  pub of_int : ℤ → D
  pub to_int : D → ℤ
  -- the literal m / 10 ^ k: `dec 9 1` is 0.9
  pub dec : ℕ → ℕ → D
  -- *(long long *)&x as an unsigned pattern, and *(double *)&w
  pub bits : D → ℕ
  pub of_bits : ℕ → D

-- Not a NaN: the fields below the sign are at most those of infinity.
abbrev pub IsNumber : {D : Type 0} ⦃d : Double D⦄ → D → Type 0
IsNumber ⦃d⦄ x = d.bits x % 2 ^ 63 ≤ 0x7ff0_0000_0000_0000

pub record IsOrdered (D : Type 0) ⦃d : Double D⦄ : Type 0 where
  pub lt_irrefl : (x : D) → d.lt x x ≡ false
  pub lt_trans : (x y z : D) → d.lt x y ≡ true → d.lt y z ≡ true → d.lt x z ≡ true
  pub lt_numbers : (x y : D) → d.lt x y ≡ true → IsNumber x × IsNumber y
  pub lt_weak : (x y z : D) → IsNumber y → d.lt x y ≡ false → d.lt y z ≡ false → d.lt x z ≡ false

-- Reading the stored pattern back gives the value.
pub record IsStorable (D : Type 0) ⦃d : Double D⦄ : Type 0 where
  pub of_bits-bits : (x : D) → d.of_bits (d.bits x) ≡ x

module _ {D : Type 0} ⦃d : Double D⦄ where
  infixl 65 ◌⊕◌ ◌⊖◌
  infixl 70 ◌⊗◌ ◌⊘◌
  infix 50 ◌≺◌
  abbrev pub ◌⊕◌ : D → D → D
  ◌⊕◌ = d.add

  abbrev pub ◌⊖◌ : D → D → D
  ◌⊖◌ = d.sub

  abbrev pub ◌⊗◌ : D → D → D
  ◌⊗◌ = d.mul

  abbrev pub ◌⊘◌ : D → D → D
  ◌⊘◌ = d.div

  abbrev pub ◌≺◌ : D → D → Bool
  ◌≺◌ = d.lt

  abbrev pub num : ℕ → D
  num n = d.of_int (pos n)
