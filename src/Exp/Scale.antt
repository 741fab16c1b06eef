-- ===== src/Exp/Scale.antt =====
-- Adding to the exponent field of a double.
use gapso_rbf_pid.Prelude.{ℕ, ◌+◌, ◌/◌, ◌%◌, ◌^◌, ◌<◌, ◌≡◌, arith}
use gapso_rbf_pid.Prelude.Int.{ℤ, pos_part, neg_part}
use gapso_rbf_pid.Exp.{add_exponent}

abbrev pub fraction : ℕ → ℕ
fraction w = w % 2 ^ 52

abbrev pub exponent : ℕ → ℕ
exponent w = w / 2 ^ 52 % 2 ^ 11

abbrev pub sign_bit : ℕ → ℕ
sign_bit w = w / 2 ^ 63

-- Where the exponent field plus k is a field e again, with no carry into the sign, the pattern that is
-- stored has the exponent e, and the fraction and the sign of the old one.
pub add_exponent_fields :
    (w : ℕ) (k : ℤ) (e : ℕ)
    → w < 2 ^ 64
    → e < 2 ^ 11
    → exponent w + pos_part k ≡ e + neg_part k
    → (exponent (add_exponent w k) ≡ e)
      × (fraction (add_exponent w k) ≡ fraction w)
      × (sign_bit (add_exponent w k) ≡ sign_bit w)
unfolding add_exponent
add_exponent_fields w k e hw he h = (ground arith, ground arith, ground arith)
