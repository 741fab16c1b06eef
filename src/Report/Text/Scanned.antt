-- ===== src/Report/Text/Scanned.antt =====
-- Printed numbers are read back.
use gapso_rbf_pid.Prelude.{
  ℕ, ◌-◌, ◌^◌, ◌≤◌, ◌<◌, ◌≡◌, refl, List, [], ◌∷◌, ◌++◌, some, true, false, lt→ltb, Bool,
  Bool-cases, arith, ltb, inl, inr, ◌∙◌,
}
use gapso_rbf_pid.Prelude.Int.{ℤ, pos, negsuc}
use gapso_rbf_pid.Report.Text.{long_of_int}
use gapso_rbf_pid.Report.Text.{
  print_unsigned, print_int, print_long, is_space, skip_space, is_digit, to_long, scan_digits,
  scan_unsigned, scan_signed, scan_long,
}
use gapso_rbf_pid.Report.Text.Digits.{
  StartsDigit, StartsOther, print_unsigned-StartsDigit, scan_digits-print_unsigned,
}

-- no space in front, and not nothing
abbrev StartsMark : List ℕ → Type 0
StartsMark [] = 1 ≤ 0
StartsMark (c ∷ s) = b'-' ≤ c

skip_space-StartsMark : (s rest : List ℕ) → StartsMark s → skip_space (s ++ rest) ≡ s ++ rest
unfolding skip_space is_space
skip_space-StartsMark [] rest h = absurd (omega arith)
skip_space-StartsMark (c ∷ s) rest h = ground arith

StartsDigit-StartsMark : (s : List ℕ) → StartsDigit s → StartsMark s
StartsDigit-StartsMark [] h = h
StartsDigit-StartsMark (c ∷ s) h = omega arith

print_long-StartsMark : (w : ℕ) → StartsMark (print_long w)
unfolding print_long
print_long-StartsMark w = elim (Bool-cases (ltb w (2 ^ 63))) [
  | inl e ↦ rw e (StartsDigit-StartsMark (print_unsigned w) (print_unsigned-StartsDigit w))
  | inr e ↦ rw e (omega arith)
]

pub skip_space-print_long :
    (w : ℕ) (rest : List ℕ) → skip_space (print_long w ++ rest) ≡ print_long w ++ rest
skip_space-print_long w rest = skip_space-StartsMark (print_long w) rest (print_long-StartsMark w)

-- reading digits in front of other text, where the number that they spell is known
scan_unsigned-StartsDigit :
    (negative : Bool) (s rest : List ℕ) (n : ℕ)
    → StartsDigit s
    → scan_digits 0 (s ++ rest) ≡ (n, rest)
    → scan_unsigned negative (s ++ rest) ≡ record { found = some (to_long negative n); left = rest }
unfolding scan_unsigned is_digit
scan_unsigned-StartsDigit negative [] rest n h e = absurd (omega arith)
scan_unsigned-StartsDigit negative (c ∷ s) rest n h e = rw e (ground arith)

scan_signed-StartsDigit :
    (s rest : List ℕ) → StartsDigit s → scan_signed (s ++ rest) ≡ scan_unsigned false (s ++ rest)
unfolding scan_signed
scan_signed-StartsDigit [] rest h = absurd (omega arith)
scan_signed-StartsDigit (c ∷ s) rest h = ground arith

scan_signed-print_unsigned :
    (n : ℕ) (rest : List ℕ)
    → n < 2 ^ 63
    → StartsOther rest
    → scan_signed (print_unsigned n ++ rest) ≡ record { found = some n; left = rest }
unfolding to_long
scan_signed-print_unsigned n rest h r =
    let start = print_unsigned-StartsDigit n in
    let spelled = scan_digits-print_unsigned n rest (omega arith) r in
    scan_signed-StartsDigit (print_unsigned n) rest start
    ∙ scan_unsigned-StartsDigit false (print_unsigned n) rest n start spelled
    ∙ rw (lt→ltb n (2 ^ 63) h) refl

scan_signed_minus :
    (n : ℕ) (rest : List ℕ)
    → 0 < n
    → n ≤ 2 ^ 63
    → StartsOther rest
    → scan_signed (b'-' ∷ (print_unsigned n ++ rest))
      ≡ record { found = some (2 ^ 64 - n); left = rest }
unfolding scan_signed to_long
scan_signed_minus n rest lt h r =
    scan_unsigned-StartsDigit true (print_unsigned n) rest n (print_unsigned-StartsDigit n)
      (scan_digits-print_unsigned n rest (omega arith) r)
    ∙ ground arith

scan_signed-print_long :
    (w : ℕ) (rest : List ℕ)
    → w < 2 ^ 64
    → StartsOther rest
    → scan_signed (print_long w ++ rest) ≡ record { found = some w; left = rest }
unfolding print_long
scan_signed-print_long w rest h r = elim (Bool-cases (ltb w (2 ^ 63))) [
  | inl e ↦ rw e (scan_signed-print_unsigned w rest (ground arith) r)
  | inr e ↦ rw e (
      let big : 2 ^ 63 ≤ w = ground arith in
      scan_signed_minus (2 ^ 64 - w) rest (omega arith) (omega arith) r ∙ ground arith)
]

-- A `long long` is read back from its text, behind any space.
pub scan_long-print_long :
    (w : ℕ) (s rest : List ℕ)
    → w < 2 ^ 64
    → StartsOther rest
    → skip_space s ≡ print_long w ++ rest
    → scan_long s ≡ record { found = some w; left = rest }
unfolding scan_long
scan_long-print_long w s rest h r e = rw e (scan_signed-print_long w rest h r)

-- Numbers and `int`s are printed as the `long long` of the same value.
pub print_unsigned-print_long : (n : ℕ) → n < 2 ^ 63 → print_unsigned n ≡ print_long n
unfolding print_long
print_unsigned-print_long n h = rw (lt→ltb n (2 ^ 63) h) refl

-- an `int`
abbrev pub IsInt : ℤ → Type 0
IsInt (pos n) = n < 2 ^ 31
IsInt (negsuc n) = n < 2 ^ 31

pub print_int-print_long : (i : ℤ) → IsInt i → print_int i ≡ print_long (long_of_int i)
unfolding print_int print_long
print_int-print_long (pos n) h = print_unsigned-print_long n (omega arith)
print_int-print_long (negsuc n) h = ground arith

pub long_of_int-lt : (i : ℤ) → IsInt i → long_of_int i < 2 ^ 64
long_of_int-lt (pos n) h = omega arith
long_of_int-lt (negsuc n) h = omega arith
