-- ===== src/Report/Text/Digits.antt =====
-- What the digits of a number look like, and what they spell.
use gapso_rbf_pid.Prelude.{
  ℕ, zero, suc, ◌+◌, ◌*◌, ◌/◌, ◌%◌, ◌≤◌, ◌<◌, ◌≡◌, refl, List, [], ◌∷◌, ◌++◌, arith, length,
}
use gapso_rbf_pid.Report.Text.{digits_onto, print_unsigned, is_digit, scan_digits}

-- 10 ^ k
abbrev pub tens : ℕ → ℕ
tens zero = 1
tens (suc k) = 10 * tens k

abbrev pub IsDigit : ℕ → Type 0
IsDigit c = (b'0' ≤ c) × (c ≤ b'9')

abbrev pub StartsDigit : List ℕ → Type 0
StartsDigit [] = 1 ≤ 0
StartsDigit (c ∷ s) = IsDigit c

-- no digit in front
abbrev pub StartsOther : List ℕ → Type 0
StartsOther [] = Unit
StartsOther (c ∷ s) = c < b'0'

digits_onto-StartsDigit :
    (k n : ℕ) (out : List ℕ) → StartsDigit out → StartsDigit (digits_onto k n out)
unfolding digits_onto
digits_onto-StartsDigit zero n out h = h
digits_onto-StartsDigit (suc k) n out h =
    let d : IsDigit (b'0' + n % 10) = omega arith in
    let ih = digits_onto-StartsDigit k (n / 10) ((b'0' + n % 10) ∷ out) d in ground arith

first-StartsDigit : (k n : ℕ) → StartsDigit (digits_onto (suc k) n [])
unfolding digits_onto
first-StartsDigit k n =
    let d : IsDigit (b'0' + n % 10) = omega arith in
    let more = digits_onto-StartsDigit k (n / 10) ((b'0' + n % 10) ∷ []) d in ground arith

pub print_unsigned-StartsDigit : (n : ℕ) → StartsDigit (print_unsigned n)
unfolding print_unsigned
print_unsigned-StartsDigit n = first-StartsDigit 19 n

scan_digits-digits_onto :
    (k n : ℕ) (out : List ℕ) → n < tens k → scan_digits 0 (digits_onto k n out) ≡ scan_digits n out
unfolding digits_onto scan_digits is_digit
scan_digits-digits_onto zero n out h = ground arith
scan_digits-digits_onto (suc k) n out h =
    let ih = scan_digits-digits_onto k (n / 10) ((b'0' + n % 10) ∷ out) (omega arith) in
    ground arith

digits_onto-append :
    (k n : ℕ) (out rest : List ℕ) → digits_onto k n out ++ rest ≡ digits_onto k n (out ++ rest)
unfolding digits_onto
digits_onto-append zero n out rest = refl
digits_onto-append (suc k) n out rest =
    let ih = digits_onto-append k (n / 10) ((b'0' + n % 10) ∷ out) rest in ground arith

scan_digits_stop : (n : ℕ) (rest : List ℕ) → StartsOther rest → scan_digits n rest ≡ (n, rest)
unfolding scan_digits is_digit
scan_digits_stop n [] h = refl
scan_digits_stop n (c ∷ s) h = ground arith

-- The digits of a number of at most twenty digits spell it.
pub scan_digits-print_unsigned :
    (n : ℕ) (rest : List ℕ)
    → n < tens 20
    → StartsOther rest
    → scan_digits 0 (print_unsigned n ++ rest) ≡ (n, rest)
unfolding print_unsigned
scan_digits-print_unsigned n rest h r =
    rw (digits_onto-append 20 n [] rest, scan_digits-digits_onto 20 n rest h)
      (scan_digits_stop n rest r)

one-le-tens : (k : ℕ) → 1 ≤ tens k
one-le-tens zero = omega arith
one-le-tens (suc k) = omega (arith, one-le-tens k)

length-le-digits_onto : (k n : ℕ) (out : List ℕ) → length out ≤ length (digits_onto k n out)
unfolding digits_onto
length-le-digits_onto zero n out = omega arith
length-le-digits_onto (suc k) n out =
    let ih = length-le-digits_onto k (n / 10) ((b'0' + n % 10) ∷ out) in ground arith

length-digits_onto :
    (k m n : ℕ) (out : List ℕ)
    → tens k ≤ n
    → k < m
    → k + 1 + length out ≤ length (digits_onto m n out)
unfolding digits_onto
length-digits_onto k zero n out h lt = absurd (omega arith)
length-digits_onto zero (suc m) n out h lt =
    let longer = length-le-digits_onto m (n / 10) ((b'0' + n % 10) ∷ out) in ground arith
length-digits_onto (suc k) (suc m) n out h lt =
    let ih = length-digits_onto k m (n / 10) ((b'0' + n % 10) ∷ out) (omega arith) (omega arith) in
    let one = one-le-tens k in ground arith

-- A number that is at least 10 ^ k is printed with more than `k` digits.
pub lt-length-print_unsigned : (k n : ℕ) → tens k ≤ n → k < 20 → k < length (print_unsigned n)
unfolding print_unsigned
lt-length-print_unsigned k n h lt = omega (arith, length-digits_onto k 20 n [] h lt)
