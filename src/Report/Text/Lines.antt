-- ===== src/Report/Text/Lines.antt =====
-- Printed numbers as lines: what fgets makes of them, and how long they are.
use mathlib.Core.List.{append_assoc}
use gapso_rbf_pid.Prelude.{
  ℕ, zero, suc, ◌+◌, ◌-◌, ◌/◌, ◌%◌, ◌^◌, ◌≤◌, ◌<◌, ◌≡◌, ◌∙◌, refl, ap, List, [], ◌∷◌, ◌++◌, false,
  Bool, Bool-cases, arith, ltb, leb, ◌==◌, if◌then◌else◌, length-append, ◌||◌, inl, inr, map, All,
  length,
}
use gapso_rbf_pid.Report.Text.{
  digits_onto, print_unsigned, print_long, each_with, all_lines, atoll, Scan, or_zero,
}
use gapso_rbf_pid.Report.Readers.{is_long}
use gapso_rbf_pid.Report.Text.Digits.{tens, lt-length-print_unsigned}
use gapso_rbf_pid.Report.Text.Scanned.{skip_space-print_long, scan_long-print_long}

-- no newline in it
abbrev IsMark : ℕ → Type 0
IsMark c = b'-' ≤ c

digits_onto-IsMark : (k n : ℕ) (out : List ℕ) → All IsMark out → All IsMark (digits_onto k n out)
unfolding digits_onto
digits_onto-IsMark zero n out h = h
digits_onto-IsMark (suc k) n out h =
    let ih = digits_onto-IsMark k (n / 10) ((b'0' + n % 10) ∷ out) (omega arith, h) in ground arith

print_unsigned-IsMark : (n : ℕ) → All IsMark (print_unsigned n)
unfolding print_unsigned
print_unsigned-IsMark n = digits_onto-IsMark 20 n [] (omega arith)

print_long-IsMark : (w : ℕ) → All IsMark (print_long w)
unfolding print_long
print_long-IsMark w = elim (Bool-cases (ltb w (2 ^ 63))) [
  | inl e ↦ rw e (print_unsigned-IsMark w)
  | inr e ↦ rw e (omega arith, print_unsigned-IsMark (2 ^ 64 - w))
]

length-digits_onto_le :
    (k m n : ℕ) (out : List ℕ)
    → n < tens (suc k)
    → length (digits_onto m n out) ≤ suc k + length out
unfolding digits_onto
length-digits_onto_le k zero n out h = omega arith
length-digits_onto_le zero (suc m) n out h = ground arith
length-digits_onto_le (suc k) (suc m) n out h =
    let ih = length-digits_onto_le k m (n / 10) ((b'0' + n % 10) ∷ out) (omega arith) in
    ground arith

-- A number below 10 ^ (k + 1) is printed with at most k + 1 digits.
pub length-print_unsigned_le : (k n : ℕ) → n < tens (suc k) → length (print_unsigned n) ≤ suc k
unfolding print_unsigned
length-print_unsigned_le k n h = omega (arith, length-digits_onto_le k 20 n [] h)

-- Its text has more than 18 bytes.
abbrev pub is_wide : ℕ → Bool
is_wide w = if ltb w (2 ^ 63) then leb (tens 18) w else leb (tens 17) (2 ^ 64 - w)

-- how many numbers stand before the first such one
abbrev pub before_wide : List ℕ → ℕ
before_wide [] = 0
before_wide (w ∷ ws) = let rest = before_wide ws in if is_wide w then 0 else suc rest

pub is_long-print_long : (w : ℕ) → w < 2 ^ 64 → is_long (print_long w ++ (b'\n' ∷ [])) ≡ is_wide w
unfolding print_long is_long
is_long-print_long w h = elim (Bool-cases (ltb w (2 ^ 63))) [
  | inl e ↦ rw e (
      ground (
        arith,
        length-append (print_unsigned w) (b'\n' ∷ []),
        lt-length-print_unsigned 18 w,
        length-print_unsigned_le 17 w,
      ))
  | inr e ↦ rw e (
      ground (
        arith,
        length-append (print_unsigned (2 ^ 64 - w)) (b'\n' ∷ []),
        lt-length-print_unsigned 17 (2 ^ 64 - w),
        length-print_unsigned_le 16 (2 ^ 64 - w),
      ))
]

length-print_long_le : (w : ℕ) → w < 2 ^ 64 → length (print_long w) ≤ 21
unfolding print_long
length-print_long_le w h = elim (Bool-cases (ltb w (2 ^ 63))) [
  | inl e ↦ rw e (omega (arith, length-print_unsigned_le 19 w (omega arith)))
  | inr e ↦ rw e (omega (arith, length-print_unsigned_le 19 (2 ^ 64 - w) (omega arith)))
]

all_lines-newline :
    (max room : ℕ) (t rest : List ℕ)
    → All IsMark t
    → length t < room
    → all_lines max room (t ++ (b'\n' ∷ rest)) ≡ (t ++ (b'\n' ∷ [])) ∷ all_lines max max rest
unfolding all_lines
all_lines-newline max room [] rest h lt = refl
all_lines-newline max room (c ∷ t) rest h lt =
    let ih = all_lines-newline max (room - 1) t rest h.1 (omega arith) in
    let goes_on : (c == b'\n' || leb room 1) ≡ false = ground arith in rw goes_on (rw ih refl)

-- The lines of printed numbers, each with its newline.
pub all_lines-print_long :
    (max : ℕ) (ws : List ℕ)
    → 21 < max
    → All (λ w. w < 2 ^ 64) ws
    → all_lines max max (each_with b'\n' (map print_long ws))
      ≡ map (λ w. print_long w ++ (b'\n' ∷ [])) ws
unfolding each_with all_lines
all_lines-print_long max [] lt h = refl
all_lines-print_long max (w ∷ ws) lt h =
    all_lines-newline max max (print_long w) (each_with b'\n' (map print_long ws))
      (print_long-IsMark w) (omega (arith, length-print_long_le w h.0))
    ∙ ap (◌∷◌ (print_long w ++ (b'\n' ∷ []))) (all_lines-print_long max ws lt h.1)

pub each_with-append :
    (c : ℕ) (xs ys : List (List ℕ)) → each_with c (xs ++ ys) ≡ each_with c xs ++ each_with c ys
unfolding each_with
each_with-append c [] ys = refl
each_with-append c (x ∷ xs) ys = simp (each_with-append c xs ys, append_assoc)

-- A line with a number is read as the number.
pub atoll-print_long : (w : ℕ) → w < 2 ^ 64 → atoll (print_long w ++ (b'\n' ∷ [])) ≡ w
unfolding atoll
atoll-print_long w h =
    ap (λ (s : Scan). or_zero s.found)
      (scan_long-print_long w (print_long w ++ (b'\n' ∷ [])) (b'\n' ∷ []) h (omega arith)
        (skip_space-print_long w (b'\n' ∷ [])))
