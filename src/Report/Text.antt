-- ===== src/Report/Text.antt =====
-- The text of the /proc files: what the programs use of the C library and of the kernel's seq_printf.
-- A text is the list of its bytes.
pub mod Digits
pub mod Scanned
pub mod Lines
use Prim.Native.Char.{code}
use Prim.Native.String.{String}
use gapso_rbf_pid.Prelude.{
  ℕ, zero, suc, ◌+◌, ◌-◌, ◌*◌, ◌/◌, ◌%◌, ◌^◌, List, [], ◌∷◌, ◌++◌, Bool, true, false, ◌&&◌, ◌||◌,
  Option, none, some, ltb, leb, ◌==◌, if◌then◌else◌,
}
use gapso_rbf_pid.Prelude.Int.{ℤ, pos, negsuc}

abbrev pub codes : String → List ℕ
codes String.[] = []
codes (String.◌∷◌ c s) = code c ∷ codes s

-- An integer as the pattern of a `long long`.
abbrev pub long_of_int : ℤ → ℕ
long_of_int (pos n) = n
long_of_int (negsuc n) = 2 ^ 64 - 1 - n

-- The decimal digits of `n` in front of `out`, at most as many as the first argument says.
unfoldable pub digits_onto : ℕ → ℕ → List ℕ → List ℕ
digits_onto zero n out = out
digits_onto (suc k) n out =
    let more = digits_onto k (n / 10) ((b'0' + n % 10) ∷ out) in
    if n / 10 == 0 then (b'0' + n % 10) ∷ out else more

-- %u; a number of 64 bits has at most twenty digits
unfoldable pub print_unsigned : ℕ → List ℕ
print_unsigned n = digits_onto 20 n []

-- %d
unfoldable pub print_int : ℤ → List ℕ
print_int (pos n) = print_unsigned n
print_int (negsuc n) = b'-' ∷ print_unsigned (n + 1)

-- %lld, of a pattern of 64 bits
unfoldable pub print_long : ℕ → List ℕ
print_long w = if ltb w (2 ^ 63) then print_unsigned w else b'-' ∷ print_unsigned (2 ^ 64 - w)

-- isspace
unfoldable pub is_space : ℕ → Bool
is_space c = c == b' ' || (leb 9 c && leb c 13)

unfoldable pub skip_space : List ℕ → List ℕ
skip_space [] = []
skip_space (c ∷ s) = if is_space c then skip_space s else c ∷ s

unfoldable pub is_digit : ℕ → Bool
is_digit c = leb b'0' c && leb c b'9'

-- the number that the digits in front spell behind `n`, and the text that is left
unfoldable pub scan_digits : ℕ → List ℕ → ℕ × List ℕ
scan_digits n [] = (n, [])
scan_digits n (c ∷ s) = if is_digit c then scan_digits (n * 10 + (c - b'0')) s else (n, c ∷ s)

-- The pattern of a `long long`: a number that is too large becomes the largest, or the smallest.
unfoldable pub to_long : Bool → ℕ → ℕ
to_long negative n =
    if negative
    then (if leb n (2 ^ 63) then (2 ^ 64 - n) % 2 ^ 64 else 2 ^ 63)
    else if ltb n (2 ^ 63)
    then n
    else 2 ^ 63 - 1

pub record Scan : Type 0 where
  -- `none` where there is no number in front
  pub found : Option ℕ
  pub left : List ℕ

-- behind the sign
unfoldable pub scan_unsigned : Bool → List ℕ → Scan
scan_unsigned negative [] = record { found = none; left = [] }
scan_unsigned negative (c ∷ s) =
    let (n, left) = scan_digits 0 (c ∷ s) in
    if is_digit c
    then record { found = some (to_long negative n); left = left }
    else record { found = none; left = c ∷ s }

unfoldable pub scan_signed : List ℕ → Scan
scan_signed [] = record { found = none; left = [] }
scan_signed (c ∷ s) =
    if c == b'-'
    then scan_unsigned true s
    else if c == b'+'
    then scan_unsigned false s
    else scan_unsigned false (c ∷ s)

-- one %lld of fscanf
unfoldable pub scan_long : List ℕ → Scan
scan_long s = scan_signed (skip_space s)

abbrev pub or_zero : Option ℕ → ℕ
or_zero none = 0
or_zero (some n) = n

-- atoll
unfoldable pub atoll : List ℕ → ℕ
atoll s = or_zero (scan_long s).found

-- each text with the byte `c` behind it
unfoldable pub each_with : ℕ → List (List ℕ) → List ℕ
each_with c [] = []
each_with c (t ∷ ts) = t ++ (c ∷ each_with c ts)

pub record Line : Type 0 where
  -- the bytes read, the newline included
  pub line : List ℕ
  pub left : List ℕ

-- fgets with room for `room` bytes besides the final zero
unfoldable pub fgets : ℕ → List ℕ → Line
fgets zero s = record { line = []; left = s }
fgets (suc room) [] = record { line = []; left = [] }
fgets (suc room) (c ∷ s) =
    let rest = fgets room s in
    if c == b'\n'
    then record { line = c ∷ []; left = s }
    else record { line = c ∷ rest.line; left = rest.left }

abbrev put_first : ℕ → List (List ℕ) → List (List ℕ)
put_first c [] = (c ∷ []) ∷ []
put_first c (l ∷ ls) = (c ∷ l) ∷ ls

-- What the calls of fgets with room for `max` bytes return, one after the other, up to the end of the
-- file; there is room for `room` bytes in the first.
unfoldable pub all_lines : ℕ → ℕ → List ℕ → List (List ℕ)
all_lines max room [] = []
all_lines max room (c ∷ s) =
    let ends = c == b'\n' || leb room 1 in
    let rest = all_lines max (if ends then max else room - 1) s in
    if ends then (c ∷ []) ∷ rest else put_first c rest
