-- ===== src/Examples/Binary64.antt =====
-- A concrete `Double`: the 64-bit patterns of IEEE 754 with its order, and arithmetic on the finite
-- ones that rounds toward zero. An operation on an infinity or a NaN gives a NaN here.
use gapso_rbf_pid.Prelude.{
  ℕ, suc, ◌+◌, ◌-◌, ◌*◌, ◌/◌, ◌%◌, ◌^◌, refl, Bool, true, false, ◌&&◌, ltb, leb, ◌==◌,
  if◌then◌else◌, arith, List, [], ◌∷◌,
}
use gapso_rbf_pid.Prelude.Int.{ℤ, pos, negsuc, pos_part, neg_part, sub_ℕ, ◌+ℤ◌, ◌-ℤ◌}
use gapso_rbf_pid.Double.{Double, IsOrdered, IsStorable}

abbrev infinity : ℕ
infinity = 0x7ff0_0000_0000_0000

abbrev pub nan : ℕ
nan = 0x7ff8_0000_0000_0000

abbrev magnitude : ℕ → ℕ
magnitude x = x % 2 ^ 63

abbrev is_number : ℕ → Bool
is_number x = leb (magnitude x) infinity

abbrev is_finite : ℕ → Bool
is_finite x = ltb (magnitude x) infinity

-- the patterns in the order of their values; both zeros have one key
abbrev key : ℕ → ℕ
key x = if x / 2 ^ 63 % 2 == 0 then 2 ^ 63 + magnitude x else 2 ^ 63 - magnitude x

abbrev less : ℕ → ℕ → Bool
less x y = is_number x && is_number y && ltb (key x) (key y)

-- the value of a finite pattern, in units of 2 ^ -1074
abbrev units : ℕ → ℕ
units m = if m / 2 ^ 52 == 0 then m else (2 ^ 52 + m % 2 ^ 52) * 2 ^ (m / 2 ^ 52 - 1)

abbrev value : ℕ → ℤ
value x = if x / 2 ^ 63 % 2 == 0 then pos (units (magnitude x)) else sub_ℕ 0 (units (magnitude x))

-- halves `m` until it has 53 bits; `e` counts the halvings
abbrev round : List ℕ → ℕ → ℕ → ℕ
round [] m e = e * 2 ^ 52 + m
round (j ∷ js) m e = elim (leb (2 ^ (52 + j)) m) [
  | true ↦ round js (m / 2 ^ j) (e + j)
  | false ↦ round js m e
]

abbrev encode : ℕ → ℕ
encode m =
    if leb (2 ^ 2098) m
    then infinity
    else round (1024 ∷ 512 ∷ 256 ∷ 128 ∷ 64 ∷ 32 ∷ 16 ∷ 8 ∷ 4 ∷ 2 ∷ 1 ∷ []) m 0

abbrev store : ℤ → ℕ
store (pos n) = encode n
store (negsuc n) = 2 ^ 63 + encode (suc n)

abbrev times : ℤ → ℤ → ℕ → ℕ → ℤ
times a b up down =
    let n = (pos_part a + neg_part a) * up * (pos_part b + neg_part b) / down in
    if neg_part a == 0
    then (if neg_part b == 0 then pos n else sub_ℕ 0 n)
    else if neg_part b == 0
    then sub_ℕ 0 n
    else pos n

abbrev quotient : ℤ → ℤ → ℤ
quotient a b =
    let n = (pos_part a + neg_part a) * 2 ^ 1074 / (pos_part b + neg_part b) in
    if neg_part a == 0
    then (if neg_part b == 0 then pos n else sub_ℕ 0 n)
    else if neg_part b == 0
    then sub_ℕ 0 n
    else pos n

abbrev finite : ℕ → ℕ → ℕ → ℕ
finite x y z = if is_finite x && is_finite y then z else nan

instance unfoldable pub Binary64 : Double ℕ
Binary64 = record {
  add = λ x y. finite x y (store (value x +ℤ value y));
  sub = λ x y. finite x y (store (value x -ℤ value y));
  mul = λ x y. finite x y (store (times (value x) (value y) 1 (2 ^ 1074)));
  div = λ x y. if magnitude y == 0 then nan else finite x y (store (quotient (value x) (value y)));
  neg = λ x. if x / 2 ^ 63 % 2 == 0 then magnitude x + 2 ^ 63 else magnitude x;
  lt = less;
  of_int = λ i. store (times i (pos 1) (2 ^ 1074) 1);
  to_int = λ x. times (value x) (pos 1) 1 (2 ^ 1074);
  dec = λ m k. store (pos (m * 2 ^ 1074 / 10 ^ k));
  bits = λ x. x;
  of_bits = λ w. w;
}

pub binary64-IsOrdered : IsOrdered ℕ
unfolding Binary64
binary64-IsOrdered = record {
  lt_irrefl = λ x. ground arith;
  lt_trans = λ x y z h h'. ground arith;
  lt_numbers = λ x y h. ground arith;
  lt_weak = λ x y z n h h'. ground arith;
}

pub binary64-IsStorable : IsStorable ℕ
unfolding Binary64
binary64-IsStorable = record { of_bits-bits = λ x. refl }
