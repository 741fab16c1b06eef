-- ===== src/Exp.antt =====
-- include/exp.h and include/fabs.h: the exponential of a double, by its two 32-bit words.
pub mod Special
pub mod Scale
use gapso_rbf_pid.Prelude.{
  ℕ, ◌+◌, ◌*◌, ◌/◌, ◌%◌, ◌^◌, not, ◌&&◌, ◌||◌, ltb, leb, ◌==◌, if◌then◌else◌, u32, u32_of_int,
}
use gapso_rbf_pid.Prelude.Int.{ℤ, pos, negsuc, ltb_ℤ, sub_ℕ, ◌+ℤ◌}
use gapso_rbf_pid.Double.{Double, ◌⊕◌, ◌⊖◌, ◌⊗◌, ◌⊘◌, ◌≺◌, num}

-- SET_HIGH_WORD of the pattern `w`
unfoldable pub set_high_word : ℕ → ℕ → ℕ
set_high_word w v = u32 v * 2 ^ 32 + u32 w

-- hy+(k<<20), of the high word of the pattern `w`
unfoldable pub add_exponent : ℕ → ℤ → ℕ
unfolding set_high_word
add_exponent w k = set_high_word w (u32 (w / 2 ^ 32) + u32 (u32_of_int k * 2 ^ 20))

module _ {D : Type 0} ⦃d : Double D⦄ where
  open d use {neg, of_int, to_int, dec, bits, of_bits}

  -- GET_HIGH_WORD, GET_LOW_WORD
  abbrev pub high_word : D → ℕ
  high_word x = u32 (bits x / 2 ^ 32)

  abbrev pub low_word : D → ℕ
  low_word x = u32 (bits x)

  abbrev one : D
  one = dec 10 1

  abbrev half : ℕ → D
  half xsb = if xsb == 0 then dec 5 1 else neg (dec 5 1)

  abbrev huge : D
  huge = dec (10 ^ 300) 0

  abbrev twom1000 : D
  twom1000 = dec 933263618503218878990 322

  abbrev o_threshold : D
  o_threshold = dec 709782712893383973096 18

  abbrev u_threshold : D
  u_threshold = neg (dec 745133219101941108420 18)

  abbrev ln2_hi : ℕ → D
  ln2_hi xsb = let v = dec 693147180369123816490 21 in if xsb == 0 then v else neg v

  abbrev ln2_lo : ℕ → D
  ln2_lo xsb = let v = dec 190821492927058770002 30 in if xsb == 0 then v else neg v

  abbrev invln2 : D
  invln2 = dec 144269504088896338700 20

  -- c  = x - t*(P1+t*(P2+t*(P3+t*(P4+t*P5))))
  unfoldable pub remez : D → D → D
  remez x t =
      let p1 = dec 166666666666666019037 21 in
      let p2 = neg (dec 277777777770155933842 23) in
      let p3 = dec 661375632143793436117 25 in
      let p4 = neg (dec 165339022054652515390 26) in
      let p5 = dec 413813679705723846039 28 in
      x ⊖ t ⊗ (p1 ⊕ t ⊗ (p2 ⊕ t ⊗ (p3 ⊕ t ⊗ (p4 ⊕ t ⊗ p5))))

  -- "add k to y's exponent"
  unfoldable pub scale : D → ℤ → D
  unfolding add_exponent
  scale y k =
      if ltb_ℤ k (negsuc 1020)
      then of_bits (add_exponent (bits y) (k +ℤ pos 1000)) ⊗ twom1000
      else of_bits (add_exponent (bits y) k)

  -- from "x is now in primary range" on
  unfoldable pub primary : D → D → D → ℤ → D
  unfolding remez scale
  primary x hi lo k =
      let t = x ⊗ x in
      let c = remez x t in
      if ltb_ℤ k (pos 0) || ltb_ℤ (pos 0) k
      then scale (one ⊖ (lo ⊖ x ⊗ c ⊘ (dec 20 1 ⊖ c) ⊖ hi)) k
      else one ⊖ (x ⊗ c ⊘ (c ⊖ dec 20 1) ⊖ x)

  -- The argument reduction. Where the test `huge+x>one` fails, which it does for no such x, the
  -- source goes on with `k` unset; the model goes on with 0.
  unfoldable pub reduce : ℕ → ℕ → D → D
  unfolding primary
  reduce hx xsb x =
      if ltb 0x3fd62e42 hx
      then (if ltb hx 0x3FF0A2B2
          then (let hi = x ⊖ ln2_hi xsb in
              let lo = ln2_lo xsb in primary (hi ⊖ lo) hi lo (sub_ℕ 1 (xsb + xsb)))
          else (let k = to_int (invln2 ⊗ x ⊕ half xsb) in
              let t = of_int k in
              let hi = x ⊖ t ⊗ ln2_hi 0 in let lo = t ⊗ ln2_lo 0 in primary (hi ⊖ lo) hi lo k))
      else if ltb hx 0x3e300000 && one ≺ huge ⊕ x
      then one ⊕ x
      else primary x (num 0) (num 0) (pos 0)

  -- `__ieee754_exp`, which `exp` calls
  unfoldable pub exp : D → D
  unfolding reduce
  exp x =
      let hw = high_word x in
      let xsb = hw / 2 ^ 31 % 2 in
      let hx = hw % 2 ^ 31 in
      if leb 0x40862E42 hx
      then (if leb 0x7ff00000 hx
          then (if not (hx % 2 ^ 20 == 0 && low_word x == 0)
              then x ⊕ x
              else if xsb == 0
              then x
              else dec 0 1)
          else if o_threshold ≺ x
          then huge ⊗ huge
          else if x ≺ u_threshold
          then twom1000 ⊗ twom1000
          else reduce hx xsb x)
      else reduce hx xsb x

  -- fabs.h
  unfoldable pub fabs : D → D
  fabs a = if num 0 ≺ a then a else neg a
