-- ===== src/Tc/Print.antt =====
-- iproute2-3.1.0/tc/q_rbfgrad.c: the text of the reports, and the two conversions to fixed point.
use Prim.Native.String.{String}
use gapso_rbf_pid.Prelude.{
  ℕ, zero, suc, ◌*◌, ◌+◌, ◌/◌, ◌%◌, List, [], ◌∷◌, ◌++◌, Bool, true, false, not, ◌&&◌, leb, ◌^◌,
  Option, none, some, if◌then◌else◌,
}
use gapso_rbf_pid.Prelude.Int.{ℤ, pos, negsuc}
use gapso_rbf_pid.Double.{Double, num}
use gapso_rbf_pid.Params.{Qopt}
use gapso_rbf_pid.Sched.Reports.{Xstats}

-- sprint_size, and fprintf with %d, %u and %lf
pub record Printer (D : Type 0) : Type 0 where
  pub sprint_size : ℕ → String
  pub print_int : ℤ → String
  pub print_unsigned : ℕ → String
  pub print_double : D → String

-- What parse_rtattr_nested finds of the options to print.
pub data Found (D : Type 0) : Type 0 where
  no_option no_parms short_parms : Found D
  found : Qopt D → Found D

module _ {D : Type 0} (w : Printer D) where
  -- the pieces that one fprintf writes after the other, for the options that were found
  unfoldable pub printed : Bool → Qopt D → List String
  printed show_details o =
      ("limit " ∷ w.sprint_size o.limit ∷ [])
      ++ (if not (bit_0 o.flags) then "ecn " ∷ [] else [])
      ++ (if show_details
          then "q_ref "
            ∷ w.print_int o.q_ref
            ∷ " p_init "
            ∷ w.print_double o.p_init
            ∷ " p_min "
            ∷ w.print_double o.p_min
            ∷ " p_max "
            ∷ w.print_double o.p_max
            ∷ " kp_k "
            ∷ w.print_double o.kp_k
            ∷ " ki_k "
            ∷ w.print_double o.ki_k
            ∷ " kp_d "
            ∷ w.print_double o.kd_k
            ∷ " eta_p "
            ∷ w.print_double o.eta_p
            ∷ " eta_i "
            ∷ w.print_double o.eta_i
            ∷ " eta_d "
            ∷ w.print_double o.eta_d
            ∷ " _n "
            ∷ w.print_int o.n
            ∷ " m "
            ∷ w.print_int o.m
            ∷ " alpha "
            ∷ w.print_double o.alpha
            ∷ " eta "
            ∷ w.print_double o.eta
            ∷ " sampl_period "
            ∷ w.print_int o.sampl_period
            ∷ []
          else [])
    where
      bit_0 : ℕ → Bool
      bit_0 n = elim (n % 2) [ zero ↦ true | suc m ↦ false ]

  unfoldable pub rbfgrad_print_opt : Bool → Found D → ℤ × List String
  rbfgrad_print_opt show_details no_option = (pos 0, [])
  rbfgrad_print_opt show_details no_parms = (negsuc 0, [])
  rbfgrad_print_opt show_details short_parms = (negsuc 0, [])
  rbfgrad_print_opt show_details (found o) = (pos 0, printed show_details o)

  -- `none` for a null pointer, `some none` for a short payload
  unfoldable pub rbfgrad_print_xstats : Option (Option Xstats) → ℤ × List String
  rbfgrad_print_xstats none = (pos 0, [])
  rbfgrad_print_xstats (some none) = (negsuc 0, [])
  rbfgrad_print_xstats (some (some st)) = (
    pos 0,
    "  marked "
        ∷ w.print_unsigned st.marked
        ∷ " early "
        ∷ w.print_unsigned st.early
        ∷ " pdrop "
        ∷ w.print_unsigned st.pdrop
        ∷ " other "
        ∷ w.print_unsigned st.other
        ∷ [],
  )

module _ {D : Type 0} ⦃d : Double D⦄ where
  open d use {dec, lt, add, sub, mul, div, bits}

  -- the loop of double2fixpoint, `n` rounds; `>=` is false of a NaN
  unfoldable pub fixpoint_bits : ℕ → ℕ → D → ℕ
  fixpoint_bits zero ret x = ret
  fixpoint_bits (suc n) ret x =
      let y = mul x (dec 20 1) in
      let one_more = leb (bits y % 2 ^ 63) 0x7ff0_0000_0000_0000 && not (lt y (num 1)) in
      fixpoint_bits n (if one_more then ret * 2 + 1 else ret * 2)
        (if one_more then sub y (dec 10 1) else y)

  unfoldable pub double2fixpoint : D → ℕ
  double2fixpoint x = fixpoint_bits 31 0 x

  -- the loop of fixpoint2double, for a number that is not negative
  unfoldable pub fixpoint_value : ℕ → D → ℕ → D
  fixpoint_value zero ret f = ret
  fixpoint_value (suc n) ret f = elim (f % 2) [
    | zero ↦ fixpoint_value n (div ret (dec 20 1)) (f / 2)
    | suc m ↦ fixpoint_value n (div (add ret (dec 10 1)) (dec 20 1)) (f / 2)
  ]

  unfoldable pub fixpoint2double : ℕ → D
  fixpoint2double f = fixpoint_value 31 (num 0) f
