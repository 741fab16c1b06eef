-- ===== src/Report/Row.antt =====
-- One row of the plots: the numbers of an entry are read back by transfer.c.
use gapso_rbf_pid.Prelude.{
  ℕ, suc, ◌+◌, ◌^◌, ◌<◌, ◌≡◌, ◌∙◌, sym, ap, refl, List, [], ◌∷◌, ◌++◌, length, All, map, arith,
  some,
}
use mathlib.Core.List.{append_assoc}
use mathlib.Core.Path.{subst}
use gapso_rbf_pid.Double.{Double, num, ◌⊗◌}
use gapso_rbf_pid.Params.Action.{Action, dont_mark, prob_mark}
use gapso_rbf_pid.Sched.{QueueShow}
use gapso_rbf_pid.Report.Text.{each_with, print_long, long_of_int, is_space, skip_space, scan_long}
use gapso_rbf_pid.Report.Text.Scanned.{
  IsInt, skip_space-print_long, scan_long-print_long, print_unsigned-print_long,
  print_int-print_long, long_of_int-lt,
}
use gapso_rbf_pid.Report.QueueData.{l_show, mark_number}
use gapso_rbf_pid.Report.Transfer.{Cell, whole, real, Row, transfer_cell, transfer_row, col_count}

-- Every number of an entry fits in its C type.
pub record Fits (s : QueueShow) : Type 0 where
  pub numbers : s.numbers < 2 ^ 32
  pub length : s.length < 2 ^ 32
  pub p : s.p < 2 ^ 64
  pub kp : s.kp < 2 ^ 64
  pub ki : s.ki < 2 ^ 64
  pub kd : s.kd < 2 ^ 64
  pub jacobian : s.jacobian < 2 ^ 64
  pub net_out : s.net_out < 2 ^ 64
  pub e_k : IsInt s.e_k
  pub e_k_1 : IsInt s.e_k_1
  pub e_k_2 : IsInt s.e_k_2

-- the numbers of an entry, as patterns of a `long long`
abbrev pub numbers_of : QueueShow → List ℕ
numbers_of s =
    s.numbers
    ∷ s.length
    ∷ mark_number s.mark_type
    ∷ s.p
    ∷ s.kp
    ∷ s.ki
    ∷ s.kd
    ∷ s.jacobian
    ∷ s.net_out
    ∷ long_of_int s.e_k
    ∷ long_of_int s.e_k_1
    ∷ long_of_int s.e_k_2
    ∷ []

abbrev IsLong : ℕ → Type 0
IsLong w = w < 2 ^ 64

mark_number-lt : (a : Action) → mark_number a < 2 ^ 63
mark_number-lt dont_mark = omega arith
mark_number-lt prob_mark = omega arith

numbers_of-IsLong : (s : QueueShow) → Fits s → All IsLong (numbers_of s)
numbers_of-IsLong s h = omega (
  arith,
  h.numbers,
  h.length,
  mark_number-lt s.mark_type,
  h.p,
  h.kp,
  h.ki,
  h.kd,
  h.jacobian,
  h.net_out,
  long_of_int-lt s.e_k h.e_k,
  long_of_int-lt s.e_k_1 h.e_k_1,
  long_of_int-lt s.e_k_2 h.e_k_2,
)

l_show-columns :
    (s : QueueShow)
    → Fits s
    → l_show s ≡ each_with b'\t' (map print_long (numbers_of s)) ++ (b'\n' ∷ [])
unfolding l_show
l_show-columns s h =
    rw
      (
        print_unsigned-print_long s.numbers (omega (arith, h.numbers)),
        print_unsigned-print_long s.length (omega (arith, h.length)),
        print_unsigned-print_long (mark_number s.mark_type) (mark_number-lt s.mark_type),
        print_int-print_long s.e_k h.e_k,
        print_int-print_long s.e_k_1 h.e_k_1,
        print_int-print_long s.e_k_2 h.e_k_2,
      )
      refl

abbrev pub last_of : ℕ → List ℕ → ℕ
last_of a [] = a
last_of a (w ∷ ws) = last_of w ws

skip_space_tab : (s : List ℕ) → skip_space (b'\t' ∷ s) ≡ skip_space s
unfolding skip_space is_space
skip_space_tab s = refl

skip_space_newline : (s : List ℕ) → skip_space (b'\n' ∷ s) ≡ skip_space s
unfolding skip_space is_space
skip_space_newline s = refl

module _ {D : Type 0} ⦃d : Double D⦄ where
  open d use {of_bits}

  abbrev pub row_of : ℕ → List ℕ → List (Cell D)
  row_of j [] = []
  row_of j (w ∷ ws) = transfer_cell j w ∷ row_of (j + 1) ws

  -- what a row is that was read from the numbers `ws`, with `rest` behind them
  abbrev pub Reads : ℕ → ℕ → List ℕ → List ℕ → Row D → Type 0
  Reads j a ws rest r =
      (r.cells ≡ row_of j ws) × (r.last ≡ last_of a ws) × (skip_space r.left ≡ skip_space rest)

  transfer_row_step :
      (n j a : ℕ) (text : List ℕ) (w : ℕ) (left : List ℕ)
      → scan_long text ≡ record { found = some w; left = left }
      → transfer_row (suc n) j a text ≡ record {
        cells = transfer_cell j w ∷ (transfer_row {D = D} n (j + 1) w left).cells;
        last = (transfer_row {D = D} n (j + 1) w left).last;
        left = (transfer_row {D = D} n (j + 1) w left).left;
      }
  unfolding transfer_row
  transfer_row_step n j a text w left e = rw e refl

  transfer_row-Reads :
      (ws : List ℕ) (j a : ℕ) (text rest : List ℕ)
      → All IsLong ws
      → skip_space text ≡ skip_space (each_with b'\t' (map print_long ws) ++ rest)
      → Reads j a ws rest (transfer_row (length ws) j a text)
  unfolding transfer_row each_with
  transfer_row-Reads [] j a text rest h e = (refl, refl, e)
  transfer_row-Reads (w ∷ ws) j a text rest h e =
      let more = each_with b'\t' (map print_long ws) ++ rest in
      let at_tab =
        e
        ∙ ap skip_space
            (append_assoc (print_long w) (b'\t' ∷ each_with b'\t' (map print_long ws)) rest)
        ∙ skip_space-print_long w (b'\t' ∷ more) in
      let scanned = scan_long-print_long w text (b'\t' ∷ more) (h.0) (omega arith) at_tab in
      let ih = transfer_row-Reads ws (j + 1) w (b'\t' ∷ more) rest (h.1) (skip_space_tab more) in
      subst (Reads j a (w ∷ ws) rest) (sym (transfer_row_step (length ws) j a text w _ scanned))
        (ap (◌∷◌ (transfer_cell j w)) ih.0, ih.1, ih.2)

  -- what the plots should have of an entry
  abbrev pub plotted : QueueShow → List (Cell D)
  plotted s =
      whole s.numbers
      ∷ whole s.length
      ∷ whole (mark_number s.mark_type)
      ∷ real (of_bits s.p)
      ∷ real (of_bits s.kp)
      ∷ real (of_bits s.ki)
      ∷ real (of_bits s.kd)
      ∷ real (of_bits s.jacobian)
      ∷ real (of_bits s.net_out ⊗ num 6500)
      ∷ whole (long_of_int s.e_k)
      ∷ whole (long_of_int s.e_k_1)
      ∷ whole (long_of_int s.e_k_2)
      ∷ []

  -- the columns where every number is `a`
  abbrev pub repeated_row : ℕ → List (Cell D)
  repeated_row a =
      whole a
      ∷ whole a
      ∷ whole a
      ∷ real (of_bits a)
      ∷ real (of_bits a)
      ∷ real (of_bits a)
      ∷ real (of_bits a)
      ∷ real (of_bits a)
      ∷ real (of_bits a ⊗ num 6500)
      ∷ whole a
      ∷ whole a
      ∷ whole a
      ∷ []

  row_of-plotted : (s : QueueShow) → row_of 0 (numbers_of s) ≡ plotted s
  unfolding transfer_cell
  row_of-plotted s = refl

  pub transfer_row-l_show :
      (s : QueueShow) (a : ℕ) (text rest : List ℕ)
      → Fits s
      → skip_space text ≡ skip_space (l_show s ++ rest)
      → ((transfer_row {D = D} col_count 0 a text).cells ≡ plotted s)
        × ((transfer_row {D = D} col_count 0 a text).last ≡ long_of_int s.e_k_2)
        × (skip_space (transfer_row {D = D} col_count 0 a text).left ≡ skip_space rest)
  transfer_row-l_show s a text rest h e =
      let shown = each_with b'\t' (map print_long (numbers_of s)) in
      let r = transfer_row-Reads (numbers_of s) 0 a text (b'\n' ∷ rest) (numbers_of-IsLong s h) (
        e
        ∙ ap (λ t. skip_space (t ++ rest)) (l_show-columns s h)
        ∙ ap skip_space (append_assoc shown (b'\n' ∷ []) rest)) in
      (r.0 ∙ row_of-plotted s, r.1, r.2 ∙ skip_space_newline rest)
