-- ===== src/Report/ParamsRead.antt =====
-- What read_proc_rbfgrad_/read_proc_rbfgrad.c makes of the /proc file of
-- modules/tracepoint-probe-rbfgrad.c.
use mathlib.Core.List.{map-append}
use gapso_rbf_pid.Prelude.{
  ℕ, ◌+◌, ◌^◌, ◌-◌, ◌%◌, ◌<◌, ◌≡◌, ◌∙◌, sym, ap, refl, List, [], ◌∷◌, ◌++◌, true, ◌||◌, some, map,
  take, Bool-cases, inl, inr, All, any, All-append, arith, ◌==◌, if◌then◌else◌, int_of_u32,
}
use gapso_rbf_pid.Prelude.Int.{ℤ, pos, negsuc}
use gapso_rbf_pid.Double.{Double, IsStorable}
use gapso_rbf_pid.Params.{Qopt}
use gapso_rbf_pid.Report.Text.{long_of_int, print_long, each_with}
use gapso_rbf_pid.Report.Text.Scanned.{IsInt, print_int-print_long, long_of_int-lt}
use gapso_rbf_pid.Report.Text.Lines.{
  is_wide, before_wide, each_with-append, is_long-print_long, atoll-print_long,
  all_lines-print_long,
}
use gapso_rbf_pid.Report.Transfer.{Cell, whole, real}
use gapso_rbf_pid.Report.Readers.{line_max, atoi, params_cell, params_loop, read_proc_rbfgrad}
use gapso_rbf_pid.Report.Probe.{rbfgrad_show}

-- an `int` that is printed, read as a `long long` and cut
long_of_int-cut :
    (i : ℤ) → IsInt i → long_of_int (int_of_u32 (long_of_int i % 2 ^ 32)) ≡ long_of_int i
long_of_int-cut (pos n) h = ground arith
long_of_int-cut (negsuc n) h = ground arith

module _ {D : Type 0} ⦃d : Double D⦄ where
  open d use {bits, of_bits}

  -- Every number of the options fits in its C type.
  pub record FitsOptions (t : Qopt D) : Type 0 where
    pub sampl_period : IsInt t.sampl_period
    pub q_ref : IsInt t.q_ref
    pub p_max : bits t.p_max < 2 ^ 64
    pub eta_p : bits t.eta_p < 2 ^ 64
    pub eta_i : bits t.eta_i < 2 ^ 64
    pub eta_d : bits t.eta_d < 2 ^ 64
    pub m : IsInt t.m
    pub n : IsInt t.n
    pub alpha : bits t.alpha < 2 ^ 64
    pub eta : bits t.eta < 2 ^ 64

  -- the numbers of a record, as patterns of a `long long`
  abbrev pub numbers_of : Qopt D → List ℕ
  numbers_of t =
      long_of_int t.sampl_period
      ∷ long_of_int t.q_ref
      ∷ bits t.p_max
      ∷ bits t.eta_p
      ∷ bits t.eta_i
      ∷ bits t.eta_d
      ∷ long_of_int t.m
      ∷ long_of_int t.n
      ∷ bits t.alpha
      ∷ bits t.eta
      ∷ []

  abbrev pub all_numbers : List (Qopt D) → List ℕ
  all_numbers [] = []
  all_numbers (t ∷ ts) = numbers_of t ++ all_numbers ts

  -- the text of the records
  abbrev pub shown_text : List (Qopt D) → List ℕ
  shown_text [] = []
  shown_text (t ∷ ts) = rbfgrad_show t ++ shown_text ts

  -- what the reader should print of one record
  abbrev pub shown : Qopt D → List (Cell D)
  shown t =
      whole (long_of_int t.sampl_period)
      ∷ whole (long_of_int t.q_ref)
      ∷ real t.p_max
      ∷ real t.eta_p
      ∷ real t.eta_i
      ∷ real t.eta_d
      ∷ whole (long_of_int t.m)
      ∷ whole (long_of_int t.n)
      ∷ real t.alpha
      ∷ real t.eta
      ∷ []

  abbrev pub all_shown : List (Qopt D) → List (Cell D)
  all_shown [] = []
  all_shown (t ∷ ts) = shown t ++ all_shown ts

  -- the cell of a number
  abbrev number_cell : ℕ → ℕ → Cell D
  number_cell count_line w =
      if count_line == 1 || count_line == 2 || count_line == 7 || count_line == 8
      then whole (long_of_int (int_of_u32 (w % 2 ^ 32)))
      else real (of_bits w)

  abbrev number_cells : ℕ → List ℕ → List (Cell D)
  number_cells count_line [] = []
  number_cells count_line (w ∷ ws) =
      number_cell count_line w ∷ number_cells (if count_line == 10 then 1 else count_line + 1) ws

  params_cell-print_long :
      (count_line w : ℕ)
      → w < 2 ^ 64
      → params_cell count_line (print_long w ++ (b'\n' ∷ [])) ≡ number_cell count_line w
  unfolding params_cell atoi
  params_cell-print_long count_line w h = rw (atoll-print_long w h) refl

  params_loop-print_long :
      (ws : List ℕ) (count_line : ℕ)
      → All (λ w. w < 2 ^ 64) ws
      → params_loop count_line (map (λ w. print_long w ++ (b'\n' ∷ [])) ws) ≡ record {
        cells = take (before_wide ws) (number_cells count_line ws);
        overrun = any is_wide ws;
      }
  unfolding params_loop
  params_loop-print_long [] count_line h = refl
  params_loop-print_long (w ∷ ws) count_line h =
      let ih = params_loop-print_long ws (if count_line == 10 then 1 else count_line + 1) h.1 in
      elim (Bool-cases (is_wide w)) [
        | inl e ↦ rw (is_long-print_long w h.0, e) refl
        | inr e ↦ rw (is_long-print_long w h.0, e, params_cell-print_long count_line w h.0, ih) refl
      ]

  numbers_of-lt : (t : Qopt D) → FitsOptions t → All (λ w. w < 2 ^ 64) (numbers_of t)
  numbers_of-lt t h = omega (
    arith,
    long_of_int-lt t.sampl_period h.sampl_period,
    long_of_int-lt t.q_ref h.q_ref,
    h.p_max,
    h.eta_p,
    h.eta_i,
    h.eta_d,
    long_of_int-lt t.m h.m,
    long_of_int-lt t.n h.n,
    h.alpha,
    h.eta,
  )

  all_numbers-lt :
      (ts : List (Qopt D)) → All FitsOptions ts → All (λ w. w < 2 ^ 64) (all_numbers ts)
  all_numbers-lt [] h = h
  all_numbers-lt (t ∷ ts) h =
      All-append (λ w. w < 2 ^ 64) (numbers_of t) (all_numbers ts) (numbers_of-lt t h.0)
        (all_numbers-lt ts h.1)

  rbfgrad_show-each_with :
      (t : Qopt D)
      → FitsOptions t
      → rbfgrad_show t ≡ each_with b'\n' (map print_long (numbers_of t))
  unfolding rbfgrad_show
  rbfgrad_show-each_with t h =
      rw
        (
          print_int-print_long t.sampl_period h.sampl_period,
          print_int-print_long t.q_ref h.q_ref,
          print_int-print_long t.m h.m,
          print_int-print_long t.n h.n,
        )
        refl

  shown_text-each_with :
      (ts : List (Qopt D))
      → All FitsOptions ts
      → shown_text ts ≡ each_with b'\n' (map print_long (all_numbers ts))
  unfolding each_with
  shown_text-each_with [] h = refl
  shown_text-each_with (t ∷ ts) h =
      rw (rbfgrad_show-each_with t h.0, shown_text-each_with ts h.1)
        (sym (
          ap (each_with b'\n') (map-append print_long (numbers_of t) (all_numbers ts))
          ∙ each_with-append b'\n' (map print_long (numbers_of t))
              (map print_long (all_numbers ts))))

  number_cells-numbers_of :
      (laws : IsStorable D) (t : Qopt D) (rest : List ℕ)
      → FitsOptions t
      → number_cells 1 (numbers_of t ++ rest) ≡ shown t ++ number_cells 1 rest
  number_cells-numbers_of laws t rest h =
      rw
        (
          long_of_int-cut t.sampl_period h.sampl_period,
          long_of_int-cut t.q_ref h.q_ref,
          long_of_int-cut t.m h.m,
          long_of_int-cut t.n h.n,
          laws.of_bits-bits t.p_max,
          laws.of_bits-bits t.eta_p,
          laws.of_bits-bits t.eta_i,
          laws.of_bits-bits t.eta_d,
          laws.of_bits-bits t.alpha,
          laws.of_bits-bits t.eta,
        )
        refl

  number_cells-all_shown :
      (laws : IsStorable D) (ts : List (Qopt D))
      → All FitsOptions ts
      → number_cells 1 (all_numbers ts) ≡ all_shown ts
  number_cells-all_shown laws [] h = refl
  number_cells-all_shown laws (t ∷ ts) h =
      number_cells-numbers_of laws t (all_numbers ts) h.0
      ∙ ap (◌++◌ (shown t)) (number_cells-all_shown laws ts h.1)

  -- Where reading a stored pattern back gives the double: from the text of any records whose numbers
  -- fit in their types, the reader prints the values of these records, group by group, up to the first
  -- number that, as a `long long`, is at least 10 ^ 18 or at most -(10 ^ 17): its line is longer than
  -- the array that it is read into. Where there is none, all values are printed.
  pub read_proc_rbfgrad-shown_text :
      (laws : IsStorable D) (ts : List (Qopt D))
      → All FitsOptions ts
      → read_proc_rbfgrad (some (shown_text ts)) true
        ≡ some (record {
          cells = take (before_wide (all_numbers ts)) (all_shown ts);
          overrun = any is_wide (all_numbers ts);
        })
  unfolding read_proc_rbfgrad
  read_proc_rbfgrad-shown_text laws ts h =
      let fits = all_numbers-lt ts h in
      rw
        (
          shown_text-each_with ts h,
          all_lines-print_long (line_max - 1) (all_numbers ts) (omega arith) fits,
          params_loop-print_long (all_numbers ts) 1 fits,
          number_cells-all_shown laws ts h,
        )
        refl
