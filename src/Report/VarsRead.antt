-- ===== src/Report/VarsRead.antt =====
-- What read_proc_rbfgrad_vars_/read_proc_rbfgrad_vars.c prints of the /proc file of
-- modules/tracepoint-probe-rbfgrad-vars.c.
use gapso_rbf_pid.Prelude.{
  ℕ, ◌-◌, ◌^◌, ◌<◌, ◌≡◌, ◌∙◌, refl, sym, ap, List, [], ◌∷◌, ◌++◌, replicate, true, false, some, map,
  length, take, Bool-cases, inl, inr, All, any, arith,
}
use gapso_rbf_pid.Double.{Double, IsStorable, num}
use gapso_rbf_pid.Report.Text.{print_long, each_with, print_unsigned, digits_onto}
use gapso_rbf_pid.Report.Text.Lines.{
  is_wide, before_wide, is_long-print_long, atoll-print_long, all_lines-print_long,
}
use gapso_rbf_pid.Report.Transfer.{Cell, real}
use gapso_rbf_pid.Report.Readers.{line_max, vars_loop, read_proc_rbfgrad_vars}
use gapso_rbf_pid.Report.Probe.{Kfifo, IsFifo}
use gapso_rbf_pid.Report.Drain.{Drain, first, stops, page_size, next-empty}
use gapso_rbf_pid.Report.Vars.{
  TraceParms, parms_init, rbfgrad_vars_start, rbfgrad_vars_next, rbfgrad_vars_show,
  probe_rbfgrad_vars_output,
}

module _ {D : Type 0} ⦃d : Double D⦄ where
  open d use {bits, of_bits}

  abbrev double_cells : List ℕ → List (Cell D)
  double_cells [] = []
  double_cells (w ∷ ws) = real (of_bits w) ∷ double_cells ws

  vars_loop-print_long :
      (ws : List ℕ)
      → All (λ w. w < 2 ^ 64) ws
      → vars_loop (map (λ w. print_long w ++ (b'\n' ∷ [])) ws)
        ≡ record { cells = take (before_wide ws) (double_cells ws); overrun = any is_wide ws }
  unfolding vars_loop
  vars_loop-print_long [] h = refl
  vars_loop-print_long (w ∷ ws) h = elim (Bool-cases (is_wide w)) [
    | inl e ↦ rw (is_long-print_long w h.0, e) refl
    | inr e ↦
        rw (is_long-print_long w h.0, e, atoll-print_long w h.0, vars_loop-print_long ws h.1) refl
  ]

  -- The numbers of a text with one on each line are printed as doubles up to the first line with
  -- more than 18 bytes besides the newline, which is longer than the array.
  read_proc_rbfgrad_vars-print_long :
      (ws : List ℕ)
      → All (λ w. w < 2 ^ 64) ws
      → read_proc_rbfgrad_vars {D = D} (some (each_with b'\n' (map print_long ws))) true
        ≡ some
            (record { cells = take (before_wide ws) (double_cells ws); overrun = any is_wide ws })
  unfolding read_proc_rbfgrad_vars
  read_proc_rbfgrad_vars-print_long ws h =
      rw (all_lines-print_long (line_max - 1) ws (omega arith) h, vars_loop-print_long ws h) refl

module _ {D F : Type 0} ⦃d : Double D⦄ (k : Kfifo (TraceParms D) F) where
  -- the probe, called with each record in turn
  abbrev pub probe_all : List (TraceParms D) → F → F
  probe_all [] f = f
  probe_all (t ∷ ts) f = probe_all ts (probe_rbfgrad_vars_output k t f)

  probe_all-same : (ts : List (TraceParms D)) (f : F) → probe_all ts f ≡ f
  unfolding probe_rbfgrad_vars_output
  probe_all-same [] f = refl
  probe_all-same (t ∷ ts) f = probe_all-same ts f

module _ (D : Type 0) ⦃d : Double D⦄ where
  zeros_fit : d.bits (num 0) ≡ 0 → length (rbfgrad_vars_show (parms_init {D = D})) < page_size
  unfolding rbfgrad_vars_show parms_init each_with print_long print_unsigned digits_onto
  zeros_fit zero = rw zero (omega arith)

module _ {D : Type 0} ⦃d : Double D⦄ where
  read_zeros :
      (storable : IsStorable D)
      → d.bits (num 0) ≡ 0
      → read_proc_rbfgrad_vars {D = D} (some (rbfgrad_vars_show (parms_init {D = D}))) true
        ≡ some (record { cells = replicate 11 (real (num 0)); overrun = false })
  unfolding rbfgrad_vars_show parms_init
  read_zeros storable zero =
      let back : d.of_bits 0 ≡ num 0 = ap d.of_bits (sym zero) ∙ storable.of_bits-bits (num 0) in
      rw zero (
        read_proc_rbfgrad_vars-print_long (replicate 11 0) (omega arith) ∙ λ i.
        some (record { cells = replicate 11 (real (back i)); overrun = false }))

module _ {D F : Type 0} ⦃d : Double D⦄ (k : Kfifo (TraceParms D) F) where
  -- Where reading a stored pattern back gives the double, and the pattern of 0 is 0: whatever
  -- variables the probe is called with on an empty queue, one read of the file ends and shows a single
  -- record of zeros, and the program that reads its text prints eleven zeros.
  pub vars_read-zeros :
      (laws : IsFifo k) (storable : IsStorable D) (ts : List (TraceParms D)) (f : F)
      → k.contents f ≡ []
      → d.bits (num 0) ≡ 0
      → ((f' : F) × Drain rbfgrad_vars_show
            (rbfgrad_vars_next k)
            (rbfgrad_vars_start 0)
            0
            (probe_all k ts f)
            (parms_init ∷ [])
            []
            f')
        × (read_proc_rbfgrad_vars {D = D} (some (rbfgrad_vars_show (parms_init {D = D}))) true
            ≡ some (record { cells = replicate 11 (real (num 0)); overrun = false }))
  unfolding rbfgrad_vars_start rbfgrad_vars_next
  vars_read-zeros laws storable ts f h zero =
      let none_left = ap k.contents (probe_all-same k ts f) ∙ h in
      let got = next-empty k laws 0 (probe_all k ts f) (omega arith) none_left in
      (
        (
          probe_all k ts f,
          first parms_init 0 (probe_all k ts f) _ [] [] (zeros_fit D zero) (stops _ 0 1 _ _ got),
        ),
        read_zeros storable zero,
      )
