-- ===== src/Examples/Files.antt =====
-- Examples of the theorems on the text of the /proc files and their readers.
use gapso_rbf_pid.Prelude.{
  ℕ, ◌+◌, ◌<◌, ◌≤◌, ◌⊎◌, ◌==◌, ◌≡◌, refl, List, [], ◌∷◌, ◌++◌, replicate, take, true, false, some,
  any, arith, lt→ltb,
}
use gapso_rbf_pid.Prelude.Int.{pos, negsuc}
use gapso_rbf_pid.Double.{num}
use gapso_rbf_pid.Params.Action.{Action, dont_mark, prob_mark}
use gapso_rbf_pid.Sched.{State}
use gapso_rbf_pid.Sched.Packets.{sample}
use gapso_rbf_pid.Tc.{no_options}
use gapso_rbf_pid.Report.Drain.{Drain}
use gapso_rbf_pid.Report.Text.Lines.{is_wide, before_wide}
use gapso_rbf_pid.Report.Transfer.{transfer, real}
use gapso_rbf_pid.Report.Readers.{read_proc_rbfgrad, read_proc_rbfgrad_vars}
use gapso_rbf_pid.Report.QueueData.{header, header_names}
use gapso_rbf_pid.Report.QueueData.{l_start, l_next}
use gapso_rbf_pid.Report.Session.{count_up}
use gapso_rbf_pid.Report.Cat.{Cat, ends, reads, full}
use gapso_rbf_pid.Report.Cats.{Cats, done, cat, Cats-count_up}
use gapso_rbf_pid.Report.Reload.{has, Cat-gap}
use gapso_rbf_pid.Report.Row.{Fits}
use gapso_rbf_pid.Report.Rows.{lines}
use gapso_rbf_pid.Report.RoundTrip.{entries, state_rows, transfer-entries}
use gapso_rbf_pid.Report.ParamsRead.{
  FitsOptions, shown_text, all_shown, all_numbers, read_proc_rbfgrad-shown_text,
}
use gapso_rbf_pid.Report.Vars.{
  TraceParms, parms_init, rbfgrad_vars_start, rbfgrad_vars_next, rbfgrad_vars_show,
}
use gapso_rbf_pid.Report.VarsRead.{probe_all, vars_read-zeros}
use gapso_rbf_pid.Examples.Binary64.{Binary64, binary64-IsStorable}
use gapso_rbf_pid.Examples.Fifo.{Fifo}
use gapso_rbf_pid.Examples.Inputs.{options, busy}
use gapso_rbf_pid.Examples.Reports.{list_fifo, list_fifo-IsFifo}

-- a controller that has worked
abbrev worked : State ℕ Fifo ℕ
worked = record busy {
  params = record busy.params {
    p_k = 0x3fb9_9999_9999_999a;
    kp_k = 0x3ff0_0000_0000_0000;
    ki_k = 0x3fe0_0000_0000_0000;
    kd_k = 0;
    jacobian = 0xbfb9_9999_9999_999a;
    net_out = 0x3fd0_0000_0000_0000 ∷ [];
    gbest_index = 0;
    e_k = pos 200;
    e_k_1 = negsuc 19;
    e_k_2 = pos 0;
  };
}

abbrev sampled : List (Action × State ℕ Fifo ℕ)
sampled = (dont_mark, worked) ∷ (prob_mark, worked) ∷ []

worked-Fits : (a : Action) → Fits (sample a worked)
unfolding sample Binary64
worked-Fits a = record {
  numbers = omega arith;
  length = omega arith;
  p = omega arith;
  kp = omega arith;
  ki = omega arith;
  kd = omega arith;
  jacobian = omega arith;
  net_out = omega arith;
  e_k = omega arith;
  e_k_1 = omega arith;
  e_k_2 = omega arith;
}

transfer-entries_example :
    transfer 0 (header ++ lines (entries sampled))
    ≡ record { comment = b'#' ∷ header_names; rows = state_rows 19998 0 sampled }
transfer-entries_example =
    transfer-entries binary64-IsStorable sampled 19998 0
      (worked-Fits dont_mark, (worked-Fits prob_mark, omega arith)) (omega arith)

options-FitsOptions : FitsOptions options
unfolding Binary64
options-FitsOptions = record {
  sampl_period = omega arith;
  q_ref = omega arith;
  p_max = omega arith;
  eta_p = omega arith;
  eta_i = omega arith;
  eta_d = omega arith;
  m = omega arith;
  n = omega arith;
  alpha = omega arith;
  eta = omega arith;
}

no_options-FitsOptions : FitsOptions (no_options {D = ℕ})
unfolding Binary64
no_options-FitsOptions = record {
  sampl_period = omega arith;
  q_ref = omega arith;
  p_max = omega arith;
  eta_p = omega arith;
  eta_i = omega arith;
  eta_d = omega arith;
  m = omega arith;
  n = omega arith;
  alpha = omega arith;
  eta = omega arith;
}

read_proc_rbfgrad-shown_text_example :
    read_proc_rbfgrad (some (shown_text (no_options ∷ options ∷ []))) true
    ≡ some (record {
      cells =
          take
            (before_wide (all_numbers (no_options ∷ options ∷ [])))
            (all_shown (no_options ∷ options ∷ []));
      overrun = any is_wide (all_numbers (no_options ∷ options ∷ []));
    })
read_proc_rbfgrad-shown_text_example =
    read_proc_rbfgrad-shown_text binary64-IsStorable (no_options ∷ options ∷ [])
      (no_options-FitsOptions, (options-FitsOptions, omega arith))

-- The limit 0.3 of the probability is longer than the array; the two numbers before it are printed.
options_overrun :
    (any is_wide (all_numbers (options ∷ [])) ≡ true)
    × (before_wide (all_numbers (options ∷ [])) ≡ 2)
unfolding Binary64
options_overrun = (refl, refl)

-- the variables of a controller that has worked
abbrev some_vars : TraceParms ℕ
some_vars = record {
  sampl_period = pos 1;
  q_ref = pos 300;
  p_max = 0x3fd3_3333_3333_3333;
  eta_p = 0x3fb9_9999_9999_999a;
  eta_i = 0x3fb9_9999_9999_999a;
  eta_d = 0x3fb9_9999_9999_999a;
  n = pos 10;
  m = pos 6;
  alpha = 0;
  eta = 0;
  p_k = 0x3fb9_9999_9999_999a;
  p_k_1 = 0x3fb9_9999_9999_999a;
  e_k = 0x3ff0_0000_0000_0000;
  e_k_1 = 0x3fe0_0000_0000_0000;
  e_k_2 = 0x3fd0_0000_0000_0000;
  kp_k = 0x3ff0_0000_0000_0000;
  kp_k_1 = 0x3ff0_0000_0000_0000;
  ki_k = 0x3fe0_0000_0000_0000;
  ki_k_1 = 0x3fe0_0000_0000_0000;
  kd_k = 0;
  kd_k_1 = 0;
}

vars_read-zeros_example :
    ((f' : List (TraceParms ℕ)) × Drain rbfgrad_vars_show
        (rbfgrad_vars_next list_fifo)
        (rbfgrad_vars_start 0)
        0
        (probe_all list_fifo (some_vars ∷ some_vars ∷ []) [])
        (parms_init ∷ [])
        []
        f')
    × (read_proc_rbfgrad_vars {D = ℕ} (some (rbfgrad_vars_show (parms_init {D = ℕ}))) true
        ≡ some (record { cells = replicate 11 (real (num 0)); overrun = false }))
unfolding Binary64
vars_read-zeros_example =
    vars_read-zeros list_fifo list_fifo-IsFifo binary64-IsStorable (some_vars ∷ some_vars ∷ []) []
      refl refl

-- one `cat` that has room for one entry
one_entry :
    (a i n : ℕ)
    → i < a
    → Cat a 0
        (record { queue_array_count = i; count = n })
        (i ∷ [])
        (record { queue_array_count = i + 1; count = 2 })
unfolding l_start l_next
one_entry a i n lt =
    reads i 0 (record { queue_array_count = i; count = n })
      (record { queue_array_count = i; count = 1 }) (i == 0) _ [] 1 _ [] _ (rw (lt→ltb i a lt) refl)
      refl (full (i + 1) 1 _) (ends 1 _ false refl)

-- three `cat`s, with room for one entry in each
three-Cats :
    Cats
      (record { queue_array_count = 7; count = 1 })
      (7 ∷ 8 ∷ 9 ∷ [])
      (record { queue_array_count = 10; count = 2 })
three-Cats = cat 50 _ _ _ _ _ (one_entry 50 7 1 (omega arith)) (
    cat 60 _ _ _ _ _ (one_entry 60 8 2 (omega arith))
      (cat 60 _ _ _ _ _ (one_entry 60 9 2 (omega arith)) (done _)))

Cats-count_up_example : (k : ℕ) × (7 ∷ 8 ∷ 9 ∷ [] ≡ count_up 7 k) × (10 ≡ 7 + k)
Cats-count_up_example =
    Cats-count_up (record { queue_array_count = 7; count = 1 }) (7 ∷ 8 ∷ 9 ∷ [])
      (record { queue_array_count = 10; count = 2 }) three-Cats

Cat-gap_example :
    ((39 < 1) × (has 39 (0 ∷ 40 ∷ []) ≡ true)) ⊎ ((1 ≤ 39) × (has 39 (0 ∷ 40 ∷ []) ≡ false))
Cat-gap_example =
    Cat-gap 100 100 0 39 (0 ∷ []) (40 ∷ []) (record { queue_array_count = 1; count = 2 })
      (record { queue_array_count = 41; count = 2 }) (one_entry 100 0 1 (omega arith))
      (one_entry 100 40 1 (omega arith)) (omega arith) (omega arith)
