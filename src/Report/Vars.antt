-- ===== src/Report/Vars.antt =====
-- modules/tracepoint-probe-rbfgrad-vars.c with `struct trace_rbfgrad_parms` of
-- modules/tp-rbfgrad-vars-trace.h: the /proc file of the controller's variables.
use gapso_rbf_pid.Prelude.{ℕ, List, [], ◌∷◌, Option, none, some, ◌==◌, if◌then◌else◌}
use gapso_rbf_pid.Prelude.Int.{ℤ, pos}
use gapso_rbf_pid.Double.{Double, num}
use gapso_rbf_pid.Report.Text.{each_with, print_long}
use gapso_rbf_pid.Report.Probe.{Kfifo, take_next}

-- `struct trace_rbfgrad_parms`, where the errors are doubles
pub record TraceParms (D : Type 0) : Type 0 where
  pub sampl_period : ℤ
  pub q_ref : ℤ
  pub p_max : D
  pub eta_p : D
  pub eta_i : D
  pub eta_d : D
  pub n : ℤ
  pub m : ℤ
  pub alpha : D
  pub eta : D
  pub p_k : D
  pub p_k_1 : D
  pub e_k : D
  pub e_k_1 : D
  pub e_k_2 : D
  pub kp_k : D
  pub kp_k_1 : D
  pub ki_k : D
  pub ki_k_1 : D
  pub kd_k : D
  pub kd_k_1 : D

module _ {D : Type 0} ⦃d : Double D⦄ where
  open d use {bits}

  unfoldable pub parms_init : TraceParms D
  parms_init = record {
    sampl_period = pos 0;
    q_ref = pos 0;
    p_max = num 0;
    eta_p = num 0;
    eta_i = num 0;
    eta_d = num 0;
    n = pos 0;
    m = pos 0;
    alpha = num 0;
    eta = num 0;
    p_k = num 0;
    p_k_1 = num 0;
    e_k = num 0;
    e_k_1 = num 0;
    e_k_2 = num 0;
    kp_k = num 0;
    kp_k_1 = num 0;
    ki_k = num 0;
    ki_k_1 = num 0;
    kd_k = num 0;
    kd_k_1 = num 0;
  }

  unfoldable pub rbfgrad_vars_start : ℕ → Option (TraceParms D)
  rbfgrad_vars_start index = if index == 0 then some parms_init else none

  -- the eleven lines of a record
  unfoldable pub rbfgrad_vars_show : TraceParms D → List ℕ
  rbfgrad_vars_show t = each_with b'\n' (
      print_long (bits t.p_k)
      ∷ print_long (bits t.p_k_1)
      ∷ print_long (bits t.e_k)
      ∷ print_long (bits t.e_k_1)
      ∷ print_long (bits t.e_k_1)
      ∷ print_long (bits t.kp_k)
      ∷ print_long (bits t.kp_k_1)
      ∷ print_long (bits t.ki_k)
      ∷ print_long (bits t.ki_k_1)
      ∷ print_long (bits t.kd_k)
      ∷ print_long (bits t.kd_k_1)
      ∷ [])

module _ {D F : Type 0} (k : Kfifo (TraceParms D) F) where
  -- the body is commented out
  unfoldable pub probe_rbfgrad_vars_output : TraceParms D → F → F
  probe_rbfgrad_vars_output parms f = f

  -- the record after this one, the new `*pos` and the queue
  unfoldable pub rbfgrad_vars_next : ℕ → F → Option (TraceParms D) × ℕ × F
  unfolding take_next
  rbfgrad_vars_next index f = take_next k index f
