-- ===== src/Examples/Inputs.antt =====
-- The inputs of the examples.
use gapso_rbf_pid.Prelude.{ℕ, ◌+◌, ◌*◌, List, [], ◌∷◌, true, false, replicate}
use gapso_rbf_pid.Prelude.Int.{pos}
use gapso_rbf_pid.Params.{Params, Qopt}
use gapso_rbf_pid.Params.Init.{rbfgrad_set_parms}
use gapso_rbf_pid.Params.Action.{dont_mark}
use gapso_rbf_pid.Sched.{State, QueueShow}
use gapso_rbf_pid.Examples.Binary64.{Binary64}
use gapso_rbf_pid.Examples.Fifo.{Fifo}

abbrev pub draws : ℕ → ℕ
draws k = k * 2654435761 + 12345

-- what the kernel allocates: all zero
abbrev pub blank : Params ℕ
blank = record {
  sampl_period = pos 0;
  scell_max = 0;
  scell_log = 0;
  stab = [];
  q_ref = pos 0;
  p_init = 0;
  p_min = 0;
  p_max = 0;
  eta_p = 0;
  eta_i = 0;
  eta_d = 0;
  samples = pos 0;
  n = pos 0;
  m = pos 0;
  alpha = 0;
  eta = 0;
  epochs = pos 0;
  e0 = 0;
  iw1 = 0;
  iw2 = 0;
  iwe = 0;
  ac1 = 0;
  ac2 = 0;
  mv = 0;
  mwav = 0;
  ergrd = 0;
  ergrdep = 0;
  p_k = 0;
  p_k_1 = 0;
  e_k = pos 0;
  e_k_1 = pos 0;
  e_k_2 = pos 0;
  kp_k = 0;
  kp_k_1 = 0;
  ki_k = 0;
  ki_k_1 = 0;
  kd_k = 0;
  kd_k_1 = 0;
  w_k = [];
  w_k_1 = [];
  w_k_2 = [];
  c_k = [];
  c_k_1 = [];
  c_k_2 = [];
  delta_k = [];
  delta_k_1 = [];
  delta_k_2 = [];
  jacobian = 0;
  net_out = [];
  w_pso = [];
  position = [];
  vel = [];
  pbest = [];
  pbestval = [];
  gbest = [];
  gbestval = 0;
  gbest_index = 0;
  q_k = pos 0;
  proba = [];
  queue_len = [];
  sam_in = [];
  sam_out = [];
}

-- q_ref 300, p_init 0.1, p_max 0.3, the coefficients 1, 0.5 and 0, ECN on
abbrev pub options : Qopt ℕ
options = record {
  q_ref = pos 300;
  p_init = 0x3fb9_9999_9999_999a;
  p_min = 0;
  p_max = 0x3fd3_3333_3333_3333;
  kp_k = 0x3ff0_0000_0000_0000;
  ki_k = 0x3fe0_0000_0000_0000;
  kd_k = 0;
  eta_p = 0x3fb9_9999_9999_999a;
  eta_i = 0x3fb9_9999_9999_999a;
  eta_d = 0x3fb9_9999_9999_999a;
  n = pos 10;
  m = pos 6;
  alpha = 0;
  eta = 0;
  sampl_period = pos 1;
  scell_log = 4;
  limit = 6000;
  flags = 1;
}

abbrev pub table : List ℕ
table = replicate 256 7

abbrev pub configured : Params ℕ
configured = rbfgrad_set_parms draws blank options table 0

-- a network with two hidden units and two particles
abbrev pub small : Params ℕ
small = record blank {
  e0 = 0x3eb0_c6f7_a0b5_ed8d;
  mv = 0x3f84_7ae1_47ae_147b;
  kp_k = 0x3ff0_0000_0000_0000;
  proba = 0x3fe0_0000_0000_0000 ∷ [];
  queue_len = pos 650 ∷ [];
  sam_in = 0x3fe0_0000_0000_0000 ∷ 0 ∷ [];
  c_k = (0 ∷ 0 ∷ []) ∷ (0 ∷ 0 ∷ []) ∷ [];
  delta_k = 0x3ff0_0000_0000_0000 ∷ 0x3ff0_0000_0000_0000 ∷ [];
  position = (0x3fe0_0000_0000_0000 ∷ 0 ∷ []) ∷ (0 ∷ 0x3fd0_0000_0000_0000 ∷ []) ∷ [];
  vel = (0 ∷ 0 ∷ []) ∷ (0 ∷ 0 ∷ []) ∷ [];
}

abbrev pub no_show : QueueShow
no_show = record {
  numbers = 0;
  length = 0;
  mark_type = dont_mark;
  jacobian = 0;
  net_out = 0;
  p = 0;
  kp = 0;
  ki = 0;
  kd = 0;
  e_k = pos 0;
  e_k_1 = pos 0;
  e_k_2 = pos 0;
}

abbrev pub allocated : State ℕ Fifo ℕ
allocated = record {
  qlen = 0;
  backlog = 0;
  drops = 0;
  overlimits = 0;
  bstats = 0;
  limit = 0;
  flags = 0;
  params = blank;
  stats = record {
    prob_drop = 0;
    prob_mark = 0;
    forced_drop = 0;
    forced_mark = 0;
    pdrop = 0;
    other = 0;
  };
  qdisc = record { limit = 0; packets = [] };
  cyc_count = 0;
  prob_number = 0;
  pkg_number = 0;
  array_element = 0;
  queue_show = λ j. no_show;
  prob_thread = false;
  stop_thread = false;
  fpu = pos 0;
  drawn = 0;
}

-- two packets wait, and 18 were seen since the last sample
abbrev pub busy : State ℕ Fifo ℕ
busy = record allocated {
  qlen = 2;
  backlog = 150;
  limit = 6000;
  flags = 1;
  params = configured;
  qdisc = record { limit = 6000; packets = 99 ∷ 49 ∷ [] };
  cyc_count = 18;
  array_element = 5;
  prob_thread = true;
  stop_thread = true;
}
