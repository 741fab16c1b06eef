-- ===== src/Params.antt =====
-- include/rbfgrad.h: `struct rbfgrad_parms`, the state of the controller, with its constants, and
-- `struct tc_rbfgrad_qopt` of iproute2-3.1.0/include/linux/pkt_sched.h, the options from user space.
-- `int` is ℤ, `u32` is ℕ; an array is a list, whose length `Params.Init` shows to be the source's.
pub mod Init
pub mod Action
pub mod Shape
use gapso_rbf_pid.Prelude.{ℕ, List}
use gapso_rbf_pid.Prelude.Int.{ℤ}

abbrev pub rand_max : ℕ
rand_max = 2147483647

abbrev pub stab_size : ℕ
stab_size = 256

abbrev pub sam_num : ℕ
sam_num = 10

abbrev pub unit_num : ℕ
unit_num = 6

abbrev pub particle_num : ℕ
particle_num = 90

abbrev pub max_epoch : ℕ
max_epoch = 10

pub record Params (D : Type 0) : Type 0 where
  pub sampl_period : ℤ
  pub scell_max : ℕ
  pub scell_log : ℕ
  pub stab : List ℕ
  -- queue control
  pub q_ref : ℤ
  pub p_init : D
  pub p_min : D
  pub p_max : D
  -- PID
  pub eta_p : D
  pub eta_i : D
  pub eta_d : D
  -- RBF
  pub samples : ℤ
  pub n : ℤ
  pub m : ℤ
  pub alpha : D
  pub eta : D
  pub epochs : ℤ
  pub e0 : D
  -- PSO
  pub iw1 : D
  pub iw2 : D
  pub iwe : D
  pub ac1 : D
  pub ac2 : D
  pub mv : D
  pub mwav : D
  pub ergrd : D
  pub ergrdep : D
  -- variables: queue control
  pub p_k : D
  pub p_k_1 : D
  pub e_k : ℤ
  pub e_k_1 : ℤ
  pub e_k_2 : ℤ
  -- variables: PID
  pub kp_k : D
  pub kp_k_1 : D
  pub ki_k : D
  pub ki_k_1 : D
  pub kd_k : D
  pub kd_k_1 : D
  -- variables: RBF
  pub w_k : List D
  pub w_k_1 : List D
  pub w_k_2 : List D
  pub c_k : List (List D)
  pub c_k_1 : List (List D)
  pub c_k_2 : List (List D)
  pub delta_k : List D
  pub delta_k_1 : List D
  pub delta_k_2 : List D
  pub jacobian : D
  pub net_out : List D
  -- variables: PSO
  pub w_pso : List (List D)
  pub position : List (List D)
  pub vel : List (List D)
  pub pbest : List (List D)
  pub pbestval : List D
  pub gbest : List D
  pub gbestval : D
  pub gbest_index : ℕ
  -- variables: history
  pub q_k : ℤ
  pub proba : List D
  pub queue_len : List ℤ
  pub sam_in : List D
  pub sam_out : List D

pub record Qopt (D : Type 0) : Type 0 where
  pub q_ref : ℤ
  pub p_init : D
  pub p_min : D
  pub p_max : D
  pub kp_k : D
  pub ki_k : D
  pub kd_k : D
  pub eta_p : D
  pub eta_i : D
  pub eta_d : D
  pub n : ℤ
  pub m : ℤ
  pub alpha : D
  pub eta : D
  pub sampl_period : ℤ
  pub scell_log : ℕ
  pub limit : ℕ
  pub flags : ℕ
