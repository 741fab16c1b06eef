-- ===== src/Params/Init.antt =====
-- include/rbfgrad.h: `rand_my`, `rbfgrad_set_parms` and `rbfgrad_restart`. `draw` is the kernel's
-- generator: the k-th call of `random32` since the module was loaded returns `draw k`, a u32.
use gapso_rbf_pid.Prelude.{ℕ, zero, suc, ◌+◌, ◌*◌, ◌^◌, ◌%◌, List, [], ◌∷◌, u32, replicate, take}
use gapso_rbf_pid.Prelude.Int.{pos, negsuc, sub_ℕ}
use gapso_rbf_pid.Double.{Double, ◌⊕◌, ◌⊖◌, ◌⊗◌, ◌⊘◌, num}
use gapso_rbf_pid.Params.{
  Params, Qopt, rand_max, stab_size, sam_num, unit_num, particle_num, max_epoch,
}

module _ {D : Type 0} ⦃d : Double D⦄ where
  open d use {of_int, neg, dec}

  -- (RAND_MAX+1.0)
  abbrev pub rand_span : D
  rand_span = num rand_max ⊕ dec 1 0

  -- rand_my(-1,1), whose product is one of two 32-bit integers
  unfoldable pub rand_unit : ℕ → D
  rand_unit r = num (u32 (2 * r)) ⊘ rand_span ⊕ of_int (negsuc 0)

  -- rand_my(-x,x) with `x` a double
  unfoldable pub rand_around : D → ℕ → D
  rand_around x r = (x ⊖ neg x) ⊗ num r ⊘ rand_span ⊕ neg x

-- `n` values, of the draws number k, k + stride, ...
unfoldable pub drawn {ℓ} : {A : Type ℓ} → (ℕ → A) → ℕ → ℕ → ℕ → List A
drawn f stride zero k = []
drawn f stride (suc n) k = f k ∷ drawn f stride n (k + stride)

-- The k-th call of random32()
abbrev pub random32 : (ℕ → ℕ) → ℕ → ℕ
random32 draw k = u32 (draw k)

-- The draws of one `rbfgrad_set_parms`: 12 for the weights, 6 for the first particle and 12 for
-- each other one.
abbrev pub set_parms_draws : ℕ
set_parms_draws = 1086

module _ {D : Type 0} ⦃d : Double D⦄ (draw : ℕ → ℕ) where
  open d use {of_int, dec}

  abbrev pub weight : ℕ → D
  weight k = rand_unit (random32 draw k)

  abbrev pub speed : ℕ → D
  speed k = rand_around (dec 1 2) (random32 draw k)

  abbrev pub place : ℕ → D
  place k = rand_around (dec 10 1) (random32 draw k)

  -- `n` rows for the particles from number 1 on; each column draws a position and then a speed.
  unfoldable pub particle_rows : (ℕ → D) → ℕ → ℕ → List (List D)
  particle_rows f zero k = []
  particle_rows f (suc n) k = drawn f 2 unit_num k ∷ particle_rows f n (k + 12)

  -- c_k_1[i][j], from row i on
  unfoldable pub center_rows : ℕ → ℕ → List (List D)
  center_rows zero i = []
  center_rows (suc n) i =
      let e_max = num 1 in
      let e_min = of_int (negsuc 0) in
      replicate sam_num (e_min ⊕ of_int (sub_ℕ i 1) ⊗ (e_max ⊖ e_min) ⊗ num 5)
      ∷ center_rows n (i + 1)

  -- `rbfgrad_set_parms`, from draw `k` on; the fields that it does not write keep their values.
  unfoldable pub rbfgrad_set_parms : Params D → Qopt D → List ℕ → ℕ → Params D
  rbfgrad_set_parms p ctl table k = record p {
    sampl_period = ctl.sampl_period;
    q_ref = ctl.q_ref;
    p_init = ctl.p_init;
    p_min = ctl.p_min;
    p_max = ctl.p_max;
    eta_p = ctl.eta_p;
    eta_i = ctl.eta_i;
    eta_d = ctl.eta_d;
    samples = pos 10;
    n = ctl.n;
    m = ctl.m;
    alpha = ctl.alpha;
    eta = ctl.eta;
    epochs = pos 1;
    e0 = dec 1 6;
    p_k = ctl.p_init;
    kp_k = ctl.kp_k;
    ki_k = ctl.ki_k;
    kd_k = ctl.kd_k;
    w_k = drawn weight 2 unit_num k;
    w_k_1 = drawn weight 2 unit_num (k + 1);
    c_k = replicate unit_num (replicate sam_num (num 0));
    c_k_1 = center_rows unit_num 0;
    delta_k = replicate unit_num (num 40);
    delta_k_1 = replicate unit_num (num 40);
    proba = replicate sam_num ctl.p_init;
    queue_len = replicate sam_num (pos 0);
    sam_in = replicate sam_num (num 0);
    sam_out = replicate sam_num (num 0);
    net_out = replicate particle_num (num 0);
    e_k = pos 0;
    e_k_1 = pos 0;
    e_k_2 = pos 0;
    iw1 = dec 9 1;
    iw2 = dec 2 1;
    iwe = num max_epoch ⊗ dec 30 1 ⊘ num 4;
    ac1 = num 2;
    ac2 = num 2;
    mv = dec 1 2;
    mwav = dec 10 1;
    ergrd = dec 1 9;
    ergrdep = num max_epoch ⊘ dec 200 1;
    position = drawn weight 2 unit_num k ∷ particle_rows place 89 (k + 18);
    vel = drawn speed 1 unit_num (k + 12) ∷ particle_rows speed 89 (k + 19);
    gbestval = num 0;
    gbest_index = 0;
    scell_log = ctl.scell_log;
    scell_max = u32 (255 * 2 ^ (ctl.scell_log % 32));
    stab = take stab_size table;
  }

-- `rbfgrad_restart`, whose body is empty
unfoldable pub rbfgrad_restart : {D : Type 0} → Params D → Params D
rbfgrad_restart p = p
