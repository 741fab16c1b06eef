-- ===== src/Swarm/Frame.antt =====
-- The fields that the search of `rbfgrad_mark_probability` does not write.
use gapso_rbf_pid.Prelude.{ℕ, zero, suc, ◌≡◌, ◌∙◌, refl}
use gapso_rbf_pid.Double.{Double}
use gapso_rbf_pid.Params.{Params}
use gapso_rbf_pid.Swarm.{
  Search, update_gbest, update_pbest, start_search, move_particles, epoch, epochs, train,
}

pub record SameControl {D : Type 0} (p q : Params D) : Type 0 where
  pub q_ref : q.q_ref ≡ p.q_ref
  pub p_init : q.p_init ≡ p.p_init
  pub p_min : q.p_min ≡ p.p_min
  pub p_max : q.p_max ≡ p.p_max
  pub eta_p : q.eta_p ≡ p.eta_p
  pub eta_i : q.eta_i ≡ p.eta_i
  pub eta_d : q.eta_d ≡ p.eta_d
  pub e0 : q.e0 ≡ p.e0
  pub mv : q.mv ≡ p.mv
  pub p_k : q.p_k ≡ p.p_k
  pub p_k_1 : q.p_k_1 ≡ p.p_k_1
  pub e_k : q.e_k ≡ p.e_k
  pub e_k_1 : q.e_k_1 ≡ p.e_k_1
  pub e_k_2 : q.e_k_2 ≡ p.e_k_2
  pub kp_k : q.kp_k ≡ p.kp_k
  pub kp_k_1 : q.kp_k_1 ≡ p.kp_k_1
  pub ki_k : q.ki_k ≡ p.ki_k
  pub ki_k_1 : q.ki_k_1 ≡ p.ki_k_1
  pub kd_k : q.kd_k ≡ p.kd_k
  pub kd_k_1 : q.kd_k_1 ≡ p.kd_k_1
  pub c_k : q.c_k ≡ p.c_k
  pub delta_k : q.delta_k ≡ p.delta_k
  pub jacobian : q.jacobian ≡ p.jacobian
  pub proba : q.proba ≡ p.proba
  pub queue_len : q.queue_len ≡ p.queue_len
  pub sam_in : q.sam_in ≡ p.sam_in

SameControl-trans :
    {D : Type 0} (p q r : Params D) → SameControl p q → SameControl q r → SameControl p r
SameControl-trans p q r a b = record {
  q_ref = b.q_ref ∙ a.q_ref;
  p_init = b.p_init ∙ a.p_init;
  p_min = b.p_min ∙ a.p_min;
  p_max = b.p_max ∙ a.p_max;
  eta_p = b.eta_p ∙ a.eta_p;
  eta_i = b.eta_i ∙ a.eta_i;
  eta_d = b.eta_d ∙ a.eta_d;
  e0 = b.e0 ∙ a.e0;
  mv = b.mv ∙ a.mv;
  p_k = b.p_k ∙ a.p_k;
  p_k_1 = b.p_k_1 ∙ a.p_k_1;
  e_k = b.e_k ∙ a.e_k;
  e_k_1 = b.e_k_1 ∙ a.e_k_1;
  e_k_2 = b.e_k_2 ∙ a.e_k_2;
  kp_k = b.kp_k ∙ a.kp_k;
  kp_k_1 = b.kp_k_1 ∙ a.kp_k_1;
  ki_k = b.ki_k ∙ a.ki_k;
  ki_k_1 = b.ki_k_1 ∙ a.ki_k_1;
  kd_k = b.kd_k ∙ a.kd_k;
  kd_k_1 = b.kd_k_1 ∙ a.kd_k_1;
  c_k = b.c_k ∙ a.c_k;
  delta_k = b.delta_k ∙ a.delta_k;
  jacobian = b.jacobian ∙ a.jacobian;
  proba = b.proba ∙ a.proba;
  queue_len = b.queue_len ∙ a.queue_len;
  sam_in = b.sam_in ∙ a.sam_in;
}

module _ {D : Type 0} ⦃d : Double D⦄ where
  pub start_search-SameControl : (p : Params D) (k : ℕ) → SameControl p (start_search p k).params
  unfolding start_search update_gbest
  start_search-SameControl p k = record {
    q_ref = refl;
    p_init = refl;
    p_min = refl;
    p_max = refl;
    eta_p = refl;
    eta_i = refl;
    eta_d = refl;
    e0 = refl;
    mv = refl;
    p_k = refl;
    p_k_1 = refl;
    e_k = refl;
    e_k_1 = refl;
    e_k_2 = refl;
    kp_k = refl;
    kp_k_1 = refl;
    ki_k = refl;
    ki_k_1 = refl;
    kd_k = refl;
    kd_k_1 = refl;
    c_k = refl;
    delta_k = refl;
    jacobian = refl;
    proba = refl;
    queue_len = refl;
    sam_in = refl;
  }

  module _ (draw : ℕ → ℕ) where
    pub epoch-SameControl : (i : ℕ) (s : Search D) → SameControl s.params (epoch draw i s).params
    unfolding epoch move_particles update_gbest update_pbest
    epoch-SameControl i s = record {
      q_ref = refl;
      p_init = refl;
      p_min = refl;
      p_max = refl;
      eta_p = refl;
      eta_i = refl;
      eta_d = refl;
      e0 = refl;
      mv = refl;
      p_k = refl;
      p_k_1 = refl;
      e_k = refl;
      e_k_1 = refl;
      e_k_2 = refl;
      kp_k = refl;
      kp_k_1 = refl;
      ki_k = refl;
      ki_k_1 = refl;
      kd_k = refl;
      kd_k_1 = refl;
      c_k = refl;
      delta_k = refl;
      jacobian = refl;
      proba = refl;
      queue_len = refl;
      sam_in = refl;
    }

    epochs-SameControl :
        (n i : ℕ) (s : Search D) → SameControl s.params (epochs draw (suc n) i s).params
    unfolding epochs
    epochs-SameControl zero i s = epoch-SameControl i s
    epochs-SameControl (suc n) i s =
        SameControl-trans s.params (epoch draw i s).params _ (epoch-SameControl i s)
          (epochs-SameControl n (suc i) (epoch draw i s))

    pub train-SameControl : (p : Params D) (k : ℕ) → SameControl p (train draw p k).params
    unfolding train
    train-SameControl p k =
        let t =
          SameControl-trans p (start_search p k).params _ (start_search-SameControl p k)
            (epochs-SameControl 9 0 (start_search p k)) in
        record {
          q_ref = t.q_ref;
          p_init = t.p_init;
          p_min = t.p_min;
          p_max = t.p_max;
          eta_p = t.eta_p;
          eta_i = t.eta_i;
          eta_d = t.eta_d;
          e0 = t.e0;
          mv = t.mv;
          p_k = t.p_k;
          p_k_1 = t.p_k_1;
          e_k = t.e_k;
          e_k_1 = t.e_k_1;
          e_k_2 = t.e_k_2;
          kp_k = t.kp_k;
          kp_k_1 = t.kp_k_1;
          ki_k = t.ki_k;
          ki_k_1 = t.ki_k_1;
          kd_k = t.kd_k;
          kd_k_1 = t.kd_k_1;
          c_k = t.c_k;
          delta_k = t.delta_k;
          jacobian = t.jacobian;
          proba = t.proba;
          queue_len = t.queue_len;
          sam_in = t.sam_in;
        }
