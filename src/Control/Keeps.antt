-- ===== src/Control/Keeps.antt =====
-- The fields that `rbfgrad_mark_probability` of modules/sch_rbfgrad.c does not write.
use gapso_rbf_pid.Prelude.{ℕ, ◌≡◌, ◌∙◌, refl, inl, inr, Bool-cases}
use gapso_rbf_pid.Double.{Double, ◌≺◌}
use gapso_rbf_pid.Params.{Params}
use gapso_rbf_pid.Swarm.{train}
use gapso_rbf_pid.Swarm.Frame.{SameControl, train-SameControl}
use gapso_rbf_pid.Control.{
  Errors, load_inputs, load_errors, adapt, adapt_if_trained, write_prob, cap_prob, raise_prob,
  set_prob, rbfgrad_mark_probability,
}

module _ {D : Type 0} ⦃d : Double D⦄ where
  -- What the packet path writes, and what the user sets.
  pub record SamePackets (p q : Params D) : Type 0 where
    pub e_k : q.e_k ≡ p.e_k
    pub e_k_1 : q.e_k_1 ≡ p.e_k_1
    pub e_k_2 : q.e_k_2 ≡ p.e_k_2
    pub proba : q.proba ≡ p.proba
    pub queue_len : q.queue_len ≡ p.queue_len
    pub q_ref : q.q_ref ≡ p.q_ref
    pub p_min : q.p_min ≡ p.p_min
    pub p_max : q.p_max ≡ p.p_max
    pub mv : q.mv ≡ p.mv

  SamePackets-trans : (p q r : Params D) → SamePackets p q → SamePackets q r → SamePackets p r
  SamePackets-trans p q r a b = record {
    e_k = b.e_k ∙ a.e_k;
    e_k_1 = b.e_k_1 ∙ a.e_k_1;
    e_k_2 = b.e_k_2 ∙ a.e_k_2;
    proba = b.proba ∙ a.proba;
    queue_len = b.queue_len ∙ a.queue_len;
    q_ref = b.q_ref ∙ a.q_ref;
    p_min = b.p_min ∙ a.p_min;
    p_max = b.p_max ∙ a.p_max;
    mv = b.mv ∙ a.mv;
  }

  same_packets : (p q : Params D) → SameControl p q → SamePackets p q
  same_packets p q h = record {
    e_k = h.e_k;
    e_k_1 = h.e_k_1;
    e_k_2 = h.e_k_2;
    proba = h.proba;
    queue_len = h.queue_len;
    q_ref = h.q_ref;
    p_min = h.p_min;
    p_max = h.p_max;
    mv = h.mv;
  }

  SamePackets-refl : (p : Params D) → SamePackets p p
  SamePackets-refl p = record {
    e_k = refl;
    e_k_1 = refl;
    e_k_2 = refl;
    proba = refl;
    queue_len = refl;
    q_ref = refl;
    p_min = refl;
    p_max = refl;
    mv = refl;
  }

  load_inputs-SamePackets : (p : Params D) → SamePackets p (load_inputs p)
  unfolding load_inputs
  load_inputs-SamePackets p = record {
    e_k = refl;
    e_k_1 = refl;
    e_k_2 = refl;
    proba = refl;
    queue_len = refl;
    q_ref = refl;
    p_min = refl;
    p_max = refl;
    mv = refl;
  }

  adapt-SamePackets : (l : Errors D) (p : Params D) → SamePackets p (adapt l p)
  unfolding adapt
  adapt-SamePackets l p = record {
    e_k = refl;
    e_k_1 = refl;
    e_k_2 = refl;
    proba = refl;
    queue_len = refl;
    q_ref = refl;
    p_min = refl;
    p_max = refl;
    mv = refl;
  }

  set_prob-SamePackets : (l : Errors D) (p : Params D) → SamePackets p (set_prob l p)
  unfolding set_prob raise_prob cap_prob write_prob
  set_prob-SamePackets l p = record {
    e_k = refl;
    e_k_1 = refl;
    e_k_2 = refl;
    proba = refl;
    queue_len = refl;
    q_ref = refl;
    p_min = refl;
    p_max = refl;
    mv = refl;
  }

  adapt_if_trained-SamePackets :
      (l : Errors D) (p : Params D) → SamePackets p (adapt_if_trained l p)
  unfolding adapt_if_trained
  adapt_if_trained-SamePackets l p = elim (Bool-cases (p.gbestval ≺ p.e0)) [
    | inl e ↦ rw e (adapt-SamePackets l p)
    | inr e ↦ rw e (SamePackets-refl p)
  ]

  module _ (draw : ℕ → ℕ) where
    -- the state of the controller after one call
    abbrev pub controlled : Params D → ℕ → Params D
    controlled p k = (rbfgrad_mark_probability draw p k).0

    abbrev pub trained : Params D → ℕ → Params D
    trained p k = (train draw (load_inputs p) k).params

    pub before_prob-SamePackets :
        (p : Params D) (k : ℕ) → SamePackets p (adapt_if_trained (load_errors p) (trained p k))
    before_prob-SamePackets p k =
        let t = trained p k in
        SamePackets-trans p (load_inputs p) _ (load_inputs-SamePackets p) (
          SamePackets-trans (load_inputs p) t _
            (same_packets (load_inputs p) t (train-SameControl draw (load_inputs p) k))
            (adapt_if_trained-SamePackets (load_errors p) t))

    -- The controller writes none of the fields that the packet path writes, nor the limits of the
    -- probability and the reference length, nor the limit of the velocities.
    pub mark_probability-SamePackets : (p : Params D) (k : ℕ) → SamePackets p (controlled p k)
    unfolding rbfgrad_mark_probability
    mark_probability-SamePackets p k =
        let l = load_errors p in
        SamePackets-trans p (adapt_if_trained l (trained p k)) _ (before_prob-SamePackets p k)
          (set_prob-SamePackets l (adapt_if_trained l (trained p k)))
