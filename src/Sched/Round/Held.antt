-- ===== src/Sched/Round/Held.antt =====
-- What holds of the parameters in each phase of a call of the controller in modules/sch_rbfgrad.c.
use gapso_rbf_pid.Prelude.{
  ℕ, ◌≡◌, sym, refl, List, Bool, true, false, if◌then◌else◌, Bool-cases, inl, inr, length,
}
use mathlib.Core.Path.{subst}
use gapso_rbf_pid.Double.{Double, ◌≺◌}
use gapso_rbf_pid.Params.{Params, Qopt, unit_num}
use gapso_rbf_pid.Params.Init.{rbfgrad_set_parms}
use gapso_rbf_pid.Params.Shape.{IsShaped, set_parms-IsShaped}
use gapso_rbf_pid.Swarm.Frame.{SameControl}
use gapso_rbf_pid.Swarm.Sizes.{IsSized}
use gapso_rbf_pid.Control.{Errors, adapt, adapt_if_trained}
use gapso_rbf_pid.Control.Bounds.{Between, NotNegative, HasGains}
use gapso_rbf_pid.Control.Sizes.{searched-IsShaped}
use gapso_rbf_pid.Sched.Packets.{update_history}
use gapso_rbf_pid.Sched.Limits.{
  IsControlled, IsSensible, set_parms-IsControlled, update_history-IsShaped,
}
use gapso_rbf_pid.Sched.Round.{
  Locals, Phase, idle, loaded, searching, trained, adapted, written, capped,
}

module _ {D : Type 0} ⦃d : Double D⦄ where
  -- The probability, and in the search the arrays that the search uses.
  abbrev pub InPhase : Phase D → Params D → Type 0
  InPhase idle p = Between p.p_min p.p_max p.p_k
  InPhase (loaded l) p = Between p.p_min p.p_max p.p_k
  InPhase (searching l index i) p = Between p.p_min p.p_max p.p_k × IsSized p.mv p
  InPhase (trained l) p = Between p.p_min p.p_max p.p_k
  InPhase (adapted l) p = Between p.p_min p.p_max p.p_k
  InPhase written p = Unit
  InPhase capped p = (p.p_max ≺ p.p_k) ≡ false

  pub record Held (phase : Phase D) (p : Params D) : Type 0 where
    pub shape : IsShaped p
    pub limits : (p.p_max ≺ p.p_min) ≡ false
    pub gains : HasGains p
    pub prob : InPhase phase p

  pub controlled-Held : (p : Params D) → IsControlled p → Held idle p
  controlled-Held p h = record {
    shape = h.shape;
    limits = h.limits;
    gains = h.gains;
    prob = h.prob;
  }

  history-InPhase :
      (phase : Phase D) (n : ℕ) (p : Params D)
      → InPhase phase p
      → InPhase phase (update_history n p)
  unfolding update_history
  history-InPhase idle n p h = h
  history-InPhase (loaded l) n p h = h
  history-InPhase (searching l index i) n p (h, z) = (
    h,
    record {
      limit = z.limit;
      position = z.position;
      vel = z.vel;
      pbest = z.pbest;
      pbestval = z.pbestval;
      net_out = z.net_out;
      gbest = z.gbest;
    },
  )
  history-InPhase (trained l) n p h = h
  history-InPhase (adapted l) n p h = h
  history-InPhase written n p h = h
  history-InPhase capped n p h = h

  update_history-Held :
      (phase : Phase D) (n : ℕ) (p : Params D) → Held phase p → Held phase (update_history n p)
  update_history-Held phase n p h = record {
    shape = update_history-IsShaped n p h.shape;
    limits = unfold update_history in h.limits;
    gains =
        unfold update_history in
        record { kp_k = h.gains.kp_k; ki_k = h.gains.ki_k; kd_k = h.gains.kd_k };
    prob = history-InPhase phase n p h.prob;
  }

  -- A sample keeps it in every phase.
  pub sampled-Held :
      (phase : Phase D) (b : Bool) (n : ℕ) (p : Params D)
      → Held phase p
      → Held phase (if b then update_history n p else p)
  sampled-Held phase true n p h = update_history-Held phase n p h
  sampled-Held phase false n p h = h

  -- a part of the search
  pub searched-Held :
      (l : Locals D) (index i : ℕ) (p q : Params D)
      → SameControl p q
      → q.w_k ≡ p.w_k
      → IsSized p.mv q
      → IsShaped p
      → (p.p_max ≺ p.p_min) ≡ false
      → HasGains p
      → Between p.p_min p.p_max p.p_k
      → Held (searching l index i) q
  searched-Held l index i p q c e z h lim g between = record {
    shape = searched-IsShaped p.mv p q c (subst (λ w. length w ≡ unit_num) (sym e) h.w_k) z h;
    limits = rw (c.p_max, c.p_min) lim;
    gains = record {
      kp_k = subst NotNegative (sym c.kp_k) g.kp_k;
      ki_k = subst NotNegative (sym c.ki_k) g.ki_k;
      kd_k = subst NotNegative (sym c.kd_k) g.kd_k;
    };
    prob = (rw (c.p_max, c.p_min, c.p_k) between, subst (λ m. IsSized m q) (sym c.mv) z);
  }

  pub adapt_if_trained-prob :
      (l : Errors D) (p : Params D)
      → ((adapt_if_trained l p).p_k ≡ p.p_k)
        × ((adapt_if_trained l p).p_min ≡ p.p_min)
        × ((adapt_if_trained l p).p_max ≡ p.p_max)
  unfolding adapt_if_trained adapt
  adapt_if_trained-prob l p = elim (Bool-cases (p.gbestval ≺ p.e0)) [
    | inl e ↦ rw e (refl, refl, refl)
    | inr e ↦ rw e (refl, refl, refl)
  ]

  set_parms-InPhase :
      (draw : ℕ → ℕ) (phase : Phase D) (p : Params D) (ctl : Qopt D) (table : List ℕ) (k : ℕ)
      → IsSensible ctl
      → InPhase phase p
      → InPhase phase (rbfgrad_set_parms draw p ctl table k)
  unfolding rbfgrad_set_parms
  set_parms-InPhase draw idle p ctl table k h i = h.start
  set_parms-InPhase draw (loaded l) p ctl table k h i = h.start
  set_parms-InPhase draw (searching l index n) p ctl table k h i =
      let shape = set_parms-IsShaped draw p ctl table k in
      (
        h.start,
        record {
          limit = refl;
          position = shape.position;
          vel = shape.vel;
          pbest = i.1.pbest;
          pbestval = i.1.pbestval;
          net_out = shape.net_out;
          gbest = i.1.gbest;
        },
      )
  set_parms-InPhase draw (trained l) p ctl table k h i = h.start
  set_parms-InPhase draw (adapted l) p ctl table k h i = h.start
  set_parms-InPhase draw written p ctl table k h i = tt
  set_parms-InPhase draw capped p ctl table k h i = h.start.0

  -- So do sensible options, whenever they are set.
  pub set_parms-Held :
      (draw : ℕ → ℕ) (phase : Phase D) (p : Params D) (ctl : Qopt D) (table : List ℕ) (k : ℕ)
      → IsSensible ctl
      → Held phase p
      → Held phase (rbfgrad_set_parms draw p ctl table k)
  set_parms-Held draw phase p ctl table k h i =
      let c = set_parms-IsControlled draw p ctl table k h in
      record {
        shape = c.shape;
        limits = c.limits;
        gains = c.gains;
        prob = set_parms-InPhase draw phase p ctl table k h i.prob;
      }
