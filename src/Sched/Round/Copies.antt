-- ===== src/Sched/Round/Copies.antt =====
-- The copies that a call of the controller in modules/sch_rbfgrad.c makes at its start.
use gapso_rbf_pid.Prelude.{◌≡◌, refl}
use gapso_rbf_pid.Params.{Params}
use gapso_rbf_pid.Params.Shape.{IsShaped}
use gapso_rbf_pid.Double.{Double}
use gapso_rbf_pid.Swarm.Frame.{SameControl}
use gapso_rbf_pid.Swarm.Sizes.{IsSized}
use gapso_rbf_pid.Control.Bounds.{HasGains}
use gapso_rbf_pid.Sched.Round.{Locals, with_locals, restore}

module _ {D : Type 0} ⦃d : Double D⦄ where
  pub with_locals-IsShaped : (l : Locals D) (p : Params D) → IsShaped p → IsShaped (with_locals l p)
  unfolding with_locals
  with_locals-IsShaped l p h = record {
    w_k = h.w_k;
    c_k = h.c_k;
    delta_k = h.delta_k;
    proba = h.proba;
    queue_len = h.queue_len;
    sam_in = h.sam_in;
    net_out = h.net_out;
    position = h.position;
    vel = h.vel;
  }

  pub restore-IsShaped : (p q : Params D) → IsShaped q → IsShaped (restore p q)
  unfolding restore
  restore-IsShaped p q h = record {
    w_k = h.w_k;
    c_k = h.c_k;
    delta_k = h.delta_k;
    proba = h.proba;
    queue_len = h.queue_len;
    sam_in = h.sam_in;
    net_out = h.net_out;
    position = h.position;
    vel = h.vel;
  }

  pub restore-SameControl :
      (l : Locals D) (p q : Params D)
      → SameControl (with_locals l p) q
      → SameControl p (restore p q)
  unfolding with_locals restore
  restore-SameControl l p q c = record {
    q_ref = c.q_ref;
    p_init = c.p_init;
    p_min = c.p_min;
    p_max = c.p_max;
    e0 = c.e0;
    p_k = c.p_k;
    p_k_1 = c.p_k_1;
    e_k = c.e_k;
    e_k_1 = c.e_k_1;
    e_k_2 = c.e_k_2;
    kp_k = c.kp_k;
    kp_k_1 = c.kp_k_1;
    ki_k = c.ki_k;
    ki_k_1 = c.ki_k_1;
    kd_k = c.kd_k;
    kd_k_1 = c.kd_k_1;
    c_k = c.c_k;
    delta_k = c.delta_k;
    jacobian = c.jacobian;
    proba = c.proba;
    queue_len = c.queue_len;
    sam_in = c.sam_in;
    eta_p = refl;
    eta_i = refl;
    eta_d = refl;
    mv = refl;
  }

  -- The sizes do not depend on the limit of the velocities.
  resized :
      (m m' : D) (p q : Params D)
      → q.mv ≡ m'
      → q.position ≡ p.position
      → q.vel ≡ p.vel
      → q.pbest ≡ p.pbest
      → q.pbestval ≡ p.pbestval
      → q.net_out ≡ p.net_out
      → q.gbest ≡ p.gbest
      → IsSized m p
      → IsSized m' q
  resized m m' p q limit x v b bv o g z = record {
    limit = limit;
    position = rw x z.position;
    vel = rw v z.vel;
    pbest = rw b z.pbest;
    pbestval = rw bv z.pbestval;
    net_out = rw o z.net_out;
    gbest = rw g z.gbest;
  }

  pub with_locals-IsSized :
      (m : D) (l : Locals D) (p : Params D) → IsSized m p → IsSized l.mv (with_locals l p)
  unfolding with_locals
  with_locals-IsSized m l p z = resized m l.mv p _ refl refl refl refl refl refl refl z

  pub restore-IsSized : (m : D) (p q : Params D) → IsSized m q → IsSized p.mv (restore p q)
  unfolding restore
  restore-IsSized m p q z = resized m p.mv q _ refl refl refl refl refl refl refl z

  pub same_gains :
      (p q : Params D)
      → q.kp_k ≡ p.kp_k
      → q.ki_k ≡ p.ki_k
      → q.kd_k ≡ p.kd_k
      → HasGains p
      → HasGains q
  same_gains p q e e' e'' g = record {
    kp_k = rw e g.kp_k;
    ki_k = rw e' g.ki_k;
    kd_k = rw e'' g.kd_k;
  }
