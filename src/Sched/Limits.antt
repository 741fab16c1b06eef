-- ===== src/Sched/Limits.antt =====
-- The controller's parameters under the operations of modules/sch_rbfgrad.c that write them.
use gapso_rbf_pid.Prelude.{
  ℕ, suc, ◌≡◌, ◌∙◌, sym, refl, ap, List, [], ◌∷◌, Bool, true, false, Option, none, some, inl, inr,
  if◌then◌else◌, length,
}
use mathlib.Core.Path.{subst₂}
use gapso_rbf_pid.Double.{Double, IsOrdered, ◌≺◌}
use gapso_rbf_pid.Params.{Params, Qopt}
use gapso_rbf_pid.Params.Init.{rbfgrad_set_parms}
use gapso_rbf_pid.Params.Shape.{IsShaped, set_parms-IsShaped}
use gapso_rbf_pid.Control.Keeps.{controlled, mark_probability-SamePackets}
use gapso_rbf_pid.Control.Bounds.{Between, NotNegative, HasGains, mark_probability-bounds}
use gapso_rbf_pid.Control.Sizes.{mark_probability-IsShaped}
use gapso_rbf_pid.Sched.Packets.{shift, update_history}
use gapso_rbf_pid.Sched.Admin.{Options}

module _ {D : Type 0} ⦃d : Double D⦄ where
  -- What the source leaves to the user: limits in order, a first probability between them, and
  -- coefficients that are not negative.
  pub record IsSensible (ctl : Qopt D) : Type 0 where
    pub limits : (ctl.p_max ≺ ctl.p_min) ≡ false
    pub start : Between ctl.p_min ctl.p_max ctl.p_init
    pub kp_k : NotNegative ctl.kp_k
    pub ki_k : NotNegative ctl.ki_k
    pub kd_k : NotNegative ctl.kd_k

  abbrev pub OnParms : (Qopt D → Type 0) → Option (Qopt D) → Type 0
  OnParms P none = Unit
  OnParms P (some ctl) = P ctl

  abbrev pub AllSensible : Options D → Type 0
  AllSensible none = Unit
  AllSensible (some (inl e)) = Unit
  AllSensible (some (inr tb)) = OnParms IsSensible tb.parms

  -- The controller's part of the invariant.
  pub record IsControlled (p : Params D) : Type 0 where
    pub shape : IsShaped p
    pub limits : (p.p_max ≺ p.p_min) ≡ false
    pub prob : Between p.p_min p.p_max p.p_k
    pub gains : HasGains p

  pub set_parms-IsControlled :
      (draw : ℕ → ℕ) (p : Params D) (ctl : Qopt D) (table : List ℕ) (k : ℕ)
      → IsSensible ctl
      → IsControlled (rbfgrad_set_parms draw p ctl table k)
  unfolding rbfgrad_set_parms
  set_parms-IsControlled draw p ctl table k h = record {
    shape = set_parms-IsShaped draw p ctl table k;
    limits = h.limits;
    prob = h.start;
    gains = record { kp_k = h.kp_k; ki_k = h.ki_k; kd_k = h.kd_k };
  }

length-shift {ℓ} : {A : Type ℓ} (x : A) (ys : List A) → length (shift x ys) ≡ length ys
unfolding shift
length-shift x [] = refl
length-shift x (y ∷ ys) = ap suc (length-shift y ys)

module _ {D : Type 0} ⦃d : Double D⦄ where
  pub update_history-IsShaped : (n : ℕ) (p : Params D) → IsShaped p → IsShaped (update_history n p)
  unfolding update_history
  update_history-IsShaped n p h = record {
    w_k = h.w_k;
    c_k = h.c_k;
    delta_k = h.delta_k;
    proba = length-shift p.p_k_1 p.proba ∙ h.proba;
    queue_len = length-shift _ p.queue_len ∙ h.queue_len;
    sam_in = h.sam_in;
    net_out = h.net_out;
    position = h.position;
    vel = h.vel;
  }

  update_history-IsControlled :
      (n : ℕ) (p : Params D) → IsControlled p → IsControlled (update_history n p)
  unfolding update_history
  update_history-IsControlled n p h = record {
    shape = update_history-IsShaped n p h.shape;
    limits = h.limits;
    prob = h.prob;
    gains = record { kp_k = h.gains.kp_k; ki_k = h.gains.ki_k; kd_k = h.gains.kd_k };
  }

  pub sampled-IsControlled :
      (b : Bool) (n : ℕ) (p : Params D)
      → IsControlled p
      → IsControlled (if b then update_history n p else p)
  sampled-IsControlled true n p h = update_history-IsControlled n p h
  sampled-IsControlled false n p h = h

  pub controlled-IsControlled :
      (laws : IsOrdered D) (draw : ℕ → ℕ) (p : Params D) (k : ℕ)
      → IsControlled p
      → IsControlled (controlled draw p k)
  controlled-IsControlled laws draw p k h =
      let (prob, gains) = mark_probability-bounds draw laws p k h.limits h.gains in
      let same = mark_probability-SamePackets draw p k in
      record {
        shape = mark_probability-IsShaped draw p k h.shape;
        limits = subst₂ (λ lo hi. (hi ≺ lo) ≡ false) (sym same.p_min) (sym same.p_max) h.limits;
        prob =
            subst₂ (λ lo hi. Between lo hi (controlled draw p k).p_k) (sym same.p_min)
              (sym same.p_max) prob;
        gains = gains;
      }
