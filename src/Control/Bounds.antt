-- ===== src/Control/Bounds.antt =====
-- The probability and the coefficients in `rbfgrad_mark_probability` of modules/sch_rbfgrad.c.
use gapso_rbf_pid.Prelude.{ℕ, ◌≡◌, if◌then◌else◌, sym, inl, inr, false, arith, Bool-cases}
use mathlib.Core.Path.{subst, subst₂}
use gapso_rbf_pid.Double.{Double, IsOrdered, ◌≺◌, num}
use gapso_rbf_pid.Params.{Params}
use gapso_rbf_pid.Swarm.Frame.{train-SameControl}
use gapso_rbf_pid.Control.{
  Errors, load_inputs, load_errors, at_least_zero, adapt, adapt_if_trained, write_prob, cap_prob,
  raise_prob, set_prob, rbfgrad_mark_probability,
}
use gapso_rbf_pid.Control.Keeps.{controlled, trained, before_prob-SamePackets}

module _ {D : Type 0} ⦃d : Double D⦄ where
  -- `x` is neither above `hi` nor below `lo`. A NaN is neither.
  abbrev pub Between : D → D → D → Type 0
  Between lo hi x = ((hi ≺ x) ≡ false) × ((x ≺ lo) ≡ false)

  abbrev pub NotNegative : D → Type 0
  NotNegative x = (x ≺ num 0) ≡ false

  pub record HasGains (p : Params D) : Type 0 where
    pub kp_k : NotNegative p.kp_k
    pub ki_k : NotNegative p.ki_k
    pub kd_k : NotNegative p.kd_k

  -- the value kept between two limits
  abbrev pub clamp_prob : D → D → D → D
  clamp_prob lo hi x = let x' = if hi ≺ x then hi else x in if x' ≺ lo then lo else x'

  module _ (laws : IsOrdered D) where
    open laws use {lt_irrefl}

    clamp_prob-Between : (lo hi x : D) → (hi ≺ lo) ≡ false → Between lo hi (clamp_prob lo hi x)
    clamp_prob-Between lo hi x h = ground (arith, lt_irrefl lo, lt_irrefl hi)

    at_least_zero-NotNegative : (x : D) → NotNegative (at_least_zero x)
    unfolding at_least_zero
    at_least_zero-NotNegative x = ground (arith, lt_irrefl (num 0))

    adapt-HasGains : (l : Errors D) (p : Params D) → HasGains (adapt l p)
    unfolding adapt
    adapt-HasGains l p = record {
      kp_k = at_least_zero-NotNegative _;
      ki_k = at_least_zero-NotNegative _;
      kd_k = at_least_zero-NotNegative _;
    }

    set_prob-Between :
        (l : Errors D) (p : Params D)
        → (p.p_max ≺ p.p_min) ≡ false
        → Between p.p_min p.p_max (set_prob l p).p_k
    unfolding set_prob raise_prob cap_prob write_prob
    set_prob-Between l p h = clamp_prob-Between p.p_min p.p_max _ h

    pub adapt_if_trained-HasGains :
        (l : Errors D) (p : Params D) → HasGains p → HasGains (adapt_if_trained l p)
    unfolding adapt_if_trained
    adapt_if_trained-HasGains l p h = elim (Bool-cases (p.gbestval ≺ p.e0)) [
      | inl e ↦ rw e (adapt-HasGains l p)
      | inr e ↦ rw e h
    ]

    set_prob-HasGains : (l : Errors D) (p : Params D) → HasGains p → HasGains (set_prob l p)
    unfolding set_prob raise_prob cap_prob write_prob
    set_prob-HasGains l p h = record { kp_k = h.kp_k; ki_k = h.ki_k; kd_k = h.kd_k }

  module _ (draw : ℕ → ℕ) where
    module _ (laws : IsOrdered D) where
      trained-HasGains : (p : Params D) (k : ℕ) → HasGains p → HasGains (trained draw p k)
      unfolding load_inputs
      trained-HasGains p k g =
          let t = train-SameControl draw (load_inputs p) k in
          record {
            kp_k = subst NotNegative (sym t.kp_k) g.kp_k;
            ki_k = subst NotNegative (sym t.ki_k) g.ki_k;
            kd_k = subst NotNegative (sym t.kd_k) g.kd_k;
          }

      -- Where p_max is not below p_min: after a call the probability is neither above p_max nor
      -- below p_min, and coefficients that were not negative are not negative.
      pub mark_probability-bounds :
          (p : Params D) (k : ℕ)
          → (p.p_max ≺ p.p_min) ≡ false
          → HasGains p
          → Between p.p_min p.p_max (controlled draw p k).p_k × HasGains (controlled draw p k)
      unfolding rbfgrad_mark_probability
      mark_probability-bounds p k h g =
          let l = load_errors p in
          let q = adapt_if_trained l (trained draw p k) in
          let same = before_prob-SamePackets draw p k in
          (
            subst₂ (λ lo hi. Between lo hi (set_prob l q).p_k) same.p_min same.p_max
                (set_prob-Between laws l q
                  (subst₂ (λ lo hi. (hi ≺ lo) ≡ false) (sym same.p_min) (sym same.p_max) h)),
            set_prob-HasGains laws l q
                (adapt_if_trained-HasGains laws l (trained draw p k) (trained-HasGains p k g)),
          )
