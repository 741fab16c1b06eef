-- ===== src/Control/Pid.antt =====
-- The control law that one call of the controller follows, in terms of the parameters before it.
use gapso_rbf_pid.Prelude.{
  ℕ, ◌≡◌, sym, refl, true, false, Bool-cases, inl, inr, List, [], ◌∷◌, ◌++◌, map, take, get_or,
  if◌then◌else◌,
}
use gapso_rbf_pid.Exp.{exp}
use mathlib.Core.Path.{subst}
use gapso_rbf_pid.Double.{Double, ◌⊕◌, ◌⊖◌, ◌⊗◌, ◌⊘◌, ◌≺◌, num}
use gapso_rbf_pid.Params.{Params}
use gapso_rbf_pid.Swarm.{scaled, hidden, sum_squares}
use gapso_rbf_pid.Swarm.Frame.{train-SameControl}
use gapso_rbf_pid.Control.{
  load_inputs, load_errors, at_least_zero, jacobian_sum, adapt, adapt_if_trained, write_prob,
  cap_prob, raise_prob, set_prob, rbfgrad_mark_probability,
}
use gapso_rbf_pid.Control.Bounds.{clamp_prob}
use gapso_rbf_pid.Control.Keeps.{controlled, trained}

module _ {D : Type 0} ⦃d : Double D⦄ where
  open d use {neg}

  -- the incremental law of a PID controller, for its last three errors
  abbrev pub pid_law : D → D → D → D → D → D → D → D
  pid_law u kp ki kd e e_1 e_2 = u ⊕ kp ⊗ (e ⊖ e_1) ⊕ ki ⊗ e ⊕ kd ⊗ (e ⊖ num 2 ⊗ e_1 ⊕ e_2)

  abbrev pub at_zero_or_more : D → D
  at_zero_or_more x = if x ≺ num 0 then num 0 else x

  abbrev pub sum_from : D → List D → D
  sum_from acc [] = acc
  sum_from acc (x ∷ xs) = sum_from (acc ⊕ x) xs

  abbrev pub squares : List D → List D → List D
  squares (x ∷ xs) (c ∷ cs) = ((x ⊖ c) ⊗ (x ⊖ c)) ∷ squares xs cs
  squares _ _ = []

  -- a Gaussian unit with the center `c` and the width `e`
  abbrev pub gaussian : List D → List D → D → D
  gaussian input c e = exp (neg (sum_from (num 0) (squares input c)) ⊘ (num 2 ⊗ e ⊗ e))

  -- for each unit, its part of the derivative of the network's output by the first input
  abbrev pub slopes : List D → D → List D → List (List D) → List D → List D
  slopes input u (w ∷ ws) (c ∷ cs) (e ∷ es) =
      (w ⊗ gaussian input c e ⊗ (get_or c 0 (num 0) ⊖ u) ⊘ (e ⊗ e)) ∷ slopes input u ws cs es
  slopes input u _ _ _ = []

  sum_squares-squares :
      (acc : D) (xs cs : List D) → sum_squares acc xs cs ≡ sum_from acc (squares xs cs)
  unfolding sum_squares
  sum_squares-squares acc (x ∷ xs) (c ∷ cs) = sum_squares-squares (acc ⊕ (x ⊖ c) ⊗ (x ⊖ c)) xs cs
  sum_squares-squares acc (x ∷ xs) [] = refl
  sum_squares-squares acc [] cs = refl

  jacobian_sum-slopes :
      (acc : D) (input : List D) (u : D) (ws : List D) (cs : List (List D)) (es : List D)
      → jacobian_sum acc input u ws cs es ≡ sum_from acc (slopes input u ws cs es)
  unfolding jacobian_sum hidden
  jacobian_sum-slopes acc input u (w ∷ ws) (c ∷ cs) (e ∷ es) =
      rw (sum_squares-squares (num 0) input c) (
        jacobian_sum-slopes (acc ⊕ w ⊗ gaussian input c e ⊗ (get_or c 0 (num 0) ⊖ u) ⊘ (e ⊗ e))
          input u ws cs es)
  jacobian_sum-slopes acc input u (w ∷ ws) (c ∷ cs) [] = refl
  jacobian_sum-slopes acc input u (w ∷ ws) [] es = refl
  jacobian_sum-slopes acc input u [] cs es = refl

  module _ (draw : ℕ → ℕ) where
    -- Whatever the search found: the new probability is the incremental PID law, with the new
    -- coefficients, applied to the old probability and the errors before the call, and kept between
    -- the limits; the old probability is kept beside it.
    pub mark_probability-pid_law :
        (p : Params D) (k : ℕ)
        → let q = controlled draw p k in
          (q.p_k
            ≡ clamp_prob p.p_min p.p_max (
                pid_law p.p_k q.kp_k q.ki_k q.kd_k
                  (scaled p.e_k)
                  (scaled p.e_k_1)
                  (scaled p.e_k_2)))
          × (q.p_k_1 ≡ p.p_k)
    unfolding rbfgrad_mark_probability load_inputs load_errors set_prob raise_prob cap_prob
        write_prob adapt_if_trained adapt
    mark_probability-pid_law p k =
        let t = train-SameControl draw (load_inputs p) k in
        elim (Bool-cases ((trained draw p k).gbestval ≺ (trained draw p k).e0)) [
          | inl e ↦ rw e (rw (t.p_k, t.p_min, t.p_max) (refl, refl))
          | inr e ↦ rw e (rw (t.p_k, t.p_min, t.p_max) (refl, refl))
        ]

    -- If the search ended with an error below E0: the Jacobian on record is the sum over the units of
    -- w * r * (c - p_k) / delta ^ 2, with the weights w that the search found, the values r of the
    -- units at the last five probabilities and queue lengths, and the probability before the call;
    -- each coefficient has moved from its value before the call by its learning rate times that
    -- Jacobian and the errors before the call, and is 0 where that is below 0; its value before the
    -- call is kept beside it. If not: the Jacobian is 0, and the coefficients and their former values
    -- are what they were.
    pub mark_probability-learned :
        (p : Params D) (k : ℕ)
        → let q = controlled draw p k in
          let t = trained draw p k in
          let good = t.gbestval ≺ p.e0 in
          let e = scaled {D = D} p.e_k in
          let e_1 = scaled {D = D} p.e_k_1 in
          let e_2 = scaled {D = D} p.e_k_2 in
          let input = take 5 p.proba ++ take 5 (map (scaled {D = D}) p.queue_len) in
          let step = λ (k eta part : D). at_zero_or_more (k ⊕ eta ⊗ e ⊗ q.jacobian ⊗ part) in
          (q.jacobian
            ≡ (if good then sum_from (num 0) (slopes input p.p_k t.w_k p.c_k p.delta_k) else num 0))
          × (q.kp_k ≡ (if good then step p.kp_k p.eta_p (e ⊖ e_1) else p.kp_k))
          × (q.ki_k ≡ (if good then step p.ki_k p.eta_i e else p.ki_k))
          × (q.kd_k ≡ (if good then step p.kd_k p.eta_d (e ⊖ num 2 ⊗ e_1 ⊕ e_2) else p.kd_k))
          × (q.kp_k_1 ≡ (if good then p.kp_k else p.kp_k_1))
          × (q.ki_k_1 ≡ (if good then p.ki_k else p.ki_k_1))
          × (q.kd_k_1 ≡ (if good then p.kd_k else p.kd_k_1))
    unfolding rbfgrad_mark_probability load_inputs load_errors set_prob raise_prob cap_prob
        write_prob adapt_if_trained adapt at_least_zero
    mark_probability-learned p k =
        let t = train-SameControl draw (load_inputs p) k in
        elim (Bool-cases ((trained draw p k).gbestval ≺ p.e0)) [
          | inl h ↦
              rw (h, subst (λ e. ((trained draw p k).gbestval ≺ e) ≡ true) (sym t.e0) h)
                (rw
                  (
                    jacobian_sum-slopes, t.jacobian, t.sam_in, t.p_k, t.c_k, t.delta_k, t.kp_k,
                    t.ki_k, t.kd_k, t.eta_p, t.eta_i, t.eta_d,
                  )
                  (refl, refl, refl, refl, refl, refl, refl))
          | inr h ↦
              rw (h, subst (λ e. ((trained draw p k).gbestval ≺ e) ≡ false) (sym t.e0) h)
                (t.jacobian, t.kp_k, t.ki_k, t.kd_k, t.kp_k_1, t.ki_k_1, t.kd_k_1)
        ]
