-- ===== src/Control.antt =====
-- modules/sch_rbfgrad.c: `rbfgrad_mark_probability`, the controller: it trains the network, adapts
-- the three PID coefficients by the network's Jacobian, and sets the marking probability.
pub mod Keeps
pub mod Bounds
pub mod Pid
pub mod Sizes
use gapso_rbf_pid.Prelude.{ℕ, List, ◌∷◌, ◌++◌, map, if◌then◌else◌, get_or, take}
use gapso_rbf_pid.Double.{Double, ◌⊕◌, ◌⊖◌, ◌⊗◌, ◌⊘◌, ◌≺◌, num}
use gapso_rbf_pid.Params.{Params}
use gapso_rbf_pid.Swarm.{hidden, scaled, train}

-- the errors over 6500
pub record Errors (D : Type 0) : Type 0 where
  pub e_k : D
  pub e_k_1 : D
  pub e_k_2 : D

module _ {D : Type 0} ⦃d : Double D⦄ where
  -- SamIn: the last five probabilities, then the last five queue lengths over 6500
  unfoldable pub load_inputs : Params D → Params D
  load_inputs p = record p {
    jacobian = num 0;
    sam_in = take 5 p.proba ++ take 5 (map scaled p.queue_len);
  }

  -- jacobian + w_k[i]*r[i]*(c_k[i][0]-p_k) / (delta_k[i]*delta_k[i])
  unfoldable pub jacobian_sum : D → List D → D → List D → List (List D) → List D → D
  jacobian_sum acc input p_k (w ∷ ws) (c ∷ cs) (e ∷ es) =
      jacobian_sum (acc ⊕ w ⊗ hidden input c e ⊗ (get_or c 0 (num 0) ⊖ p_k) ⊘ (e ⊗ e)) input p_k ws
        cs es
  jacobian_sum acc input p_k ws cs es = acc

  -- if(parms->kp_k < 0) parms->kp_k = 0;
  unfoldable pub at_least_zero : D → D
  at_least_zero x = if x ≺ num 0 then num 0 else x

  -- the locals e_k, e_k_1 and e_k_2, which the function computes at its start
  unfoldable pub load_errors : Params D → Errors D
  load_errors p = record { e_k = scaled p.e_k; e_k_1 = scaled p.e_k_1; e_k_2 = scaled p.e_k_2 }

  -- "计算PID三参数"
  unfoldable pub adapt : Errors D → Params D → Params D
  adapt l p =
      let jac = jacobian_sum p.jacobian p.sam_in p.p_k p.w_k p.c_k p.delta_k in
      record p {
        jacobian = jac;
        kp_k_1 = p.kp_k;
        ki_k_1 = p.ki_k;
        kd_k_1 = p.kd_k;
        kp_k = at_least_zero (p.kp_k ⊕ p.eta_p ⊗ l.e_k ⊗ jac ⊗ (l.e_k ⊖ l.e_k_1));
        ki_k = at_least_zero (p.ki_k ⊕ p.eta_i ⊗ l.e_k ⊗ jac ⊗ l.e_k);
        kd_k = at_least_zero (p.kd_k ⊕ p.eta_d ⊗ l.e_k ⊗ jac ⊗ (l.e_k ⊖ num 2 ⊗ l.e_k_1 ⊕ l.e_k_2));
      }

  -- if(parms->gbestval < parms->E0)
  unfoldable pub adapt_if_trained : Errors D → Params D → Params D
  adapt_if_trained l p = if p.gbestval ≺ p.e0 then adapt l p else p

  -- "计算丢弃概率"
  unfoldable pub write_prob : Errors D → Params D → Params D
  write_prob l p = record p {
    p_k_1 = p.p_k;
    p_k =
        p.p_k
        ⊕ p.kp_k ⊗ (l.e_k ⊖ l.e_k_1)
        ⊕ p.ki_k ⊗ l.e_k
        ⊕ p.kd_k ⊗ (l.e_k ⊖ num 2 ⊗ l.e_k_1 ⊕ l.e_k_2);
  }

  -- "确保p_k在p_min和p_max之间": the first test and the second
  unfoldable pub cap_prob : Params D → Params D
  cap_prob p = record p { p_k = if p.p_max ≺ p.p_k then p.p_max else p.p_k }

  unfoldable pub raise_prob : Params D → Params D
  raise_prob p = record p { p_k = if p.p_k ≺ p.p_min then p.p_min else p.p_k }

  unfoldable pub set_prob : Errors D → Params D → Params D
  set_prob l p = raise_prob (cap_prob (write_prob l p))

module _ {D : Type 0} ⦃d : Double D⦄ (draw : ℕ → ℕ) where
  -- The whole function, from draw `k` on; the result has the number of the next draw.
  unfoldable pub rbfgrad_mark_probability : Params D → ℕ → Params D × ℕ
  rbfgrad_mark_probability p k =
      let l = load_errors p in
      let s = train draw (load_inputs p) k in (set_prob l (adapt_if_trained l s.params), s.drawn)
