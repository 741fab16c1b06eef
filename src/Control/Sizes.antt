-- ===== src/Control/Sizes.antt =====
-- The sizes of the arrays in `rbfgrad_mark_probability` of modules/sch_rbfgrad.c.
use gapso_rbf_pid.Prelude.{
  ℕ, ◌≡◌, ◌∙◌, sym, ap, List, ◌++◌, map, take, length, length-append, length-take_of_le, All, arith,
  Bool-cases, inl, inr,
}
use mathlib.Core.Path.{subst}
use gapso_rbf_pid.Double.{Double, ◌≺◌}
use gapso_rbf_pid.Params.{Params, unit_num}
use gapso_rbf_pid.Params.Shape.{IsShaped}
use gapso_rbf_pid.Swarm.{start_search, train, scaled}
use gapso_rbf_pid.Swarm.Sizes.{IsSized, start_search-IsSized, epochs-IsSized}
use gapso_rbf_pid.Swarm.Track.{length-map}
use gapso_rbf_pid.Swarm.Frame.{SameControl, train-SameControl}
use gapso_rbf_pid.Control.{
  Errors, load_inputs, load_errors, adapt, adapt_if_trained, write_prob, cap_prob, raise_prob,
  set_prob, rbfgrad_mark_probability,
}
use gapso_rbf_pid.Control.Keeps.{controlled}

length-take_append {ℓ} :
    {A : Type ℓ} (xs ys : List A)
    → length xs ≡ 10
    → length ys ≡ 10
    → length (take 5 xs ++ take 5 ys) ≡ 10
length-take_append xs ys e e' = omega (
  arith,
  length-append (take 5 xs) (take 5 ys),
  length-take_of_le 5 xs (omega arith),
  length-take_of_le 5 ys (omega arith),
)

module _ {D : Type 0} ⦃d : Double D⦄ where
  pub load_inputs-IsShaped : (p : Params D) → IsShaped p → IsShaped (load_inputs p)
  unfolding load_inputs
  load_inputs-IsShaped p h = record {
    w_k = h.w_k;
    c_k = h.c_k;
    delta_k = h.delta_k;
    proba = h.proba;
    queue_len = h.queue_len;
    sam_in =
        length-take_append p.proba (map scaled p.queue_len) h.proba
          (length-map scaled p.queue_len ∙ h.queue_len);
    net_out = h.net_out;
    position = h.position;
    vel = h.vel;
  }

  pub adapt_if_trained-IsShaped :
      (l : Errors D) (p : Params D) → IsShaped p → IsShaped (adapt_if_trained l p)
  unfolding adapt_if_trained
  adapt_if_trained-IsShaped l p h = elim (Bool-cases (p.gbestval ≺ p.e0)) [
    | inl e ↦ rw e (
        unfold adapt in
        record {
          w_k = h.w_k;
          c_k = h.c_k;
          delta_k = h.delta_k;
          proba = h.proba;
          queue_len = h.queue_len;
          sam_in = h.sam_in;
          net_out = h.net_out;
          position = h.position;
          vel = h.vel;
        })
    | inr e ↦ rw e h
  ]

  -- The probability is in no array.
  pub with_prob-IsShaped :
      (x y : D) (p : Params D) → IsShaped p → IsShaped (record p { p_k = x; p_k_1 = y })
  with_prob-IsShaped x y p h = record {
    w_k = h.w_k;
    c_k = h.c_k;
    delta_k = h.delta_k;
    proba = h.proba;
    queue_len = h.queue_len;
    sam_in = h.sam_in;
    net_out = h.net_out;
    position = h.position;
    vel = h.vel;
  }

  set_prob-IsShaped : (l : Errors D) (p : Params D) → IsShaped p → IsShaped (set_prob l p)
  unfolding set_prob raise_prob cap_prob write_prob
  set_prob-IsShaped l p h = with_prob-IsShaped _ _ p h

  pub searched-IsShaped :
      (mv : D) (p q : Params D)
      → SameControl p q
      → length q.w_k ≡ unit_num
      → IsSized mv q
      → IsShaped p
      → IsShaped q
  searched-IsShaped mv p q same w z h = record {
    w_k = w;
    c_k = subst (λ x. (length x ≡ 6) × All (λ row. length row ≡ 10) x) (sym same.c_k) h.c_k;
    delta_k = ap length same.delta_k ∙ h.delta_k;
    proba = ap length same.proba ∙ h.proba;
    queue_len = ap length same.queue_len ∙ h.queue_len;
    sam_in = ap length same.sam_in ∙ h.sam_in;
    net_out = z.net_out;
    position = z.position;
    vel = z.vel;
  }

  -- the weights that the search leaves
  pub with_weights-IsSized :
      (mv : D) (w : List D) (j : ℕ) (p : Params D)
      → IsSized mv p
      → IsSized mv (record p { w_k = w; gbest_index = j })
  with_weights-IsSized mv w j p z = record {
    limit = z.limit;
    position = z.position;
    vel = z.vel;
    pbest = z.pbest;
    pbestval = z.pbestval;
    net_out = z.net_out;
    gbest = z.gbest;
  }

  module _ (draw : ℕ → ℕ) where
    train-IsShaped : (p : Params D) (k : ℕ) → IsShaped p → IsShaped (train draw p k).params
    unfolding train
    train-IsShaped p k h =
        let z = epochs-IsSized draw p.mv 10 0 (start_search p k) (start_search-IsSized p k h) in
        searched-IsShaped p.mv p _ (train-SameControl draw p k) z.gbest
          (with_weights-IsSized p.mv _ _ _ z) h

    -- A call of the controller keeps every array at the size of the source.
    pub mark_probability-IsShaped :
        (p : Params D) (k : ℕ) → IsShaped p → IsShaped (controlled draw p k)
    unfolding rbfgrad_mark_probability
    mark_probability-IsShaped p k h = set_prob-IsShaped (load_errors p) _ (
        adapt_if_trained-IsShaped (load_errors p) _
          (train-IsShaped (load_inputs p) k (load_inputs-IsShaped p h)))
