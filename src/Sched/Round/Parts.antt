-- ===== src/Sched/Round/Parts.antt =====
-- The parts of a call of the controller in modules/sch_rbfgrad.c, one by one.
use gapso_rbf_pid.Prelude.{ℕ, suc, ◌≡◌, refl, inl, inr, arith, ltb, Bool-cases}
use gapso_rbf_pid.Double.{Double, IsOrdered}
use gapso_rbf_pid.Params.{Params, max_epoch}
use gapso_rbf_pid.Swarm.{Search, start_search, epoch, update_gbest, update_pbest, move_particles}
use gapso_rbf_pid.Swarm.Frame.{start_search-SameControl, epoch-SameControl}
use gapso_rbf_pid.Swarm.Sizes.{start_search-IsSized, epoch-IsSized}
use gapso_rbf_pid.Control.{load_inputs, adapt_if_trained, write_prob, cap_prob, raise_prob}
use gapso_rbf_pid.Control.Bounds.{adapt_if_trained-HasGains}
use gapso_rbf_pid.Control.Sizes.{
  load_inputs-IsShaped, adapt_if_trained-IsShaped, with_prob-IsShaped,
}
use gapso_rbf_pid.Sched.{State}
use gapso_rbf_pid.Sched.Round.Copies.{
  with_locals-IsShaped, restore-IsShaped, restore-SameControl, with_locals-IsSized, restore-IsSized,
  same_gains,
}
use gapso_rbf_pid.Sched.Round.{
  Locals, with_locals, restore, Phase, idle, loaded, searching, trained, adapted, written, capped,
  search_part, advance,
}
use gapso_rbf_pid.Sched.Round.Held.{Held, searched-Held, adapt_if_trained-prob}

module _ {D : Type 0} ⦃d : Double D⦄ where
  load_inputs-Held : (l : Locals D) (p : Params D) → Held idle p → Held (loaded l) (load_inputs p)
  load_inputs-Held l p h = record {
    shape = load_inputs-IsShaped p h.shape;
    limits = unfold load_inputs in h.limits;
    gains = unfold load_inputs in same_gains p _ refl refl refl h.gains;
    prob = unfold load_inputs in h.prob;
  }

  start_search-Held :
      (l : Locals D) (p : Params D) (k : ℕ)
      → Held (loaded l) p
      → let q = start_search p k in Held (searching l q.index 0) q.params
  unfolding start_search update_gbest
  start_search-Held l p k h =
      searched-Held l _ 0 p _ (start_search-SameControl p k) refl (start_search-IsSized p k h.shape)
        h.shape h.limits h.gains h.prob

  adapt-Held :
      (laws : IsOrdered D) (l : Locals D) (p : Params D)
      → Held (trained l) p
      → Held (adapted l) (restore p (adapt_if_trained l.errors (with_locals l p)))
  adapt-Held laws l p h =
      let q = with_locals l p in
      let r = adapt_if_trained l.errors q in
      let (e, lo, hi) = adapt_if_trained-prob l.errors q in
      let g =
        adapt_if_trained-HasGains laws l.errors q
          (unfold with_locals in same_gains p q refl refl refl h.gains) in
      record {
        shape =
            restore-IsShaped p r
              (adapt_if_trained-IsShaped l.errors q (with_locals-IsShaped l p h.shape));
        limits = unfold restore in rw (lo, hi) (unfold with_locals in h.limits);
        gains = unfold restore in same_gains r _ refl refl refl g;
        prob = unfold restore in rw (e, lo, hi) (unfold with_locals in h.prob);
      }

  write_prob-Held :
      (l : Locals D) (p : Params D) → Held (adapted l) p → Held written (write_prob l.errors p)
  unfolding write_prob
  write_prob-Held l p h = record {
    shape = with_prob-IsShaped _ _ p h.shape;
    limits = h.limits;
    gains = same_gains p _ refl refl refl h.gains;
    prob = tt;
  }

  cap_prob-Held : (laws : IsOrdered D) (p : Params D) → Held written p → Held capped (cap_prob p)
  unfolding cap_prob
  cap_prob-Held laws p h = record {
    shape = with_prob-IsShaped _ p.p_k_1 p h.shape;
    limits = h.limits;
    gains = same_gains p _ refl refl refl h.gains;
    prob = ground (arith, laws.lt_irrefl p.p_max);
  }

  raise_prob-Held : (laws : IsOrdered D) (p : Params D) → Held capped p → Held idle (raise_prob p)
  unfolding raise_prob
  raise_prob-Held laws p h = record {
    shape = with_prob-IsShaped _ p.p_k_1 p h.shape;
    limits = h.limits;
    gains = same_gains p _ refl refl refl h.gains;
    prob = ground (arith, laws.lt_irrefl p.p_min, h.prob, h.limits);
  }

module _ {D : Type 0} ⦃d : Double D⦄ (draw : ℕ → ℕ) where
  -- the search with the copies in place
  abbrev copied : Locals D → ℕ → Params D → ℕ → Search D
  copied l index p k = record { params = with_locals l p; index = index; drawn = k }

  same_weights :
      (l : Locals D) (index i : ℕ) (p : Params D) (k : ℕ)
      → let r = epoch draw i (copied l index p k) in (restore p r.params).w_k ≡ p.w_k
  unfolding epoch move_particles update_gbest update_pbest with_locals restore
  same_weights l index i p k = refl

  epoch-Held :
      (l : Locals D) (index i : ℕ) (p : Params D) (k : ℕ)
      → Held (searching l index i) p
      → let r = epoch draw i (copied l index p k) in
        Held (searching l r.index (suc i)) (restore p r.params)
  epoch-Held l index i p k h =
      let q = copied l index p k in
      let r = epoch draw i q in
      searched-Held l _ (suc i) p _ (restore-SameControl l p r.params (epoch-SameControl draw i q))
        (same_weights l index i p k)
        (restore-IsSized l.mv p r.params
          (epoch-IsSized draw l.mv i q (with_locals-IsSized p.mv l p h.prob.1)))
        h.shape h.limits h.gains h.prob.0

module _ {D Q B : Type 0} ⦃d : Double D⦄ (draw : ℕ → ℕ) where
  search_part-Held :
      (l : Locals D) (index i : ℕ) (s : State D Q B)
      → Held (searching l index i) s.params
      → let r = search_part draw l index i s in Held r.phase r.state.params
  unfolding search_part
  search_part-Held l index i s h = elim (Bool-cases (ltb i max_epoch)) [
    | inl e ↦ rw e (epoch-Held draw l index i s.params s.drawn h)
    | inr e ↦ rw e (record {
      shape = record {
        w_k = h.prob.1.gbest;
        c_k = h.shape.c_k;
        delta_k = h.shape.delta_k;
        proba = h.shape.proba;
        queue_len = h.shape.queue_len;
        sam_in = h.shape.sam_in;
        net_out = h.shape.net_out;
        position = h.shape.position;
        vel = h.shape.vel;
      };
      limits = h.limits;
      gains = same_gains s.params _ refl refl refl h.gains;
      prob = h.prob.0;
    })
  ]

  pub advance-Held :
      (laws : IsOrdered D) (phase : Phase D) (s : State D Q B)
      → Held phase s.params
      → let r = advance draw phase s in Held r.phase r.state.params
  unfolding advance
  advance-Held laws idle s h = load_inputs-Held _ s.params h
  advance-Held laws (loaded l) s h = start_search-Held l s.params s.drawn h
  advance-Held laws (searching l index i) s h = search_part-Held l index i s h
  advance-Held laws (trained l) s h = adapt-Held laws l s.params h
  advance-Held laws (adapted l) s h = write_prob-Held l s.params h
  advance-Held laws written s h = cap_prob-Held laws s.params h
  advance-Held laws capped s h = raise_prob-Held laws s.params h
