-- ===== src/Sched/Round/Law.antt =====
-- The law that one call of the controller in modules/sch_rbfgrad.c follows while operations of the
-- discipline come in between its parts, and the number of these parts.
use gapso_rbf_pid.Prelude.{
  ℕ, zero, suc, ◌+◌, ◌-◌, ◌≤◌, ◌<◌, ◌≡◌, ◌∙◌, sym, refl, Bool, true, false, arith, if◌then◌else◌,
  ltb, Bool-cases, inl, inr,
}
use mathlib.Core.Path.{subst}
use mathlib.Core.Logic.{◌↔◌}
use gapso_rbf_pid.Double.{Double, ◌≺◌}
use gapso_rbf_pid.Params.{Params, max_epoch}
use gapso_rbf_pid.Swarm.{scaled}
use gapso_rbf_pid.Swarm.Frame.{SameControl, start_search-SameControl, epoch-SameControl}
use gapso_rbf_pid.Control.{
  load_inputs, load_errors, adapt, adapt_if_trained, write_prob, cap_prob, raise_prob,
}
use gapso_rbf_pid.Control.Bounds.{clamp_prob}
use gapso_rbf_pid.Control.Pid.{pid_law}
use gapso_rbf_pid.Sched.{Kernel, State}
use gapso_rbf_pid.Sched.Packets.{update_history}
use gapso_rbf_pid.Sched.System.Operations.{Operation-params}
use gapso_rbf_pid.Sched.Round.{
  Locals, Phase, Running, with_locals, restore, load_locals, idle, loaded, searching, trained,
  adapted, written, capped, search_part, advance, advances, IsBusy, Call, begun, worked, met,
}

-- the parts of a call behind this phase
abbrev pub parts_left : {D : Type 0} → Phase D → ℕ
parts_left idle = 0
parts_left (loaded l) = 16
parts_left (searching l index i) = max_epoch - i + 5
parts_left (trained l) = 4
parts_left (adapted l) = 3
parts_left written = 2
parts_left capped = 1

module _ {D : Type 0} ⦃d : Double D⦄ where
  left-IsBusy : (phase : Phase D) → 0 < parts_left phase → IsBusy phase
  left-IsBusy idle h = absurd (omega arith)
  left-IsBusy (loaded l) h = tt
  left-IsBusy (searching l index i) h = tt
  left-IsBusy (trained l) h = tt
  left-IsBusy (adapted l) h = tt
  left-IsBusy written h = tt
  left-IsBusy capped h = tt

  none_left-idle : (phase : Phase D) → parts_left phase ≡ 0 → phase ≡ idle
  none_left-idle idle e = refl
  none_left-idle (loaded l) e = absurd (omega arith)
  none_left-idle (searching l index i) e = absurd (omega arith)
  none_left-idle (trained l) e = absurd (omega arith)
  none_left-idle (adapted l) e = absurd (omega arith)
  none_left-idle written e = absurd (omega arith)
  none_left-idle capped e = absurd (omega arith)

  -- the law for the probability and the errors of `p`, with the coefficients of `q`
  abbrev pub law : Params D → Params D → D
  law p q = pid_law p.p_k q.kp_k q.ki_k q.kd_k (scaled p.e_k) (scaled p.e_k_1) (scaled p.e_k_2)

  record SameLimits (p q : Params D) : Type 0 where
    pub p_min : q.p_min ≡ p.p_min
    pub p_max : q.p_max ≡ p.p_max

  -- In a call that began with `p`: what holds of the probability in each phase.
  abbrev Follows : Params D → Phase D → Params D → Type 0
  Follows p idle q = (q.p_k ≡ clamp_prob p.p_min p.p_max (law p q)) × (q.p_k_1 ≡ p.p_k)
  Follows p (loaded l) q = (q.p_k ≡ p.p_k) × (l.errors ≡ load_errors p)
  Follows p (searching l index i) q = (q.p_k ≡ p.p_k) × (l.errors ≡ load_errors p)
  Follows p (trained l) q = (q.p_k ≡ p.p_k) × (l.errors ≡ load_errors p)
  Follows p (adapted l) q = (q.p_k ≡ p.p_k) × (l.errors ≡ load_errors p)
  Follows p written q = (q.p_k ≡ law p q) × (q.p_k_1 ≡ p.p_k)
  Follows p capped q =
      (q.p_k ≡ (if p.p_max ≺ law p q then p.p_max else law p q)) × (q.p_k_1 ≡ p.p_k)

  Goes : Params D → Phase D → Params D → Type 0
  Goes p phase q = SameLimits p q × Follows p phase q

  history-Goes :
      (p : Params D) (phase : Phase D) (b : Bool) (n : ℕ) (q : Params D)
      → Goes p phase q
      → Goes p phase (if b then update_history n q else q)
  unfolding Goes update_history
  history-Goes p phase false n q h = h
  history-Goes p idle true n q (s, h) = (record { p_min = s.p_min; p_max = s.p_max }, h)
  history-Goes p (loaded l) true n q (s, h) = (record { p_min = s.p_min; p_max = s.p_max }, h)
  history-Goes p (searching l index i) true n q (s, h) =
      (record { p_min = s.p_min; p_max = s.p_max }, h)
  history-Goes p (trained l) true n q (s, h) = (record { p_min = s.p_min; p_max = s.p_max }, h)
  history-Goes p (adapted l) true n q (s, h) = (record { p_min = s.p_min; p_max = s.p_max }, h)
  history-Goes p written true n q (s, h) = (record { p_min = s.p_min; p_max = s.p_max }, h)
  history-Goes p capped true n q (s, h) = (record { p_min = s.p_min; p_max = s.p_max }, h)

  -- the search writes neither the limits nor the probability
  search-SameLimits :
      (p q r : Params D)
      → SameControl q r
      → SameLimits p q
      → q.p_k ≡ p.p_k
      → SameLimits p r × (r.p_k ≡ p.p_k)
  search-SameLimits p q r c s e =
      (record { p_min = c.p_min ∙ s.p_min; p_max = c.p_max ∙ s.p_max }, c.p_k ∙ e)

  adapt-Goes :
      (p : Params D) (l : Locals D) (q : Params D)
      → Goes p (trained l) q
      → Goes p (adapted l) (restore q (adapt_if_trained l.errors (with_locals l q)))
  unfolding Goes adapt_if_trained adapt restore with_locals
  adapt-Goes p l q (s, h) = elim (Bool-cases (q.gbestval ≺ q.e0)) [
    | inl e ↦ rw e (record { p_min = s.p_min; p_max = s.p_max }, h)
    | inr e ↦ rw e (s, h)
  ]

module _ {D Q B : Type 0} ⦃d : Double D⦄ (draw : ℕ → ℕ) where
  search_part-Goes :
      (p : Params D) (l : Locals D) (index i : ℕ) (s : State D Q B)
      → Goes p (searching l index i) s.params
      → let r = search_part draw l index i s in Goes p r.phase r.state.params
  unfolding Goes search_part restore with_locals
  search_part-Goes p l index i s (g, h) = elim (Bool-cases (ltb i max_epoch)) [
    | inl e ↦
        let q = with_locals l s.params in
        let (g', e') =
          search-SameLimits p q _
            (epoch-SameControl draw i (record { params = q; index = index; drawn = s.drawn }))
            (record { p_min = g.p_min; p_max = g.p_max }) h.0 in
        rw e (record { p_min = g'.p_min; p_max = g'.p_max }, (e', h.1))
    | inr e ↦ rw e (record { p_min = g.p_min; p_max = g.p_max }, h)
  ]

  advance-Goes :
      (p : Params D) (phase : Phase D) (s : State D Q B)
      → IsBusy phase
      → Goes p phase s.params
      → let r = advance draw phase s in Goes p r.phase r.state.params
  unfolding advance
  advance-Goes p idle s b g = absurd b
  advance-Goes p (loaded l) s b g =
      unfold Goes in
      let (g', e') =
        search-SameLimits p s.params _ (start_search-SameControl s.params s.drawn) g.0 g.1.0 in
      (g', (e', g.1.1))
  advance-Goes p (searching l index i) s b g = search_part-Goes p l index i s g
  advance-Goes p (trained l) s b g = adapt-Goes p l s.params g
  advance-Goes p (adapted l) s b g =
      unfold Goes in
      unfold write_prob in
      unfold load_errors in
      (record { p_min = g.0.p_min; p_max = g.0.p_max }, (rw (g.1.1, g.1.0) refl, g.1.0))
  advance-Goes p written s b g =
      unfold Goes in
      unfold cap_prob in
      (record { p_min = g.0.p_min; p_max = g.0.p_max }, (rw (g.0.p_max, g.1.0) refl, g.1.1))
  advance-Goes p capped s b g =
      unfold Goes in
      unfold raise_prob in
      (record { p_min = g.0.p_min; p_max = g.0.p_max }, (rw (g.0.p_min, g.1.0) refl, g.1.1))

  advance-parts_left :
      (phase : Phase D) (s : State D Q B)
      → IsBusy phase
      → parts_left (advance draw phase s).phase + 1 ≡ parts_left phase
  unfolding advance search_part
  advance-parts_left idle s b = absurd b
  advance-parts_left (loaded l) s b = refl
  advance-parts_left (searching l index i) s b = ground arith
  advance-parts_left (trained l) s b = refl
  advance-parts_left (adapted l) s b = refl
  advance-parts_left written s b = refl
  advance-parts_left capped s b = refl

module _ {D Q Skb B : Type 0} ⦃d : Double D⦄ (k : Kernel Q Skb B) (draw : ℕ → ℕ) where
  Call-Goes :
      (s : State D Q B) (n : ℕ) (r : Running D Q B)
      → Call k draw s n r
      → Goes s.params r.phase r.state.params
  Call-Goes s n r begun =
      unfold load_locals in
      unfold Goes in
      unfold advance in unfold load_inputs in (record { p_min = refl; p_max = refl }, (refl, refl))
  Call-Goes s n r (worked m phase t b c) = advance-Goes draw s.params phase t b (Call-Goes s m _ c)
  Call-Goes s n r (met m phase t u b o c) =
      let (b', m', e) = Operation-params k draw t u o in
      subst (Goes s.params phase) (sym e)
        (history-Goes s.params phase b' m' t.params (Call-Goes s m _ c))

  Call-parts_left :
      (s : State D Q B) (n : ℕ) (r : Running D Q B)
      → Call k draw s n r
      → n + parts_left r.phase ≡ 17
  unfolding advance
  Call-parts_left s n r begun = refl
  Call-parts_left s n r (worked m phase t b c) =
      omega (arith, advance-parts_left draw phase t b, Call-parts_left s m _ c)
  Call-parts_left s n r (met m phase t u b o c) = Call-parts_left s m _ c

  -- Whatever operations come in between the parts of a call: when the call has ended, the probability
  -- is the incremental PID law, with the coefficients that it left, applied to the probability and
  -- the errors at its start, and kept between the limits at its start; the probability at its start
  -- is kept beside it.
  pub Call-pid_law :
      (s : State D Q B) (n : ℕ) (r : Running D Q B)
      → Call k draw s n r
      → r.phase ≡ idle
      → let q = r.state.params in
        (q.p_k
          ≡ clamp_prob s.params.p_min s.params.p_max (
              pid_law s.params.p_k q.kp_k q.ki_k q.kd_k
                (scaled s.params.e_k)
                (scaled s.params.e_k_1)
                (scaled s.params.e_k_2)))
        × (q.p_k_1 ≡ s.params.p_k)
  unfolding Goes
  Call-pid_law s n r c e =
      subst (λ phase. Follows s.params phase r.state.params) e (Call-Goes s n r c).1

  -- What is left of a call can be done with nothing between.
  pub Call-advances :
      (m n : ℕ) (s : State D Q B) (r : Running D Q B)
      → m ≤ parts_left r.phase
      → Call k draw s n r
      → Call k draw s (m + n) (advances draw m r)
  unfolding advances
  Call-advances zero n s r h c =
      subst (λ j. Call k draw s j r) {x = n} {y = zero + n} (omega arith) c
  Call-advances (suc m) n s r h c =
      let busy = left-IsBusy r.phase (omega arith) in
      subst (λ j. Call k draw s j (advances draw m (advance draw r.phase r.state))) {x = m + suc n}
        {y = suc m + n} (omega arith)
        (Call-advances m (suc n) s (advance draw r.phase r.state)
          (omega (arith, advance-parts_left draw r.phase r.state busy))
          (worked n r.phase r.state busy c))

  -- Whatever operations come in between the parts of a call, it has at most 17 parts, and it has
  -- ended exactly when the seventeenth is done; the parts that are left bring it to its end.
  pub Call-ends :
      (s : State D Q B) (n : ℕ) (r : Running D Q B)
      → Call k draw s n r
      → (n ≤ 17) × ((r.phase ≡ idle) ↔ (n ≡ 17)) × ((advances draw (17 - n) r).phase ≡ idle)
  Call-ends s n r c =
      let sum = Call-parts_left s n r c in
      let rest = Call-advances (17 - n) n s r (omega arith) c in
      (
        omega arith,
        (
          λ e. omega (arith, subst (λ phase. n + parts_left phase ≡ 17) e sum),
          λ e. none_left-idle r.phase (omega arith),
        ),
        none_left-idle (advances draw (17 - n) r).phase
            (omega (arith, Call-parts_left s (17 - n + n) _ rest)),
      )
