-- ===== src/Sched/Changes.antt =====
-- `rbfgrad_change`, `rbfgrad_init` and `rbfgrad_graft` of modules/sch_rbfgrad.c: their errors, and the
-- counts when the child is replaced.
use gapso_rbf_pid.Prelude.{
  ℕ, ◌≡◌, ◌≢◌, ◌↔◌, ◌⊎◌, refl, ap, List, true, Option, none, some, arith, ltb, u32, Bool-cases, inl,
  inr,
}
use gapso_rbf_pid.Prelude.Int.{ℤ, pos}
use gapso_rbf_pid.Double.{Double}
use gapso_rbf_pid.Params.{Qopt}
use gapso_rbf_pid.Sched.{Kernel, State, IsQueue}
use gapso_rbf_pid.Sched.Admin.{
  Options, replace_child, apply_options, change_created, change_with, change_parsed, rbfgrad_change,
  rbfgrad_init,
}
use gapso_rbf_pid.Sched.Reports.{rbfgrad_graft}
use gapso_rbf_pid.Sched.Accounting.{IsCounted}

-- A child that holds nothing; where none is given it is the kernel's `noop_qdisc`.
abbrev pub IsFresh : {Q Skb B : Type 0} → Kernel Q Skb B → Option Q → Type 0
IsFresh k none = Unit
IsFresh k (some q) = (k.qlen q ≡ 0) × (k.backlog q ≡ 0)

module _ {D Q Skb B : Type 0} ⦃d : Double D⦄ (k : Kernel Q Skb B) where
  change_created-error :
      (draw : ℕ → ℕ) (r : ℤ ⊎ Q) (ctl : Qopt D) (table : List ℕ) (s : State D Q B)
      → (change_created k draw r ctl table s).0 ≢ pos 0
      → (change_created k draw r ctl table s).1 ≡ s
  unfolding change_created
  change_created-error draw (inl err) ctl table s h = refl
  change_created-error draw (inr child) ctl table s h = absurd (h refl)

  change_with-error :
      (draw : ℕ → ℕ) (ctl : Qopt D) (table : List ℕ) (s : State D Q B)
      → (change_with k draw ctl table s).0 ≢ pos 0
      → (change_with k draw ctl table s).1 ≡ s
  unfolding change_with
  change_with-error draw ctl table s = elim (Bool-cases (ltb 0 ctl.limit)) [
    | inl e ↦ rw e (λ h. change_created-error draw (k.fifo_create_dflt ctl.limit) ctl table s h)
    | inr e ↦ rw e (λ h. absurd (h refl))
  ]

  change_parsed-error :
      (draw : ℕ → ℕ) (parms : Option (Qopt D)) (stab : Option (List ℕ)) (s : State D Q B)
      → (change_parsed k draw parms stab s).0 ≢ pos 0
      → (change_parsed k draw parms stab s).1 ≡ s
  unfolding change_parsed
  change_parsed-error draw (some ctl) (some table) s h = change_with-error draw ctl table s h
  change_parsed-error draw (some ctl) none s h = refl
  change_parsed-error draw none table s h = refl

  -- A change of the options that returns an error leaves the whole state as it was.
  pub change-error_unchanged :
      (draw : ℕ → ℕ) (opt : Options D) (s : State D Q B)
      → (rbfgrad_change k draw opt s).0 ≢ pos 0
      → (rbfgrad_change k draw opt s).1 ≡ s
  unfolding rbfgrad_change
  change-error_unchanged draw none s h = refl
  change-error_unchanged draw (some (inl e)) s h = refl
  change-error_unchanged draw (some (inr tb)) s h = change_parsed-error draw tb.parms tb.stab s h

  -- The count of packets, without that of bytes.
  abbrev pub IsLengthCounted : State D Q B → Type 0
  IsLengthCounted s = s.qlen ≡ u32 (k.qlen s.qdisc)

  module _ (laws : IsQueue k) where
    open laws use {fifo_empty, noop_empty, tree_decrease}

    change_created-length :
        (draw : ℕ → ℕ) (r : ℤ ⊎ Q) (ctl : Qopt D) (table : List ℕ) (s : State D Q B)
        → k.fifo_create_dflt ctl.limit ≡ r
        → IsLengthCounted s
        → IsLengthCounted (change_created k draw r ctl table s).1
    unfolding change_created apply_options replace_child
    change_created-length draw (inl err) ctl table s e c = c
    change_created-length draw (inr child) ctl table s e c =
        ground (arith, fifo_empty ctl.limit child e, tree_decrease s.qdisc (k.qlen s.qdisc) s.qlen)

    pub change_with-length :
        (draw : ℕ → ℕ) (ctl : Qopt D) (table : List ℕ) (s : State D Q B)
        → IsLengthCounted s
        → IsLengthCounted (change_with k draw ctl table s).1
    unfolding change_with apply_options replace_child
    change_with-length draw ctl table s c = elim (Bool-cases (ltb 0 ctl.limit)) [
      | inl e ↦ rw e (change_created-length draw (k.fifo_create_dflt ctl.limit) ctl table s refl c)
      | inr e ↦ rw e c
    ]

    -- Grafting a child that holds nothing keeps the count of packets.
    pub graft-length :
        (new : Option Q) (s : State D Q B)
        → IsFresh k new
        → IsLengthCounted s
        → IsLengthCounted (rbfgrad_graft k new s).1
    unfolding rbfgrad_graft
    graft-length none s fresh c =
        ground (arith, noop_empty, tree_decrease s.qdisc (k.qlen s.qdisc) s.qlen)
    graft-length (some q) s fresh c = ground (arith, tree_decrease s.qdisc (k.qlen s.qdisc) s.qlen)

    graft-backlog :
        (new : Option Q) (s : State D Q B)
        → IsFresh k new
        → (k.backlog (rbfgrad_graft k new s).1.qdisc ≡ 0)
          × ((rbfgrad_graft k new s).1.backlog ≡ s.backlog)
    unfolding rbfgrad_graft
    graft-backlog none s fresh = (noop_empty.1, refl)
    graft-backlog (some q) s fresh = (fresh.1, refl)

    -- The count of bytes does not follow: after a child that holds nothing is grafted, both counts
    -- agree with the child exactly if the backlog was 0 before.
    pub graft-IsCounted_iff :
        (new : Option Q) (s : State D Q B)
        → IsFresh k new
        → IsCounted k s
        → IsCounted k (rbfgrad_graft k new s).1 ↔ (s.backlog ≡ 0)
    graft-IsCounted_iff new s fresh c =
        let (empty, same) = graft-backlog new s fresh in
        (
          λ h. omega (arith, h.backlog),
          λ e. record { qlen = graft-length new s fresh c.qlen; backlog = omega arith },
        )

  -- An initialisation that returns an error has started both threads all the same, and the
  -- parameters on which the first of them works were never set.
  pub init-error_threads :
      (draw : ℕ → ℕ) (opt : Options D) (s : State D Q B)
      → let r = rbfgrad_init k draw opt s in
        r.0 ≢ pos 0 → (r.1.prob_thread ≡ true) × (r.1.stop_thread ≡ true) × (r.1.params ≡ s.params)
  unfolding rbfgrad_init
  init-error_threads draw opt s h =
      (refl, refl, ap (λ (t : State D Q B). t.params) (change-error_unchanged draw opt _ h))
