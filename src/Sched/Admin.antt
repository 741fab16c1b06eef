-- ===== src/Sched/Admin.antt =====
-- modules/sch_rbfgrad.c: configuration, life cycle and threads of the discipline.
use gapso_rbf_pid.Prelude.{
  ℕ, ◌+◌, ◌%◌, List, true, false, Option, none, some, ◌⊎◌, inl, inr, ltb, if◌then◌else◌, u32,
}
use gapso_rbf_pid.Prelude.Int.{ℤ, pos, negsuc, ◌+ℤ◌, ◌-ℤ◌}
use gapso_rbf_pid.Double.{Double}
use gapso_rbf_pid.Params.{Qopt}
use gapso_rbf_pid.Params.Init.{rbfgrad_set_parms, set_parms_draws}
use gapso_rbf_pid.Control.{rbfgrad_mark_probability}
use gapso_rbf_pid.Sched.{Kernel, State}

abbrev pub einval : ℤ
einval = negsuc 21

-- What nla_parse_nested makes of the options: an error code, or the two attributes, each `none`
-- where it is missing. The kernel's parser is not part of the repository.
pub record Attributes (D : Type 0) : Type 0 where
  pub parms : Option (Qopt D)
  pub stab : Option (List ℕ)

abbrev pub Options : Type 0 → Type 0
Options D = Option (ℤ ⊎ Attributes D)

module _ {D Q Skb B : Type 0} ⦃d : Double D⦄ (k : Kernel Q Skb B) where
  -- `if (child)` of `rbfgrad_change`
  unfoldable pub replace_child : Option Q → State D Q B → State D Q B
  replace_child none s = s
  replace_child (some child) s = record s {
    qlen = k.tree_decrease_qlen s.qdisc (k.qlen s.qdisc) s.qlen;
    qdisc = child;
  }

  -- `rbfgrad_change` under the lock of the tree
  unfoldable pub apply_options : (ℕ → ℕ) → Option Q → Qopt D → List ℕ → State D Q B → State D Q B
  apply_options draw child ctl table s =
      let s' = replace_child child (record s { flags = ctl.flags % 256; limit = ctl.limit }) in
      record s' {
        params = rbfgrad_set_parms draw s.params ctl table s.drawn;
        drawn = s.drawn + set_parms_draws;
        array_element = 0;
      }

  -- with what fifo_create_dflt returned
  unfoldable pub change_created : (ℕ → ℕ) → ℤ ⊎ Q → Qopt D → List ℕ → State D Q B → ℤ × State D Q B
  change_created draw (inl err) ctl table s = (err, s)
  change_created draw (inr child) ctl table s = (pos 0, apply_options draw (some child) ctl table s)

  -- with both attributes present
  unfoldable pub change_with : (ℕ → ℕ) → Qopt D → List ℕ → State D Q B → ℤ × State D Q B
  change_with draw ctl table s =
      if ltb 0 ctl.limit
      then change_created draw (k.fifo_create_dflt ctl.limit) ctl table s
      else (pos 0, apply_options draw none ctl table s)

  -- the tests for the two attributes
  unfoldable pub change_parsed :
      (ℕ → ℕ) → Option (Qopt D) → Option (List ℕ) → State D Q B → ℤ × State D Q B
  change_parsed draw (some ctl) (some table) s = change_with draw ctl table s
  change_parsed draw (some ctl) none s = (einval, s)
  change_parsed draw none table s = (einval, s)

  unfoldable pub rbfgrad_change : (ℕ → ℕ) → Options D → State D Q B → ℤ × State D Q B
  rbfgrad_change draw none s = (einval, s)
  rbfgrad_change draw (some (inl err)) s = (err, s)
  rbfgrad_change draw (some (inr tb)) s = change_parsed draw tb.parms tb.stab s

  -- kthread_run of the two threads is taken to succeed
  unfoldable pub rbfgrad_init : (ℕ → ℕ) → Options D → State D Q B → ℤ × State D Q B
  rbfgrad_init draw opt s =
      let (ret, s') = rbfgrad_change draw opt (record s {
        fpu = s.fpu +ℤ pos 1;
        array_element = 0;
        cyc_count = 0;
        prob_number = 0;
        pkg_number = 0;
        qdisc = k.noop;
      }) in
      (ret, record s' { prob_thread = true; stop_thread = true })

module _ {D Q B : Type 0} ⦃d : Double D⦄ where
  -- the child is freed by qdisc_destroy; the state keeps the pointer to it
  unfoldable pub rbfgrad_destroy : State D Q B → State D Q B
  rbfgrad_destroy s = record s { array_element = 0; fpu = s.fpu -ℤ pos 1 }

  -- one round of `rbfgrad_thread_func`
  unfoldable pub thread_round : (ℕ → ℕ) → State D Q B → State D Q B
  thread_round draw s =
      let (p, next) = rbfgrad_mark_probability draw s.params s.drawn in
      record s { params = p; drawn = next; prob_number = u32 (s.prob_number + 1) }

  -- `rbfgrad_stop_prob_thread_func`, after its sleep of PROB_TIME
  unfoldable pub stop_prob : State D Q B → State D Q B
  stop_prob s = record s { prob_thread = false; stop_thread = false }
