-- ===== src/Sched/Dump.antt =====
-- `rbfgrad_change` and `rbfgrad_dump` of modules/sch_rbfgrad.c.
use gapso_rbf_pid.Prelude.{ℕ, ◌≡◌, refl, List, some, inl, inr, ltb, Bool-cases}
use gapso_rbf_pid.Double.{Double, num}
use gapso_rbf_pid.Params.{Qopt}
use gapso_rbf_pid.Params.Init.{rbfgrad_set_parms}
use gapso_rbf_pid.Sched.{Kernel, State}
use gapso_rbf_pid.Sched.Admin.{
  replace_child, apply_options, change_created, change_with, change_parsed, rbfgrad_change,
}
use gapso_rbf_pid.Sched.Reports.{dump_options}

module _ {D Q Skb B : Type 0} ⦃d : Double D⦄ (k : Kernel Q Skb B) where
  -- Where the kernel can create the child: options that are set by a change are dumped as they were
  -- given, but for p_init, p_min, Scell_log and the flags, which are dumped as 0.
  pub dump_options-change :
      (draw : ℕ → ℕ) (ctl : Qopt D) (table : List ℕ) (child : Q) (s : State D Q B)
      → k.fifo_create_dflt ctl.limit ≡ inr child
      → dump_options
          (rbfgrad_change k draw (some (inr (record { parms = some ctl; stab = some table }))) s).1
        ≡ record ctl { p_init = num 0; p_min = num 0; scell_log = 0; flags = 0 }
  unfolding dump_options rbfgrad_change change_parsed change_with change_created apply_options
      replace_child rbfgrad_set_parms
  dump_options-change draw ctl table child s e = elim (Bool-cases (ltb 0 ctl.limit)) [
    | inl e' ↦ rw (e', e) refl
    | inr e' ↦ rw e' refl
  ]
