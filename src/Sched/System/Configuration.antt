-- ===== src/Sched/System/Configuration.antt =====
-- `rbfgrad_init` and `rbfgrad_change` of modules/sch_rbfgrad.c and the invariant of the system.
use gapso_rbf_pid.Prelude.{
  ℕ, ◌≡◌, ◌∙◌, sym, refl, ap, List, Option, none, some, ◌⊎◌, inl, inr, arith, ltb, u32, Bool-cases,
}
use gapso_rbf_pid.Prelude.Int.{ℤ}
use gapso_rbf_pid.Double.{Double}
use mathlib.Core.Path.{subst}
use gapso_rbf_pid.Params.{Params, Qopt}
use gapso_rbf_pid.Params.Init.{rbfgrad_set_parms}
use gapso_rbf_pid.Sched.{Kernel, State, IsQueue}
use gapso_rbf_pid.Sched.Admin.{
  Options, replace_child, apply_options, change_created, change_with, change_parsed, rbfgrad_change,
  rbfgrad_init,
}
use gapso_rbf_pid.Sched.Samples.{IsRecording}
use gapso_rbf_pid.Sched.Changes.{IsLengthCounted, change_with-length}
use gapso_rbf_pid.Sched.Limits.{
  IsControlled, AllSensible, OnParms, IsSensible, set_parms-IsControlled,
}
use gapso_rbf_pid.Sched.System.{Inv, IsConsistent}

module _ {D Q Skb B : Type 0} ⦃d : Double D⦄ (k : Kernel Q Skb B) (draw : ℕ → ℕ) where
  -- The parameters after a change: as they were, or set from sensible options.
  abbrev pub IsChanged : Params D → Params D → Type 0
  IsChanged p q =
      (q ≡ p)
      ⊎ ((ctl : Qopt D) × (table : List ℕ) × (n : ℕ) × IsSensible ctl
          × (q ≡ rbfgrad_set_parms draw p ctl table n))

  change_created-IsChanged :
      (r : ℤ ⊎ Q) (ctl : Qopt D) (table : List ℕ) (s : State D Q B)
      → IsSensible ctl
      → IsChanged s.params (change_created k draw r ctl table s).1.params
  unfolding change_created apply_options replace_child
  change_created-IsChanged (inl err) ctl table s h = inl refl
  change_created-IsChanged (inr child) ctl table s h = inr (ctl, table, s.drawn, h, refl)

  change_with-IsChanged :
      (ctl : Qopt D) (table : List ℕ) (s : State D Q B)
      → IsSensible ctl
      → IsChanged s.params (change_with k draw ctl table s).1.params
  unfolding change_with apply_options replace_child
  change_with-IsChanged ctl table s h = elim (Bool-cases (ltb 0 ctl.limit)) [
    | inl e ↦ rw e (change_created-IsChanged (k.fifo_create_dflt ctl.limit) ctl table s h)
    | inr e ↦ rw e (inr (ctl, table, s.drawn, h, refl))
  ]

  change_parsed-IsChanged :
      (parms : Option (Qopt D)) (stab : Option (List ℕ)) (s : State D Q B)
      → OnParms IsSensible parms
      → IsChanged s.params (change_parsed k draw parms stab s).1.params
  unfolding change_parsed
  change_parsed-IsChanged (some ctl) (some table) s h = change_with-IsChanged ctl table s h
  change_parsed-IsChanged (some ctl) none s h = inl refl
  change_parsed-IsChanged none stab s h = inl refl

  pub change-IsChanged :
      (opt : Options D) (s : State D Q B)
      → AllSensible opt
      → IsChanged s.params (rbfgrad_change k draw opt s).1.params
  unfolding rbfgrad_change
  change-IsChanged none s h = inl refl
  change-IsChanged (some (inl e)) s h = inl refl
  change-IsChanged (some (inr tb)) s h = change_parsed-IsChanged tb.parms tb.stab s h

  change_created-IsRecording :
      (r : ℤ ⊎ Q) (ctl : Qopt D) (table : List ℕ) (s : State D Q B)
      → IsRecording s
      → IsRecording (change_created k draw r ctl table s).1
  unfolding change_created apply_options replace_child
  change_created-IsRecording (inl err) ctl table s i = i
  change_created-IsRecording (inr child) ctl table s i = record {
    array_element = omega arith;
    cyc_count = i.cyc_count;
  }

  change_with-IsRecording :
      (ctl : Qopt D) (table : List ℕ) (s : State D Q B)
      → IsRecording s
      → IsRecording (change_with k draw ctl table s).1
  unfolding change_with apply_options replace_child
  change_with-IsRecording ctl table s i = elim (Bool-cases (ltb 0 ctl.limit)) [
    | inl e ↦ rw e (change_created-IsRecording (k.fifo_create_dflt ctl.limit) ctl table s i)
    | inr e ↦ rw e (record { array_element = omega arith; cyc_count = i.cyc_count })
  ]

  module _ (laws : IsQueue k) where
    open laws use {noop_empty}

    change_parsed-IsConsistent :
        (parms : Option (Qopt D)) (stab : Option (List ℕ)) (s : State D Q B)
        → IsConsistent k draw s
        → IsConsistent k draw (change_parsed k draw parms stab s).1
    unfolding change_parsed
    change_parsed-IsConsistent (some ctl) (some table) s i = record {
      recording = change_with-IsRecording ctl table s i.recording;
      counted = change_with-length k laws draw ctl table s i.counted;
    }
    change_parsed-IsConsistent (some ctl) none s i = i
    change_parsed-IsConsistent none stab s i = i

    pub change-IsConsistent :
        (opt : Options D) (s : State D Q B)
        → IsConsistent k draw s
        → IsConsistent k draw (rbfgrad_change k draw opt s).1
    unfolding rbfgrad_change
    change-IsConsistent none s i = i
    change-IsConsistent (some (inl e)) s i = i
    change-IsConsistent (some (inr tb)) s i = change_parsed-IsConsistent tb.parms tb.stab s i

    pub change-Inv :
        (opt : Options D) (s : State D Q B)
        → AllSensible opt
        → Inv k draw s
        → Inv k draw (rbfgrad_change k draw opt s).1
    change-Inv opt s h i =
        let j =
          change-IsConsistent opt s (record { recording = i.recording; counted = i.counted }) in
        record {
          recording = j.recording;
          params = elim (change-IsChanged opt s h) [
            | inl e ↦ subst IsControlled (sym e) i.params
            | inr (ctl, table, n, h', e) ↦
                subst IsControlled (sym e) (set_parms-IsControlled draw s.params ctl table n h')
          ];
          counted = j.counted;
        }

    accepted-Inv :
        (ctl : Qopt D) (table : List ℕ) (child : Q) (s : State D Q B)
        → IsSensible ctl
        → k.fifo_create_dflt ctl.limit ≡ inr child
        → s.cyc_count ≡ 0
        → IsLengthCounted k s
        → Inv k draw (change_with k draw ctl table s).1
    unfolding change_with change_created apply_options replace_child
    accepted-Inv ctl table child s h e c n = elim (Bool-cases (ltb 0 ctl.limit)) [
      | inl e' ↦ record {
        recording = rw (e', e) (record { array_element = omega arith; cyc_count = omega arith });
        params = rw (e', e) (set_parms-IsControlled draw s.params ctl table s.drawn h);
        counted = change_with-length k laws draw ctl table s n;
      }
      | inr e' ↦ record {
        recording = rw e' (record { array_element = omega arith; cyc_count = omega arith });
        params = rw e' (set_parms-IsControlled draw s.params ctl table s.drawn h);
        counted = change_with-length k laws draw ctl table s n;
      }
    ]

    pub init-Inv :
        (ctl : Qopt D) (table : List ℕ) (child : Q) (s : State D Q B)
        → IsSensible ctl
        → k.fifo_create_dflt ctl.limit ≡ inr child
        → s.qlen ≡ 0
        → Inv k draw
            (rbfgrad_init k draw (some (inr (record { parms = some ctl; stab = some table }))) s).1
    unfolding rbfgrad_init rbfgrad_change change_parsed
    init-Inv ctl table child s h e n =
        let i = accepted-Inv ctl table child _ h e refl (n ∙ ap u32 (sym noop_empty.0)) in
        record {
          recording = record {
            array_element = i.recording.array_element;
            cyc_count = i.recording.cyc_count;
          };
          params = i.params;
          counted = i.counted;
        }
