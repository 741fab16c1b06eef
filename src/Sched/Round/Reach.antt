-- ===== src/Sched/Round/Reach.antt =====
-- The states that the controller's thread and the operations of the discipline of
-- modules/sch_rbfgrad.c reach, with operations between the parts of a call.
use gapso_rbf_pid.Prelude.{ℕ, ◌≡◌, sym, refl, List, some, inl, inr, ltb, Bool-cases}
use mathlib.Core.Path.{subst}
use gapso_rbf_pid.Double.{Double, IsOrdered}
use gapso_rbf_pid.Params.{Qopt, max_epoch}
use gapso_rbf_pid.Sched.{Kernel, State, IsQueue}
use gapso_rbf_pid.Sched.Admin.{Options, rbfgrad_init, rbfgrad_change}
use gapso_rbf_pid.Sched.Limits.{IsSensible, AllSensible}
use gapso_rbf_pid.Sched.System.{IsConsistent}
use gapso_rbf_pid.Sched.System.Operations.{Operation-IsConsistent, Operation-params}
use gapso_rbf_pid.Sched.System.Configuration.{change-IsChanged, change-IsConsistent, init-Inv}
use gapso_rbf_pid.Sched.Round.{
  Phase, Running, idle, loaded, searching, trained, adapted, written, capped, search_part, advance,
  Moves, done, begins, works, meets, changes,
}
use gapso_rbf_pid.Sched.Round.Parts.{advance-Held}
use gapso_rbf_pid.Sched.Round.Held.{Held, controlled-Held, set_parms-Held, sampled-Held}

module _ {D Q Skb B : Type 0} ⦃d : Double D⦄ (k : Kernel Q Skb B) (draw : ℕ → ℕ) where
  -- The counters and the child, and the parameters in their phase.
  abbrev pub Holds : Running D Q B → Type 0
  Holds r = IsConsistent k draw r.state × Held r.phase r.state.params

  -- with these options and this table
  abbrev pub initialised : Qopt D → List ℕ → State D Q B → State D Q B
  initialised ctl table s =
      (rbfgrad_init k draw (some (inr (record { parms = some ctl; stab = some table }))) s).1

  keep-IsConsistent :
      (s t : State D Q B)
      → t.array_element ≡ s.array_element
      → t.cyc_count ≡ s.cyc_count
      → t.qlen ≡ s.qlen
      → t.qdisc ≡ s.qdisc
      → IsConsistent k draw s
      → IsConsistent k draw t
  keep-IsConsistent s t e e' q c i = record {
    recording = record {
      array_element = rw e i.recording.array_element;
      cyc_count = rw e' i.recording.cyc_count;
    };
    counted = rw (q, c) i.counted;
  }

  advance-IsConsistent :
      (phase : Phase D) (s : State D Q B)
      → IsConsistent k draw s
      → IsConsistent k draw (advance draw phase s).state
  unfolding advance search_part
  advance-IsConsistent idle s i = keep-IsConsistent s _ refl refl refl refl i
  advance-IsConsistent (loaded l) s i = keep-IsConsistent s _ refl refl refl refl i
  advance-IsConsistent (searching l index n) s i = elim (Bool-cases (ltb n max_epoch)) [
    | inl e ↦ rw e (keep-IsConsistent s _ refl refl refl refl i)
    | inr e ↦ rw e (keep-IsConsistent s _ refl refl refl refl i)
  ]
  advance-IsConsistent (trained l) s i = keep-IsConsistent s _ refl refl refl refl i
  advance-IsConsistent (adapted l) s i = keep-IsConsistent s _ refl refl refl refl i
  advance-IsConsistent written s i = keep-IsConsistent s _ refl refl refl refl i
  advance-IsConsistent capped s i = keep-IsConsistent s _ refl refl refl refl i

  change-Held :
      (opt : Options D) (s : State D Q B) (phase : Phase D)
      → AllSensible opt
      → Held phase s.params
      → Held phase (rbfgrad_change k draw opt s).1.params
  change-Held opt s phase a h = elim (change-IsChanged k draw opt s a) [
    | inl e ↦ subst (Held phase) (sym e) h
    | inr (ctl, table, n, h', e) ↦
        subst (Held phase) (sym e) (set_parms-Held draw phase s.params ctl table n h' h)
  ]

  module _ (laws : IsQueue k) (ordered : IsOrdered D) where
    Moves-Holds : (q r : Running D Q B) → Moves k draw q r → Holds q → Holds r
    Moves-Holds q _ (done _) h = h
    Moves-Holds _ r (begins s _ e m) (i, h) =
        Moves-Holds _ r m (advance-IsConsistent idle s i, advance-Held draw ordered idle s h)
    Moves-Holds _ r (works phase s _ b m) (i, h) =
        Moves-Holds _ r m (advance-IsConsistent phase s i, advance-Held draw ordered phase s h)
    Moves-Holds _ r (meets phase s t _ o m) (i, h) =
        let (b, n, e) = Operation-params k draw s t o in
        Moves-Holds _ r m (
          Operation-IsConsistent k draw laws s t o i,
          subst (Held phase) (sym e) (sampled-Held phase b n s.params h),
        )
    Moves-Holds _ r (changes phase opt s _ a m) (i, h) =
        Moves-Holds _ r m (change-IsConsistent k draw laws opt s i, change-Held opt s phase a h)

    -- Where the kernel can create the child, and the options are sensible: an initialised discipline
    -- that counted no packet is run by operations, by changes to sensible options and by the
    -- controller's thread, all of them also between the parts of a call of the controller, and every
    -- grafted child is empty. Then in every state the index and the cycle counter are in range, the
    -- length is the child's, the arrays have their sizes, and no coefficient is negative; and the
    -- probability is neither above p_max nor below p_min, except that it may be any value between its
    -- writing and the first test, and below p_min between the first test and the second.
    pub reachable-Holds :
        (ctl : Qopt D) (table : List ℕ) (child : Q) (s : State D Q B) (r : Running D Q B)
        → IsSensible ctl
        → k.fifo_create_dflt ctl.limit ≡ inr child
        → s.qlen ≡ 0
        → Moves k draw (record { state = initialised ctl table s; phase = idle }) r
        → Holds r
    reachable-Holds ctl table child s r h e n m =
        let i = init-Inv k draw laws ctl table child s h e n in
        Moves-Holds _ r m
          (record { recording = i.recording; counted = i.counted }, controlled-Held _ i.params)
