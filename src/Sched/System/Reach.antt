-- ===== src/Sched/System/Reach.antt =====
-- The states that the operations and threads of modules/sch_rbfgrad.c reach.
use gapso_rbf_pid.Prelude.{ℕ, ◌≡◌, sym, List, some, inr}
use mathlib.Core.Path.{subst}
use gapso_rbf_pid.Double.{Double, IsOrdered}
use gapso_rbf_pid.Params.{Qopt}
use gapso_rbf_pid.Sched.{Kernel, State, IsQueue}
use gapso_rbf_pid.Sched.Admin.{rbfgrad_init, thread_round}
use gapso_rbf_pid.Sched.Limits.{
  IsControlled, IsSensible, sampled-IsControlled, controlled-IsControlled,
}
use gapso_rbf_pid.Sched.System.{Step, operates, changes, trains, Steps, done, next, Inv}
use gapso_rbf_pid.Sched.System.Operations.{Operation-IsConsistent, Operation-params}
use gapso_rbf_pid.Sched.System.Configuration.{change-Inv, init-Inv}

module _ {D Q Skb B : Type 0} ⦃d : Double D⦄ (k : Kernel Q Skb B) (draw : ℕ → ℕ) where
  module _ (laws : IsQueue k) where
    Step-Inv :
        (ordered : IsOrdered D) (s t : State D Q B) → Step k draw s t → Inv k draw s → Inv k draw t
    unfolding thread_round
    Step-Inv ordered _ _ (operates s t o) i =
        let j =
          Operation-IsConsistent k draw laws s t o
            (record { recording = i.recording; counted = i.counted }) in
        let (b, n, e) = Operation-params k draw s t o in
        record {
          recording = j.recording;
          params = subst IsControlled (sym e) (sampled-IsControlled b n s.params i.params);
          counted = j.counted;
        }
    Step-Inv ordered _ _ (changes opt s h) i = change-Inv k draw laws opt s h i
    Step-Inv ordered _ _ (trains s e) i = record {
      recording = record {
        array_element = i.recording.array_element;
        cyc_count = i.recording.cyc_count;
      };
      params = controlled-IsControlled ordered draw s.params s.drawn i.params;
      counted = i.counted;
    }

    Steps-Inv :
        (ordered : IsOrdered D) (s t : State D Q B) → Steps k draw s t → Inv k draw s → Inv k draw t
    Steps-Inv ordered _ _ (done s) i = i
    Steps-Inv ordered _ _ (next s t u h hs) i = Steps-Inv ordered t u hs (Step-Inv ordered s t h i)

    -- Where the kernel can create the child, and the options are sensible: from an initialised
    -- discipline that counted no packet, operations and rounds of the threads in any number and
    -- order, with every later option sensible and every grafted child empty, reach only states
    -- where the index and the cycle counter are in range, the arrays have their sizes, the
    -- probability is neither above p_max nor below p_min, no coefficient is negative, and the length
    -- is the child's.
    pub reachable-Inv :
        (ordered : IsOrdered D) (ctl : Qopt D) (table : List ℕ) (child : Q) (s t : State D Q B)
        → IsSensible ctl
        → k.fifo_create_dflt ctl.limit ≡ inr child
        → s.qlen ≡ 0
        → Steps k draw
            (rbfgrad_init k draw (some (inr (record { parms = some ctl; stab = some table }))) s).1
            t
        → Inv k draw t
    reachable-Inv ordered ctl table child s t h e n hs =
        Steps-Inv ordered _ t hs (init-Inv k draw laws ctl table child s h e n)
