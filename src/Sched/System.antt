-- ===== src/Sched/System.antt =====
-- modules/sch_rbfgrad.c as a system: the operations of the discipline and the rounds of its threads
-- as steps, in any order, and the invariant of its states.
pub mod Operations
pub mod Configuration
pub mod Reach
use gapso_rbf_pid.Prelude.{ℕ, ◌≡◌, Bool, true, Option}
use gapso_rbf_pid.Double.{Double}
use gapso_rbf_pid.Sched.{Kernel, State}
use gapso_rbf_pid.Sched.Packets.{
  rbfgrad_enqueue, rbfgrad_dequeue, rbfgrad_peek, rbfgrad_drop, rbfgrad_reset,
}
use gapso_rbf_pid.Sched.Admin.{Options, rbfgrad_change, thread_round, stop_prob}
use gapso_rbf_pid.Sched.Reports.{rbfgrad_dump, rbfgrad_graft}
use gapso_rbf_pid.Sched.Samples.{IsRecording}
use gapso_rbf_pid.Sched.Changes.{IsLengthCounted, IsFresh}
use gapso_rbf_pid.Sched.Limits.{IsControlled, AllSensible}

module _ {D Q Skb B : Type 0} ⦃d : Double D⦄ (k : Kernel Q Skb B) (draw : ℕ → ℕ) where
  -- An operation of the discipline, or the end of the two threads' work.
  pub data Operation : State D Q B → State D Q B → Type 0 where
    enqueues : (skb : Skb) (s : State D Q B) → Operation s (rbfgrad_enqueue k draw skb s).1
    dequeues : (s : State D Q B) → Operation s (rbfgrad_dequeue k s).1
    peeks : (s : State D Q B) → Operation s (rbfgrad_peek k s).1
    drops : (s : State D Q B) → Operation s (rbfgrad_drop k s).1
    resets : (s : State D Q B) → Operation s (rbfgrad_reset k s)
    grafts :
        (new : Option Q) (s : State D Q B) → IsFresh k new → Operation s (rbfgrad_graft k new s).1
    dumps : (room : Bool) (s : State D Q B) → Operation s (rbfgrad_dump k room s).1
    stops : (s : State D Q B) → s.stop_thread ≡ true → Operation s (stop_prob s)

  -- An operation, a change of the options, or one round of the controller's thread.
  pub data Step : State D Q B → State D Q B → Type 0 where
    operates : (s t : State D Q B) → Operation s t → Step s t
    changes :
        (opt : Options D) (s : State D Q B)
        → AllSensible opt
        → Step s (rbfgrad_change k draw opt s).1
    trains : (s : State D Q B) → s.prob_thread ≡ true → Step s (thread_round draw s)

  -- Steps in any number and order.
  pub data Steps : State D Q B → State D Q B → Type 0 where
    done : (s : State D Q B) → Steps s s
    next : (s t u : State D Q B) → Step s t → Steps t u → Steps s u

  -- What the packets alone decide.
  pub record IsConsistent (s : State D Q B) : Type 0 where
    pub recording : IsRecording s
    pub counted : IsLengthCounted k s

  pub record Inv (s : State D Q B) : Type 0 where
    pub recording : IsRecording s
    pub params : IsControlled s.params
    pub counted : IsLengthCounted k s
