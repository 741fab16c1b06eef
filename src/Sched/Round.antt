-- ===== src/Sched/Round.antt =====
-- modules/sch_rbfgrad.c: one call of `rbfgrad_mark_probability` in parts, with the operations of the
-- discipline and changes of the options between them. The thread takes no lock, so they come in
-- while it works. The parts are the inputs, the start of the search, each of its rounds, its end, the adaption of the
-- coefficients, the new probability, and each of the two tests behind it.
pub mod Law
pub mod Copies
pub mod Held
pub mod Parts
pub mod Reach
use gapso_rbf_pid.Prelude.{ℕ, zero, suc, ◌+◌, ◌≡◌, true, ltb, if◌then◌else◌, u32}
use gapso_rbf_pid.Double.{Double}
use gapso_rbf_pid.Params.{Params, max_epoch}
use gapso_rbf_pid.Swarm.{start_search, epoch}
use gapso_rbf_pid.Control.{
  Errors, load_inputs, load_errors, adapt_if_trained, write_prob, cap_prob, raise_prob,
}
use gapso_rbf_pid.Sched.{Kernel, State}
use gapso_rbf_pid.Sched.Admin.{Options, rbfgrad_change}
use gapso_rbf_pid.Sched.Limits.{AllSensible}
use gapso_rbf_pid.Sched.System.{Operation}

-- the values that the function copies at its start
pub record Locals (D : Type 0) : Type 0 where
  pub errors : Errors D
  pub eta_p : D
  pub eta_i : D
  pub eta_d : D
  pub iw1 : D
  pub iw2 : D
  pub iwe : D
  pub ac1 : D
  pub ac2 : D
  pub mv : D

module _ {D : Type 0} where
  -- the parameters as the function reads them, with its copies in place of what may have changed
  unfoldable pub with_locals : Locals D → Params D → Params D
  with_locals l p = record p {
    eta_p = l.eta_p;
    eta_i = l.eta_i;
    eta_d = l.eta_d;
    iw1 = l.iw1;
    iw2 = l.iw2;
    iwe = l.iwe;
    ac1 = l.ac1;
    ac2 = l.ac2;
    mv = l.mv;
  }

  -- What a part leaves: it does not write the values that it has copies of.
  unfoldable pub restore : Params D → Params D → Params D
  restore p q = record q {
    eta_p = p.eta_p;
    eta_i = p.eta_i;
    eta_d = p.eta_d;
    iw1 = p.iw1;
    iw2 = p.iw2;
    iwe = p.iwe;
    ac1 = p.ac1;
    ac2 = p.ac2;
    mv = p.mv;
  }

unfoldable pub load_locals : {D : Type 0} ⦃d : Double D⦄ → Params D → Locals D
load_locals p = record {
  errors = load_errors p;
  eta_p = p.eta_p;
  eta_i = p.eta_i;
  eta_d = p.eta_d;
  iw1 = p.iw1;
  iw2 = p.iw2;
  iwe = p.iwe;
  ac1 = p.ac1;
  ac2 = p.ac2;
  mv = p.mv;
}

-- How far the thread is, with its locals: the copies, `index`, and the number of the round.
pub data Phase (D : Type 0) : Type 0 where
  idle : Phase D
  loaded : Locals D → Phase D
  searching : Locals D → ℕ → ℕ → Phase D
  trained : Locals D → Phase D
  adapted : Locals D → Phase D
  written : Phase D
  capped : Phase D

pub record Running (D Q B : Type 0) : Type 0 where
  pub state : State D Q B
  pub phase : Phase D

module _ {D Q B : Type 0} ⦃d : Double D⦄ (draw : ℕ → ℕ) where
  -- the test of the main loop, and its body or what is behind it
  unfoldable pub search_part : Locals D → ℕ → ℕ → State D Q B → Running D Q B
  search_part l index i s =
      let next =
        epoch draw i (record { params = with_locals l s.params; index = index; drawn = s.drawn }) in
      if ltb i max_epoch
      then record {
        state = record s { params = restore s.params next.params; drawn = next.drawn };
        phase = searching l next.index (suc i);
      }
      else record {
        state = record s {
          params = record (s.params) { w_k = s.params.gbest; gbest_index = index };
        };
        phase = trained l;
      }

  -- the next part of the thread's work
  unfoldable pub advance : Phase D → State D Q B → Running D Q B
  advance idle s = record {
    state = record s { params = load_inputs s.params };
    phase = loaded (load_locals s.params);
  }
  advance (loaded l) s =
      let start = start_search s.params s.drawn in
      record {
        state = record s { params = start.params; drawn = start.drawn };
        phase = searching l start.index 0;
      }
  advance (searching l index i) s = search_part l index i s
  advance (trained l) s = record {
    state = record s {
      params = restore s.params (adapt_if_trained l.errors (with_locals l s.params));
    };
    phase = adapted l;
  }
  advance (adapted l) s = record {
    state = record s { params = write_prob l.errors s.params };
    phase = written;
  }
  advance written s = record { state = record s { params = cap_prob s.params }; phase = capped }
  advance capped s = record {
    state = record s { params = raise_prob s.params; prob_number = u32 (s.prob_number + 1) };
    phase = idle;
  }

  -- `n` parts with nothing between them
  unfoldable pub advances : ℕ → Running D Q B → Running D Q B
  advances zero r = r
  advances (suc n) r = advances n (advance r.phase r.state)

abbrev pub IsBusy : {D : Type 0} → Phase D → Type 0
IsBusy idle = ⊥
IsBusy (loaded l) = Unit
IsBusy (searching l index i) = Unit
IsBusy (trained l) = Unit
IsBusy (adapted l) = Unit
IsBusy written = Unit
IsBusy capped = Unit

module _ {D Q Skb B : Type 0} ⦃d : Double D⦄ (k : Kernel Q Skb B) (draw : ℕ → ℕ) where
  -- The controller and the discipline side by side: operations, and changes of the options, come in at
  -- any phase.
  pub data Moves : Running D Q B → Running D Q B → Type 0 where
    done : (r : Running D Q B) → Moves r r
    begins :
        (s : State D Q B) (r : Running D Q B)
        → s.prob_thread ≡ true
        → Moves (advance draw idle s) r
        → Moves (record { state = s; phase = idle }) r
    works :
        (phase : Phase D) (s : State D Q B) (r : Running D Q B)
        → IsBusy phase
        → Moves (advance draw phase s) r
        → Moves (record { state = s; phase = phase }) r
    meets :
        (phase : Phase D) (s t : State D Q B) (r : Running D Q B)
        → Operation k draw s t
        → Moves (record { state = t; phase = phase }) r
        → Moves (record { state = s; phase = phase }) r
    changes :
        (phase : Phase D) (opt : Options D) (s : State D Q B) (r : Running D Q B)
        → AllSensible opt
        → Moves (record { state = (rbfgrad_change k draw opt s).1; phase = phase }) r
        → Moves (record { state = s; phase = phase }) r

  -- What one call that begins in `s` has reached after `n` of its parts, with any operations between.
  pub data Call (s : State D Q B) : ℕ → Running D Q B → Type 0 where
    begun : Call s 1 (advance draw idle s)
    worked :
        (n : ℕ) (phase : Phase D) (t : State D Q B)
        → IsBusy phase
        → Call s n (record { state = t; phase = phase })
        → Call s (suc n) (advance draw phase t)
    met :
        (n : ℕ) (phase : Phase D) (t u : State D Q B)
        → IsBusy phase
        → Operation k draw t u
        → Call s n (record { state = t; phase = phase })
        → Call s n (record { state = u; phase = phase })
