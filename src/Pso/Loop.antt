-- ===== src/Pso/Loop.antt =====
-- include/pso.h: the endings of `pso_learn`: the bounds of its arrays, its waits and its main loop.
use gapso_rbf_pid.Prelude.{ℕ, ◌≤◌, ◌<◌, ◌≡◌, true, List, ◌⊎◌, Option, none, some}
use gapso_rbf_pid.Prelude.Int.{ℤ, pos, ◌+ℤ◌}
use gapso_rbf_pid.Double.{Double}
use gapso_rbf_pid.Pso.{Pso}
use gapso_rbf_pid.Pso.Queue.{thread_num}
use gapso_rbf_pid.Pso.Learn.{
  Learning, Ending, returned, works_outside, waits, outside, divided, running, Round, goes_on,
  breaks, crashes, has_settled,
}

-- the wait for a batch, as it is where no signal comes and the work function keeps what it must
pub record IsBatchOf {D : Type 0} (batch : Pso D → Option (Pso D × List D)) : Type 0 where
  -- fewer works than THREAD_NUM never bring the count to 0
  pub too_few : (q : Pso D) → q.particle_num < thread_num → batch q ≡ none
  pub enough :
      (q : Pso D)
      → q.particle_num ≡ thread_num
      → (r : Pso D × List D) × (batch q ≡ some r)
        × (r.0.particle_num ≡ thread_num)
        × (r.0.ergrdep ≡ q.ergrdep)

module _ {D : Type 0} ⦃d : Double D⦄ where
  -- Of at most `j` rounds in a row without progress, the count from 0, or from what cnt2 held at
  -- first, reaches `e`.
  abbrev pub Settles : D → ℤ → ℕ → Type 0
  Settles e cnt2 j =
      (m : ℕ) × (m ≤ j) × ((has_settled e (pos m) ≡ true) ⊎ (has_settled e (cnt2 +ℤ pos m) ≡ true))

  -- Within `j` rounds the loop returns only where the count of rounds can reach `e`; it still goes
  -- round where it does not return.
  abbrev pub EndsOnly : D → ℤ → ℕ → Ending D → Type 0
  EndsOnly e cnt2 j (returned q) = Settles e cnt2 j
  EndsOnly e cnt2 j works_outside = ⊥
  EndsOnly e cnt2 j waits = ⊥
  EndsOnly e cnt2 j outside = ⊥
  EndsOnly e cnt2 j divided = ⊥
  EndsOnly e cnt2 j running = Unit

  -- what holds after `j` rounds
  record Counted (e : D) (cnt2 : ℤ) (j : ℕ) (l : Learning D) : Type 0 where
    pub particles : l.pso.particle_num ≡ thread_num
    pub same : l.pso.ergrdep ≡ e
    pub m : ℕ
    pub bounded : m ≤ j
    pub counts : (l.cnt2 ≡ pos m) ⊎ (l.cnt2 ≡ cnt2 +ℤ pos m)

  abbrev RoundsOn : D → ℤ → ℕ → Round D → Type 0
  RoundsOn e cnt2 j (goes_on l) = Counted e cnt2 j l
  RoundsOn e cnt2 j (breaks l) = Settles e cnt2 j
  RoundsOn e cnt2 j (crashes x) = ⊥
