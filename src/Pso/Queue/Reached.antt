-- ===== src/Pso/Queue/Reached.antt =====
-- Every batch that is reached keeps the invariant.
use gapso_rbf_pid.Prelude.{ℕ, suc, ◌≤◌, Option, length}
use gapso_rbf_pid.Double.{Double}
use gapso_rbf_pid.Pso.{Pso}
use gapso_rbf_pid.Pso.Queue.{
  thread_num, Batch, Turn, queues, waits, works, counts, passes, Reach, starts, turns, interrupts,
}
use gapso_rbf_pid.Pso.Queue.Invariant.{
  IsBatch, start_batch-IsBatch, queues-IsBatch, counts-IsBatch, waits-IsBatch, interrupts-IsBatch,
  passes-IsBatch,
}
use gapso_rbf_pid.Pso.Queue.Working.{WorkStep-IsBatch}

module _ {D : Type 0} ⦃d : Double D⦄ where
  Turn-IsBatch :
      (n units m : ℕ) (b c : Batch D)
      → n ≤ thread_num
      → Turn n units b c
      → IsBatch n units m b
      → IsBatch n units (suc m) c
  Turn-IsBatch n units m _ _ small (queues i b h e) q = queues-IsBatch n units m i b h e q
  Turn-IsBatch n units m _ _ small (waits b e) q = waits-IsBatch n units m b e q
  Turn-IsBatch n units m _ _ small (works i b c a h e s) q =
      WorkStep-IsBatch n units m i b c a h e s q
  Turn-IsBatch n units m _ _ small (counts i b h e) q = counts-IsBatch n units m i b small h e q
  Turn-IsBatch n units m _ _ small (passes b e z) q = passes-IsBatch n units m b e z q

  pub Reach-IsBatch :
      (n : ℕ) (p : Pso D) (sse : ℕ → Option D) (m : ℕ) (b : Batch D)
      → n ≤ thread_num
      → Reach n p sse m b
      → IsBatch n (length p.center) m b
  Reach-IsBatch n p sse _ _ small starts = start_batch-IsBatch n (length p.center) p sse
  Reach-IsBatch n p sse _ _ small (turns m b c r t) =
      Turn-IsBatch n (length p.center) m b c small t (Reach-IsBatch n p sse m b small r)
  Reach-IsBatch n p sse _ _ small (interrupts m b r e) =
      interrupts-IsBatch n (length p.center) m b e (Reach-IsBatch n p sse m b small r)
