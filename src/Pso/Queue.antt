-- ===== src/Pso/Queue.antt =====
-- include/pso.h: one batch of `pso_learn`, which queues the work of each particle and waits until
-- `task_run_count` is 0. The kernel's work queue runs each queued work once, in any order; its
-- functions are not part of the repository. Works compute at the same time, on the Center and SP that
-- they share: a step of a work reads or writes one unit, or stores SSE[which], or counts down. The
-- wait ends when it finds the count at 0, or by a signal, and `pso_learn` does not ask which.
pub mod Total
pub mod Invariant
pub mod Working
pub mod Reached
pub mod Counted
pub mod Ends
pub mod Step
pub mod Rows
pub mod Written
pub mod Alone
use gapso_rbf_pid.Prelude.{
  ℕ, zero, suc, ◌+◌, ◌<◌, ◌≡◌, ◌≢◌, Option, none, some, ◌==◌, if◌then◌else◌, List, [], ◌∷◌, ◌++◌,
  length, get_or,
}
use gapso_rbf_pid.Prelude.Int.{ℤ, pos, ◌-ℤ◌}
use gapso_rbf_pid.Double.{Double, ◌⊕◌, ◌⊗◌, ◌≺◌, num}
use gapso_rbf_pid.Pso.{
  Pso, dist_row, out_row, net_errors, sum_sse, cent_grad, sp_grad, w_grad, set_at,
}

-- THREAD_NUM, also the number of entries of `rbf_work`
abbrev pub thread_num : ℕ
thread_num = 10

-- one entry of `rbf_work`, with the locals of its work function
pub data Job (D : Type 0) : Type 0 where
  unused queued : Job D
  -- the rows of AllDist and UnitOut for the first `k` units
  reading : ℕ → List (List D) → List (List D) → Job D
  -- SSE, Error and the rows of all units; the arrays of the first `k` units are written
  learning : ℕ → D → List D → List (List D) → List (List D) → Job D
  storing : D → Job D
  computed finished : Job D

-- the thread of `pso_learn`: it queues work `i` next, waits, or goes on, after a signal
-- or as the count is 0
pub data Waiter : Type 0 where
  queueing : ℕ → Waiter
  waiting : Waiter
  interrupted : Waiter
  passed : Waiter

pub record Batch (D : Type 0) : Type 0 where
  pub pso : Pso D
  -- SSE, which is allocated and not initialised
  pub sse : ℕ → Option D
  -- task_run_count
  pub count : ℤ
  pub jobs : ℕ → Job D
  pub waiter : Waiter

abbrev pub update {ℓ} : {A : Type ℓ} → (ℕ → A) → ℕ → A → ℕ → A
update f i a j = if j == i then a else f j

module _ {D : Type 0} ⦃d : Double D⦄ where
  -- atomic_set(&task_run_count,THREAD_NUM), and the loop that queues starts; works of a batch before
  -- it that was interrupted may still be in `jobs`
  unfoldable pub start_batch : (ℕ → Job D) → Pso D → (ℕ → Option D) → Batch D
  start_batch jobs p sse = record {
    pso = p;
    sse = sse;
    count = pos thread_num;
    jobs = jobs;
    waiter = queueing 0;
  }

  -- queue_work(my_workqueue,&(rbf_work[i].my_work))
  unfoldable pub queue_work : ℕ → Batch D → Batch D
  queue_work i b = record b { jobs = update b.jobs i queued; waiter = queueing (suc i) }

  unfoldable pub set_job : ℕ → Job D → Batch D → Batch D
  set_job i a b = record b { jobs = update b.jobs i a }

  -- the rows of unit `k`, from Center[k] and SP[k]
  unfoldable pub read_unit : ℕ → ℕ → List (List D) → List (List D) → Batch D → Batch D
  read_unit i k dists outs b =
      let row = dist_row (get_or b.pso.center k (num 0)) b.pso.sam_in in
      set_job i
        (reading (k + 1) (dists ++ (row ∷ []))
          (outs ++ (out_row (get_or b.pso.sp k (num 0)) row ∷ [])))
        b

  -- Error and SSE, and the test on SSE
  unfoldable pub find_sse : ℕ → List (List D) → List (List D) → Batch D → Batch D
  find_sse i dists outs b =
      let es = net_errors (get_or b.pso.w_pso i []) outs 0 b.pso.sam_out in
      let sse = sum_sse (num 0) es in
      set_job i (if sse ≺ b.pso.e0 then storing sse else learning 0 sse es dists outs) b

  -- the gradients of unit `k`, and the writes of Center[k], SP[k] and W[k]
  unfoldable pub learn_unit : ℕ → ℕ → List D → List (List D) → List (List D) → Pso D → Pso D
  learn_unit i k es dists outs p =
      let c = get_or p.center k (num 0) in
      let s = get_or p.sp k (num 0) in
      let ws = get_or p.w_pso i [] in
      let w = get_or ws k (num 0) in
      let u = get_or outs k [] in
      record p {
        center = set_at k (c ⊕ p.lr_cent ⊗ cent_grad (num 0) c s w p.sam_in es u) p.center;
        sp = set_at k (s ⊕ p.lr_sp ⊗ sp_grad (num 0) s w (get_or dists k []) es u) p.sp;
        w_pso = set_at i (set_at k (w ⊕ p.lr_w ⊗ w_grad (num 0) es u) ws) p.w_pso;
      }

  -- SSE[which]=SSE
  unfoldable pub store_sse : ℕ → D → Batch D → Batch D
  store_sse i sse b = record b { sse = update b.sse i (some sse); jobs = update b.jobs i computed }

  -- what the work function does next, up to its store of SSE[which]; there are `units` units
  pub data WorkStep (units i : ℕ) (b : Batch D) : Job D → Batch D → Type 0 where
    begins : WorkStep units i b queued (set_job i (reading 0 [] []) b)
    reads :
        (k : ℕ) (dists outs : List (List D))
        → k < units
        → WorkStep units i b (reading k dists outs) (read_unit i k dists outs b)
    finds :
        (k : ℕ) (dists outs : List (List D))
        → k ≡ units
        → WorkStep units i b (reading k dists outs) (find_sse i dists outs b)
    learns :
        (k : ℕ) (sse : D) (es : List D) (dists outs : List (List D))
        → k < units
        → WorkStep units i b
            (learning k sse es dists outs)
            (record (set_job i (learning (k + 1) sse es dists outs) b) {
              pso = learn_unit i k es dists outs b.pso;
            })
    learned :
        (k : ℕ) (sse : D) (es : List D) (dists outs : List (List D))
        → k ≡ units
        → WorkStep units i b (learning k sse es dists outs) (set_job i (storing sse) b)
    stores : (sse : D) → WorkStep units i b (storing sse) (store_sse i sse b)

  -- atomic_dec_and_test(&task_run_count)
  unfoldable pub count_down : ℕ → Batch D → Batch D
  count_down i b = record b { count = b.count -ℤ pos 1; jobs = update b.jobs i finished }

  unfoldable pub set_waiter : Waiter → Batch D → Batch D
  set_waiter w b = record b { waiter = w }

  -- what a thread of the work queue, or the one that waits, may do next; there are `n` particles
  pub data Turn (n units : ℕ) : Batch D → Batch D → Type 0 where
    queues : (i : ℕ) (b : Batch D) → i < n → b.waiter ≡ queueing i → Turn n units b (queue_work i b)
    waits : (b : Batch D) → b.waiter ≡ queueing n → Turn n units b (set_waiter waiting b)
    works :
        (i : ℕ) (b c : Batch D) (a : Job D)
        → i < n
        → b.jobs i ≡ a
        → WorkStep units i b a c
        → Turn n units b c
    counts : (i : ℕ) (b : Batch D) → i < n → b.jobs i ≡ computed → Turn n units b (count_down i b)
    passes :
        (b : Batch D) → b.waiter ≡ waiting → b.count ≡ pos 0 → Turn n units b (set_waiter passed b)

  -- after `m` turns and signals of a batch that began with `p` and `sse` and with no work left of a
  -- batch before it
  pub data Reach (n : ℕ) (p : Pso D) (sse : ℕ → Option D) : ℕ → Batch D → Type 0 where
    starts : Reach n p sse 0 (start_batch (λ i. unused) p sse)
    turns :
        (m : ℕ) (b c : Batch D)
        → Reach n p sse m b
        → Turn n (length p.center) b c
        → Reach n p sse (suc m) c
    interrupts :
        (m : ℕ) (b : Batch D)
        → Reach n p sse m b
        → b.waiter ≡ waiting
        → Reach n p sse (suc m) (set_waiter interrupted b)
