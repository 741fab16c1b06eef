-- ===== src/Pso/Queue/Ends.antt =====
-- How a batch of `pso_learn` in include/pso.h ends.
use gapso_rbf_pid.Prelude.{
  ℕ, zero, suc, ◌+◌, ◌*◌, ◌≤◌, ◌<◌, ◌≡◌, ◌≢◌, ◌∙◌, refl, ap, Option, none, arith, length, ◌⊎◌, inl,
  inr,
}
use gapso_rbf_pid.Prelude.Int.{pos}
use gapso_rbf_pid.Double.{Double}
use gapso_rbf_pid.Pso.{Pso}
use gapso_rbf_pid.Pso.Queue.{
  thread_num, Job, unused, queued, reading, learning, storing, computed, finished, Waiter, queueing,
  waiting, interrupted, passed, Batch, queue_work, count_down, set_waiter, set_job, read_unit,
  find_sse, store_sse, WorkStep, begins, reads, finds, learns, learned, stores, Turn, queues, waits,
  works, counts, passes, Reach, turns,
}
use gapso_rbf_pid.Pso.Queue.Total.{
  turns_of, counted_of, stored_of, InUnits, waiter_turns, has_passed, queued_to, total-le,
  turns_of-le, counted_of-le,
}
use gapso_rbf_pid.Pso.Queue.Invariant.{IsBatch}
use gapso_rbf_pid.Pso.Queue.Reached.{Reach-IsBatch}
use gapso_rbf_pid.Pso.Queue.Counted.{counted_all, counted-finished, unfinished}

-- 1 where a signal has ended the wait
abbrev pub signalled : Waiter → ℕ
signalled (queueing i) = 0
signalled waiting = 0
signalled interrupted = 1
signalled passed = 0

module _ {D : Type 0} ⦃d : Double D⦄ where
  -- With at most THREAD_NUM particles: the wait ends without a signal only if there are THREAD_NUM of
  -- them, and then the work of each is finished and has stored a value in SSE.
  pub passed-finished :
      (n m : ℕ) (p : Pso D) (sse : ℕ → Option D) (b : Batch D) (i : ℕ)
      → n ≤ thread_num
      → Reach n p sse m b
      → b.waiter ≡ passed
      → i < n
      → (n ≡ thread_num) × (b.jobs i ≡ finished) × (b.sse i ≢ none)
  passed-finished n m p sse b i small r e lt =
      let q = Reach-IsBatch n p sse m b small r in
      let w = ap has_passed e in
      let full = q.ended (omega arith) in
      let room = total-le counted_of 1 b.jobs n (λ j. counted_of-le (b.jobs j)) in
      let last = counted-finished (b.jobs i) (counted_all b.jobs n i (omega arith) lt) in
      (omega arith, last, q.stored i (omega (arith, ap stored_of last)))

  -- the next turn of a job that is queued and has not counted down
  job-Turn :
      (n units i : ℕ) (b : Batch D) (a : Job D)
      → b.jobs i ≡ a
      → i < n
      → 0 < turns_of units a
      → counted_of a ≡ 0
      → InUnits units a
      → (c : Batch D) × Turn n units b c
  job-Turn n units i b unused e lt h z inside = absurd (omega arith)
  job-Turn n units i b queued e lt h z inside = (_, works i b _ queued lt e begins)
  job-Turn n units i b (reading k dists outs) e lt h z inside = elim (below k units inside) [
    | inl more ↦ (_, works i b _ (reading k dists outs) lt e (reads k dists outs more))
    | inr last ↦ (_, works i b _ (reading k dists outs) lt e (finds k dists outs last))
  ]
    where
      below : (k units : ℕ) → k ≤ units → (k < units) ⊎ (k ≡ units)
      below k units h = ground arith
  job-Turn n units i b (learning k sse es dists outs) e lt h z inside =
      elim (below k units inside) [
        | inl more ↦ (_, works i b _ _ lt e (learns k sse es dists outs more))
        | inr last ↦ (_, works i b _ _ lt e (learned k sse es dists outs last))
      ]
    where
      below : (k units : ℕ) → k ≤ units → (k < units) ⊎ (k ≡ units)
      below k units h = ground arith
  job-Turn n units i b (storing sse) e lt h z inside = (_, works i b _ _ lt e (stores sse))
  job-Turn n units i b computed e lt h z inside = (count_down i b, counts i b lt e)
  job-Turn n units i b finished e lt h z inside = absurd (omega arith)

  -- a turn, or the end
  abbrev pub Goes : ℕ → ℕ → Batch D → Type 0
  Goes n units b =
      ((c : Batch D) × Turn n units b c)
      ⊎ ((n ≡ thread_num) × (b.waiter ≡ passed))
      ⊎ ((n < thread_num) × (b.waiter ≡ waiting))
      ⊎ (b.waiter ≡ interrupted)

  Goes-queueing :
      (n units m i : ℕ) (b : Batch D) → IsBatch n units m b → b.waiter ≡ queueing i → Goes n units b
  Goes-queueing n units m i b q e =
      let to = ap (queued_to n) e in
      elim (below n i (omega (arith, q.queued_le))) [
        | inl lt ↦ inl (queue_work i b, queues i b lt e)
        | inr e' ↦ inl (set_waiter waiting b, waits b (e ∙ ap queueing e'))
      ]
    where
      below : (n i : ℕ) → i ≤ n → (i < n) ⊎ (i ≡ n)
      below n i lt = ground arith

  Goes-waiting :
      (n units m : ℕ) (b : Batch D)
      → n ≤ thread_num
      → IsBatch n units m b
      → b.waiter ≡ waiting
      → Goes n units b
  Goes-waiting n units m b small q e = elim (unfinished b.jobs n) [
    | inl h ↦
        let room = total-le counted_of 1 b.jobs n (λ j. counted_of-le (b.jobs j)) in
        elim (all_of thread_num n small) [
          | inl lt ↦ inr (inr (inl (lt, e)))
          | inr e' ↦ inl (set_waiter passed b, passes b e (q.count ∙ ap pos {y = 0} (omega arith)))
        ]
    | inr (i, lt, z) ↦
        let to = ap (queued_to n) e in
        inl (job-Turn n units i b (b.jobs i) refl lt (q.begun i (omega arith)) z (q.in_units i))
  ]
    where
      all_of : (k n : ℕ) → n ≤ k → (n < k) ⊎ (n ≡ k)
      all_of k n h = ground arith

  Goes-passed :
      (n units m : ℕ) (b : Batch D)
      → n ≤ thread_num
      → IsBatch n units m b
      → b.waiter ≡ passed
      → Goes n units b
  Goes-passed n units m b small q e =
      let w = ap has_passed e in
      let full = q.ended (omega arith) in
      let room = total-le counted_of 1 b.jobs n (λ j. counted_of-le (b.jobs j)) in
      inr (inl (omega arith, e))

  goes : (n units m : ℕ) (b : Batch D) → n ≤ thread_num → IsBatch n units m b → Goes n units b
  goes n units m b small q = at (b.waiter) refl
    where
      at : (w : Waiter) → b.waiter ≡ w → Goes n units b
      at (queueing i) e = Goes-queueing n units m i b q e
      at waiting e = Goes-waiting n units m b small q e
      at interrupted e = inr (inr (inr e))
      at passed e = Goes-passed n units m b small q e

  -- With at most THREAD_NUM particles, whatever the order of the turns: a batch has at most
  -- 2 * UnitNum + 6 turns for each particle and two more, a signal counted as one. Where no turn is left and no signal
  -- has come, the wait has ended if there are THREAD_NUM particles, and goes on if there are fewer.
  pub batch-Goes :
      (n m : ℕ) (p : Pso D) (sse : ℕ → Option D) (b : Batch D)
      → n ≤ thread_num
      → Reach n p sse m b
      → (m ≤ (6 + 2 * length p.center) * n + 2) × Goes n (length p.center) b
  batch-Goes n m p sse b small r =
      let units = length p.center in
      let q = Reach-IsBatch n p sse m b small r in
      (
        omega (
          arith,
          q.turned,
          total-le (turns_of units) (6 + 2 * units) b.jobs n
              (λ j. turns_of-le units (b.jobs j) (q.in_units j)),
          waiter_le b.waiter,
        ),
        goes n units m b small q,
      )
    where
      waiter_le : (w : Waiter) → waiter_turns w ≤ 2
      waiter_le (queueing i) = omega arith
      waiter_le waiting = omega arith
      waiter_le interrupted = omega arith
      waiter_le passed = omega arith

  WorkStep-signalled :
      (units i : ℕ) (b c : Batch D) (a : Job D)
      → WorkStep units i b a c
      → signalled b.waiter ≡ 0
      → signalled c.waiter ≡ 0
  unfolding set_job read_unit find_sse store_sse
  WorkStep-signalled units i b _ _ begins z = z
  WorkStep-signalled units i b _ _ (reads k dists outs lt) z = z
  WorkStep-signalled units i b _ _ (finds k dists outs e) z = z
  WorkStep-signalled units i b _ _ (learns k sse es dists outs lt) z = z
  WorkStep-signalled units i b _ _ (learned k sse es dists outs e) z = z
  WorkStep-signalled units i b _ _ (stores sse) z = z

  Turn-signalled :
      (n units : ℕ) (b c : Batch D)
      → Turn n units b c
      → signalled b.waiter ≡ 0
      → signalled c.waiter ≡ 0
  unfolding queue_work count_down set_waiter
  Turn-signalled n units _ _ (queues i b h e) z = refl
  Turn-signalled n units _ _ (waits b e) z = refl
  Turn-signalled n units _ _ (works i b c a h e s) z = WorkStep-signalled units i b c a s z
  Turn-signalled n units _ _ (counts i b h e) z = z
  Turn-signalled n units _ _ (passes b e h) z = refl

  -- Where no signal has come, turns can be taken until none is left.
  pub batch_run :
      (fuel n m : ℕ) (p : Pso D) (sse : ℕ → Option D) (b : Batch D)
      → n ≤ thread_num
      → Reach n p sse m b
      → (6 + 2 * length p.center) * n + 3 ≤ fuel + m
      → signalled b.waiter ≡ 0
      → (m' : ℕ) × (b' : Batch D) × Reach n p sse m' b'
        × (((n ≡ thread_num) × (b'.waiter ≡ passed)) ⊎ ((n < thread_num) × (b'.waiter ≡ waiting)))
  batch_run zero n m p sse b small r h z =
      absurd (omega (arith, (batch-Goes n m p sse b small r).0))
  batch_run (suc fuel) n m p sse b small r h z = elim ((batch-Goes n m p sse b small r).1) [
    | inl (c, t) ↦
        batch_run fuel n (suc m) p sse c small (turns m b c r t) (omega arith)
          (Turn-signalled n (length p.center) b c t z)
    | inr (inl e) ↦ (m, b, r, inl e)
    | inr (inr (inl e)) ↦ (m, b, r, inr e)
    | inr (inr (inr e)) ↦ absurd (omega (arith, ap signalled e))
  ]
