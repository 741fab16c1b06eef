-- ===== src/Pso/Queue/Invariant.antt =====
-- The invariant of a batch of `pso_learn` in include/pso.h.
use gapso_rbf_pid.Prelude.{
  ℕ, suc, ◌+◌, ◌-◌, ◌≤◌, ◌<◌, ◌≡◌, ◌≢◌, ◌∙◌, sym, refl, ap, true, false, Option, none, ◌==◌, arith,
  Bool-cases, inl, inr,
}
use mathlib.Core.Path.{subst}
use gapso_rbf_pid.Prelude.Int.{pos, pos_part, ◌-ℤ◌}
use gapso_rbf_pid.Double.{Double}
use gapso_rbf_pid.Pso.{Pso}
use gapso_rbf_pid.Pso.Queue.{
  thread_num, queued, computed, finished, queueing, waiting, interrupted, passed, Batch, update,
  start_batch, unused, queue_work, count_down, set_waiter,
}
use gapso_rbf_pid.Pso.Queue.Total.{
  turns_of, counted_of, stored_of, InUnits, waiter_turns, has_passed, queued_to, total,
  total-update, total-le, counted_of-le, total-unused, idle_uncounted,
}

-- What holds of the new entry and of the others holds everywhere.
pub update-elim {ℓ} :
    {A : Type ℓ} (P : ℕ → A → Type 0) (f : ℕ → A) (i : ℕ) (a : A)
    → P i a
    → ((j : ℕ) → j ≢ i → P j (f j))
    → (j : ℕ) → P j (update f i a j)
update-elim P f i a new old j = elim (Bool-cases (j == i)) [
  | inl e ↦ rw e (subst (λ k. P k a) {x = i} {y = j} (index_eq j i e) new)
  | inr e ↦ rw e (old j (index_ne j i e))
]
  where
    index_eq : (j i : ℕ) → (j == i) ≡ true → i ≡ j
    index_eq j i e = ground arith

    index_ne : (j i : ℕ) → (j == i) ≡ false → j ≢ i
    index_ne j i e = λ h. ground arith

pub count_one_less :
    (x y : ℕ) → x < thread_num → y ≡ suc x → pos (thread_num - x) -ℤ pos 1 ≡ pos (thread_num - y)
unfolding ◌-ℤ◌
count_one_less x y h e = ground arith

module _ {D : Type 0} ⦃d : Double D⦄ where
  -- After `m` turns, with `n` particles and `units` units.
  pub record IsBatch (n units m : ℕ) (b : Batch D) : Type 0 where
    pub count : b.count ≡ pos (thread_num - total counted_of b.jobs n)
    pub turned : m ≤ total (turns_of units) b.jobs n + waiter_turns b.waiter
    pub queued_le : queued_to n b.waiter ≤ n
    pub begun : (i : ℕ) → i < queued_to n b.waiter → 0 < turns_of units (b.jobs i)
    pub fresh : (i : ℕ) → queued_to n b.waiter ≤ i → turns_of units (b.jobs i) ≡ 0
    pub in_units : (i : ℕ) → InUnits units (b.jobs i)
    pub stored : (i : ℕ) → 0 < stored_of (b.jobs i) → b.sse i ≢ none
    pub ended : 0 < has_passed b.waiter → thread_num ≤ total counted_of b.jobs n

  pub start_batch-IsBatch :
      (n units : ℕ) (p : Pso D) (sse : ℕ → Option D)
      → IsBatch n units 0 (start_batch (λ i. unused) p sse)
  unfolding start_batch
  start_batch-IsBatch n units p sse =
      let c = total-unused {D = D} counted_of n refl in
      record {
        count = ap (λ x. pos (thread_num - x)) (sym c);
        turned = omega arith;
        queued_le = omega arith;
        begun = λ i h. absurd (omega arith);
        fresh = λ i h. refl;
        in_units = λ i. omega arith;
        stored = λ i h. absurd (omega arith);
        ended = λ h. absurd (omega arith);
      }

  pub queues-IsBatch :
      (n units m i : ℕ) (b : Batch D)
      → i < n
      → b.waiter ≡ queueing i
      → IsBatch n units m b
      → IsBatch n units (suc m) (queue_work i b)
  unfolding queue_work
  queues-IsBatch n units m i b h e q =
      let to = ap (queued_to n) e in
      let old = q.fresh i (omega arith) in
      let t = total-update (turns_of units) b.jobs i queued n h in
      let c = total-update counted_of b.jobs i queued n h in
      let c' = idle_uncounted units (b.jobs i) old in
      let w = ap waiter_turns e in
      record {
        count = q.count ∙ ap (λ x. pos (thread_num - x)) (omega arith);
        turned = omega (arith, q.turned);
        queued_le = omega arith;
        begun =
            update-elim (λ j a. j < suc i → 0 < turns_of units a) b.jobs i queued
              (λ lt. omega arith) (λ j ne lt. q.begun j (omega arith));
        fresh =
            update-elim (λ j a. suc i ≤ j → turns_of units a ≡ 0) b.jobs i queued
              (λ le. absurd (omega arith)) (λ j ne le. q.fresh j (omega arith));
        in_units =
            update-elim (λ j a. InUnits units a) b.jobs i queued (omega arith)
              (λ j ne. q.in_units j);
        stored =
            update-elim (λ j a. 0 < stored_of a → b.sse j ≢ none) b.jobs i queued
              (λ lt. absurd (omega arith)) (λ j ne. q.stored j);
        ended = λ lt. absurd (omega arith);
      }

  pub counts-IsBatch :
      (n units m i : ℕ) (b : Batch D)
      → n ≤ thread_num
      → i < n
      → b.jobs i ≡ computed
      → IsBatch n units m b
      → IsBatch n units (suc m) (count_down i b)
  unfolding count_down
  counts-IsBatch n units m i b small h e q =
      let old = ap (turns_of units) e in
      let c' = ap counted_of e in
      let s = ap stored_of e in
      let t = total-update (turns_of units) b.jobs i finished n h in
      let c = total-update counted_of b.jobs i finished n h in
      let room =
        total-le counted_of 1 (update b.jobs i finished) n
          (λ j. counted_of-le (update b.jobs i finished j)) in
      record {
        count = ap (λ x. x -ℤ pos 1) q.count ∙ count_one_less _ _ (omega arith) (omega arith);
        turned = omega (arith, q.turned);
        queued_le = q.queued_le;
        begun =
            update-elim (λ j a. j < queued_to n b.waiter → 0 < turns_of units a) b.jobs i finished
              (λ lt. omega arith) (λ j ne. q.begun j);
        fresh =
            update-elim (λ j a. queued_to n b.waiter ≤ j → turns_of units a ≡ 0) b.jobs i finished
              (λ le. absurd (omega (arith, q.fresh i le))) (λ j ne. q.fresh j);
        in_units =
            update-elim (λ j a. InUnits units a) b.jobs i finished (omega arith)
              (λ j ne. q.in_units j);
        stored =
            update-elim (λ j a. 0 < stored_of a → b.sse j ≢ none) b.jobs i finished
              (λ lt. q.stored i (omega arith)) (λ j ne. q.stored j);
        ended = λ lt. omega (arith, q.ended lt);
      }

  -- A step of the waiter that changes nothing else.
  pub waits-IsBatch :
      (n units m : ℕ) (b : Batch D)
      → b.waiter ≡ queueing n
      → IsBatch n units m b
      → IsBatch n units (suc m) (set_waiter waiting b)
  unfolding set_waiter
  waits-IsBatch n units m b e q =
      let to = ap (queued_to n) e in
      let w = ap waiter_turns e in
      record {
        count = q.count;
        turned = omega (arith, q.turned);
        queued_le = omega arith;
        begun = λ i lt. q.begun i (omega arith);
        fresh = λ i le. q.fresh i (omega arith);
        in_units = q.in_units;
        stored = q.stored;
        ended = λ lt. absurd (omega arith);
      }

  pub interrupts-IsBatch :
      (n units m : ℕ) (b : Batch D)
      → b.waiter ≡ waiting
      → IsBatch n units m b
      → IsBatch n units (suc m) (set_waiter interrupted b)
  unfolding set_waiter
  interrupts-IsBatch n units m b e q =
      let to = ap (queued_to n) e in
      let w = ap waiter_turns e in
      record {
        count = q.count;
        turned = omega (arith, q.turned);
        queued_le = omega arith;
        begun = λ i lt. q.begun i (omega arith);
        fresh = λ i le. q.fresh i (omega arith);
        in_units = q.in_units;
        stored = q.stored;
        ended = λ lt. absurd (omega arith);
      }

  pub passes-IsBatch :
      (n units m : ℕ) (b : Batch D)
      → b.waiter ≡ waiting
      → b.count ≡ pos 0
      → IsBatch n units m b
      → IsBatch n units (suc m) (set_waiter passed b)
  unfolding set_waiter
  passes-IsBatch n units m b e z q =
      let to = ap (queued_to n) e in
      let w = ap waiter_turns e in
      let c = ap pos_part (sym q.count ∙ z) in
      record {
        count = q.count;
        turned = omega (arith, q.turned);
        queued_le = omega arith;
        begun = λ i lt. q.begun i (omega arith);
        fresh = λ i le. q.fresh i (omega arith);
        in_units = q.in_units;
        stored = q.stored;
        ended = λ lt. omega arith;
      }
