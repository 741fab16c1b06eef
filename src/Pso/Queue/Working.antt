-- ===== src/Pso/Queue/Working.antt =====
-- The steps of a work keep the invariant of a batch.
use gapso_rbf_pid.Prelude.{
  ℕ, suc, ◌-◌, ◌≤◌, ◌<◌, ◌≡◌, ◌≢◌, ◌∙◌, refl, ap, Option, none, some, List, ◌==◌, arith, Bool-cases,
  inl, inr, get_or, [],
}
use gapso_rbf_pid.Prelude.Int.{pos}
use gapso_rbf_pid.Double.{Double, ◌≺◌, num}
use gapso_rbf_pid.Pso.{Pso, net_errors, sum_sse}
use gapso_rbf_pid.Pso.Queue.{
  thread_num, Job, queued, reading, learning, storing, computed, Batch, update, set_job, read_unit,
  find_sse, store_sse, WorkStep, begins, reads, finds, learns, learned, stores,
}
use gapso_rbf_pid.Pso.Queue.Total.{
  turns_of, counted_of, stored_of, InUnits, queued_to, total-update,
}
use gapso_rbf_pid.Pso.Queue.Invariant.{IsBatch, update-elim}

module _ {D : Type 0} ⦃d : Double D⦄ where
  -- A work that goes on, and does not count down.
  goes_on-IsBatch :
      (n units m i : ℕ) (b : Batch D) (a a' : Job D) (p : Pso D) (sse : ℕ → Option D)
      → i < n
      → b.jobs i ≡ a
      → 0 < turns_of units a
      → turns_of units a < turns_of units a'
      → counted_of a ≡ 0
      → counted_of a' ≡ 0
      → InUnits units a'
      → ((j : ℕ) → 0 < stored_of (update b.jobs i a' j) → sse j ≢ none)
      → IsBatch n units m b
      → IsBatch n units (suc m) (record b { pso = p; sse = sse; jobs = update b.jobs i a' })
  goes_on-IsBatch n units m i b a a' p sse h e pos_a more z z' inside stored q =
      let old = ap (turns_of units) e in
      let c' = ap counted_of e in
      let t = total-update (turns_of units) b.jobs i a' n h in
      let c = total-update counted_of b.jobs i a' n h in
      record {
        count = q.count ∙ ap (λ x. pos (thread_num - x)) (omega arith);
        turned = omega (arith, q.turned);
        queued_le = q.queued_le;
        begun =
            update-elim (λ j x. j < queued_to n b.waiter → 0 < turns_of units x) b.jobs i a'
              (λ lt. omega arith) (λ j ne. q.begun j);
        fresh =
            update-elim (λ j x. queued_to n b.waiter ≤ j → turns_of units x ≡ 0) b.jobs i a'
              (λ le. absurd (omega (arith, q.fresh i le))) (λ j ne. q.fresh j);
        in_units = update-elim (λ j x. InUnits units x) b.jobs i a' inside (λ j ne. q.in_units j);
        stored = stored;
        ended = λ lt. omega (arith, q.ended lt);
      }

  -- A work that goes on and stores nothing.
  not_stored :
      (n units m i : ℕ) (b : Batch D) (a' : Job D)
      → stored_of a' ≡ 0
      → IsBatch n units m b
      → (j : ℕ) → 0 < stored_of (update b.jobs i a' j)
      → b.sse j ≢ none
  not_stored n units m i b a' z q =
      update-elim (λ j x. 0 < stored_of x → b.sse j ≢ none) b.jobs i a' (λ lt. absurd (omega arith))
        (λ j ne. q.stored j)

  find_sse-IsBatch :
      (n units m i k : ℕ) (dists outs : List (List D)) (b : Batch D)
      → i < n
      → b.jobs i ≡ reading k dists outs
      → k ≡ units
      → IsBatch n units m b
      → IsBatch n units (suc m) (find_sse i dists outs b)
  unfolding find_sse set_job
  find_sse-IsBatch n units m i k dists outs b h e last q =
      let es = net_errors (get_or b.pso.w_pso i []) outs 0 b.pso.sam_out in
      elim (Bool-cases (sum_sse (num 0) es ≺ b.pso.e0)) [
        | inl t ↦ rw t (
            goes_on-IsBatch n units m i b (reading k dists outs) _ b.pso b.sse h e (omega arith)
              (omega arith) refl refl (omega arith) (not_stored n units m i b _ refl q) q)
        | inr t ↦ rw t (
            goes_on-IsBatch n units m i b (reading k dists outs) _ b.pso b.sse h e (omega arith)
              (omega arith) refl refl (omega arith) (not_stored n units m i b _ refl q) q)
      ]

  store_sse-IsBatch :
      (n units m i : ℕ) (sse : D) (b : Batch D)
      → i < n
      → b.jobs i ≡ storing sse
      → IsBatch n units m b
      → IsBatch n units (suc m) (store_sse i sse b)
  unfolding store_sse
  store_sse-IsBatch n units m i sse b h e q =
      goes_on-IsBatch n units m i b (storing sse) computed b.pso (update b.sse i (some sse)) h e
        (omega arith) (omega arith) refl refl (omega arith)
        (λ j. elim (Bool-cases (j == i)) [
          | inl e' ↦ rw e' (λ lt. λ no. ground arith)
          | inr e' ↦ rw e' (q.stored j)
        ])
        q

  pub WorkStep-IsBatch :
      (n units m i : ℕ) (b c : Batch D) (a : Job D)
      → i < n
      → b.jobs i ≡ a
      → WorkStep units i b a c
      → IsBatch n units m b
      → IsBatch n units (suc m) c
  unfolding set_job read_unit
  WorkStep-IsBatch n units m i b _ _ h e begins q =
      goes_on-IsBatch n units m i b queued (reading 0 [] []) b.pso b.sse h e (omega arith)
        (omega arith) refl refl (omega arith) (not_stored n units m i b _ refl q) q
  WorkStep-IsBatch n units m i b _ _ h e (reads k dists outs lt) q =
      goes_on-IsBatch n units m i b (reading k dists outs) _ b.pso b.sse h e (omega arith)
        (omega arith) refl refl (omega arith) (not_stored n units m i b _ refl q) q
  WorkStep-IsBatch n units m i b _ _ h e (finds k dists outs last) q =
      find_sse-IsBatch n units m i k dists outs b h e last q
  WorkStep-IsBatch n units m i b _ _ h e (learns k sse es dists outs lt) q =
      goes_on-IsBatch n units m i b (learning k sse es dists outs) _ _ b.sse h e (omega arith)
        (omega arith) refl refl (omega arith) (not_stored n units m i b _ refl q) q
  WorkStep-IsBatch n units m i b _ _ h e (learned k sse es dists outs last) q =
      goes_on-IsBatch n units m i b (learning k sse es dists outs) (storing sse) b.pso b.sse h e
        (omega arith) (omega arith) refl refl (omega arith) (not_stored n units m i b _ refl q) q
  WorkStep-IsBatch n units m i b _ _ h e (stores sse) q = store_sse-IsBatch n units m i sse b h e q
