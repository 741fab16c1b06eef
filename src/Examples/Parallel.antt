-- ===== src/Examples/Parallel.antt =====
-- Examples of the theorems on the search of include/pso.h.
use gapso_rbf_pid.Prelude.{
  ℕ, ◌+◌, ◌*◌, ◌≤◌, ◌<◌, ◌≡◌, ◌≢◌, inl, inr, refl, List, [], ◌∷◌, Option, none, some, arith,
  replicate, ltb, if◌then◌else◌,
}
use gapso_rbf_pid.Prelude.Int.{pos, pos_part}
use gapso_rbf_pid.Pso.{Pso, net_of, get_rbf_sse, get_rbf_sse_work, put_net}
use gapso_rbf_pid.Pso.Epochs.{Stops, get_rbf_sse-Stops}
use gapso_rbf_pid.Pso.Queue.{
  thread_num, computed, finished, update, passed, Batch, start_batch, unused, queue_work, Reach,
  starts, turns, queues,
}
use gapso_rbf_pid.Pso.Queue.Ends.{Goes, passed-finished, batch-Goes, batch_run}
use gapso_rbf_pid.Pso.Queue.Step.{Alone, After}
use gapso_rbf_pid.Pso.Queue.Alone.{work-Alone}
use gapso_rbf_pid.Examples.Binary64.{Binary64}

-- one sample, one unit and one particle, for two epochs
abbrev one_unit : Pso ℕ
one_unit = record {
  in_dim = pos 1;
  max_epoch = 0x4000_0000_0000_0000;
  e0 = 0x3eb0_c6f7_a0b5_ed8d;
  sam_in = 0x3fe0_0000_0000_0000 ∷ [];
  sam_out = 0x3fd0_0000_0000_0000 ∷ [];
  center = 0 ∷ [];
  sp = 0x3ff0_0000_0000_0000 ∷ [];
  w = 0 ∷ [];
  lr_cent = 0x3fb9_9999_9999_999a;
  lr_sp = 0x3fb9_9999_9999_999a;
  lr_w = 0x3fb9_9999_9999_999a;
  particle_num = 1;
  w_pso = (0x3fe0_0000_0000_0000 ∷ []) ∷ [];
  position = (0x3fe0_0000_0000_0000 ∷ []) ∷ [];
  vel = (0 ∷ []) ∷ [];
  iw1 = pos 1;
  iw2 = pos 0;
  iwe = pos 2;
  ac1 = pos 2;
  ac2 = pos 2;
  mv = pos 1;
  mwav = pos 1;
  ergrd = 0x3eb0_c6f7_a0b5_ed8d;
  ergrdep = 0x4000_0000_0000_0000;
}

two_epochs : 0 < pos_part (Binary64.to_int one_unit.max_epoch)
unfolding Binary64
two_epochs = omega arith

get_rbf_sse-Stops_example :
    Stops one_unit
      (pos_part (Binary64.to_int one_unit.max_epoch))
      (net_of one_unit 0)
      (get_rbf_sse one_unit 0)
get_rbf_sse-Stops_example = get_rbf_sse-Stops one_unit 0 refl two_epochs

abbrev not_set : ℕ → Option ℕ
not_set i = none

-- a batch of ten particles, run to its end
full_run : (m : ℕ) × (b : Batch ℕ) × Reach 10 one_unit not_set m b × (b.waiter ≡ passed)
unfolding start_batch
full_run =
    let (m, b, r, e) =
      batch_run 83 10 0 one_unit not_set (start_batch (λ i. unused) one_unit not_set) (omega arith)
        starts (omega arith) refl in
    elim e [ inl e' ↦ (m, b, r, e'.1) | inr e' ↦ absurd (omega (arith, e'.0)) ]

passed-finished_example :
    (10 ≡ thread_num) × (full_run.1.jobs 3 ≡ finished) × (full_run.1.sse 3 ≢ none)
passed-finished_example =
    passed-finished 10 full_run.0 one_unit not_set full_run.1 3 (omega arith) full_run.2 full_run.3
      (omega arith)

abbrev one_queued : Batch ℕ
one_queued = queue_work 0 (start_batch (λ i. unused) one_unit not_set)

one_turn : Reach 4 one_unit not_set 1 one_queued
unfolding start_batch
one_turn =
    turns 0 (start_batch (λ i. unused) one_unit not_set) one_queued starts
      (queues 0 (start_batch (λ i. unused) one_unit not_set) (omega arith) refl)

batch-Goes_example : (1 ≤ (6 + 2 * 1) * 4 + 2) × Goes 4 1 one_queued
batch-Goes_example = batch-Goes 4 1 one_unit not_set one_queued (omega arith) one_turn

work-Alone_example :
    let t = get_rbf_sse_work one_queued.pso 0 in
    (sse : ℕ) × (t.sse ≡ some sse)
    × ((c : Batch ℕ) × Alone 1 0 one_queued c
        × After 0 one_queued c computed
            (put_net one_queued.pso 0 t.net)
            (update one_queued.sse 0 (some sse)))
unfolding start_batch queue_work
work-Alone_example = work-Alone 0 one_queued refl refl (omega arith) refl

-- ten particles, and 20 epochs
abbrev ten_particles : Pso ℕ
ten_particles = record one_unit {
  max_epoch = 0x4034_0000_0000_0000;
  particle_num = 10;
  w_pso = replicate 10 (0x3fe0_0000_0000_0000 ∷ []);
  position = replicate 10 (0x3fe0_0000_0000_0000 ∷ []);
  vel = replicate 10 (0 ∷ []);
}

-- a batch that finds the error 1 and changes nothing, and an `abs` that changes nothing
abbrev quiet_batch : Pso ℕ → Option (Pso ℕ × List ℕ)
quiet_batch p =
    if ltb p.particle_num thread_num then none else some (p, replicate 10 0x3ff0_0000_0000_0000)

abbrev same_abs : ℕ → ℕ
same_abs x = x

abbrev zeros : ℕ → ℕ
zeros i = 0
