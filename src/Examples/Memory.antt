-- ===== src/Examples/Memory.antt =====
-- A concrete ring and a concrete layout of the options, with one byte for a double or a `u32` and two
-- for an `int`, and a read of the /proc file behind calls of the probe that fill the ring.
use mathlib.Core.List.{cons-ne-nil}
use gapso_rbf_pid.Prelude.{
  ℕ, zero, suc, ◌+◌, ◌-◌, ◌≡◌, ◌∙◌, refl, ap, List, [], ◌∷◌, ◌++◌, length, take, drop, get_or,
  arith,
}
use gapso_rbf_pid.Prelude.Int.{ℤ, pos, negsuc, pos_part, neg_part, sub_ℕ}
use gapso_rbf_pid.Params.{Qopt}
use gapso_rbf_pid.Tc.{no_options}
use gapso_rbf_pid.Report.Probe.{rbfgrad_show, rbfgrad_start, rbfgrad_next}
use gapso_rbf_pid.Report.Drain.{Drain, fitting, first_over, beyond}
use gapso_rbf_pid.Report.Ring.{Ring, IsRing, Layout, IsLayout}
use gapso_rbf_pid.Report.Recorded.{options_fifo, kept_of, room_left, probe_all, probe_all-Drain}
use gapso_rbf_pid.Examples.Binary64.{Binary64}
use gapso_rbf_pid.Examples.Inputs.{options}

record Bytes : Type 0 where
  held : List ℕ
  free : ℕ

abbrev ring : Ring Bytes
ring = record {
  kfifo_in = λ b f.
      (length (take f.free b), record { held = f.held ++ take f.free b; free = f.free - length b });
  kfifo_out = λ n f.
      (take n f.held, record { held = drop n f.held; free = f.free + length (take n f.held) });
  bytes = λ f. f.held;
  room = λ f. f.free;
}

take_of_nothing : (n : ℕ) (b : List ℕ) → b ≡ [] → (drop n b ≡ b) × (length (take n b) ≡ 0)
take_of_nothing zero b e = (refl, refl)
take_of_nothing (suc n) [] e = (refl, refl)
take_of_nothing (suc n) (c ∷ b) e = absurd (cons-ne-nil c b e)

out_of_nothing :
    (n : ℕ) (f : Bytes)
    → f.held ≡ []
    → ◌≡◌ {A = Bytes} (record { held = drop n f.held; free = f.free + length (take n f.held) }) f
out_of_nothing n f e =
    let (same, nothing) = take_of_nothing n f.held e in
    λ i. record { held = same i; free = (ap (λ m. f.free + m) nothing ∙ add_zero f.free) i }
  where
    add_zero : (m : ℕ) → m + 0 ≡ m
    add_zero m = omega arith

ring-IsRing : IsRing ring
ring-IsRing = record {
  in_bytes = λ b f. refl;
  in_room = λ b f. refl;
  out_bytes = λ n f. refl;
  out_left = λ n f. refl;
  out_empty = λ n f e. out_of_nothing n f e;
}

abbrev layout : Layout (Qopt ℕ)
layout = record {
  size = 22;
  to_bytes = λ t.
      pos_part t.q_ref
      ∷ neg_part t.q_ref
      ∷ t.p_init
      ∷ t.p_min
      ∷ t.p_max
      ∷ t.kp_k
      ∷ t.ki_k
      ∷ t.kd_k
      ∷ t.eta_p
      ∷ t.eta_i
      ∷ t.eta_d
      ∷ pos_part t.n
      ∷ neg_part t.n
      ∷ pos_part t.m
      ∷ neg_part t.m
      ∷ t.alpha
      ∷ t.eta
      ∷ pos_part t.sampl_period
      ∷ neg_part t.sampl_period
      ∷ t.scell_log
      ∷ t.limit
      ∷ t.flags
      ∷ [];
  of_bytes = λ b. record {
    q_ref = sub_ℕ (get_or b 0 0) (get_or b 1 0);
    p_init = get_or b 2 0;
    p_min = get_or b 3 0;
    p_max = get_or b 4 0;
    kp_k = get_or b 5 0;
    ki_k = get_or b 6 0;
    kd_k = get_or b 7 0;
    eta_p = get_or b 8 0;
    eta_i = get_or b 9 0;
    eta_d = get_or b 10 0;
    n = sub_ℕ (get_or b 11 0) (get_or b 12 0);
    m = sub_ℕ (get_or b 13 0) (get_or b 14 0);
    alpha = get_or b 15 0;
    eta = get_or b 16 0;
    sampl_period = sub_ℕ (get_or b 17 0) (get_or b 18 0);
    scell_log = get_or b 19 0;
    limit = get_or b 20 0;
    flags = get_or b 21 0;
  };
}

sub_ℕ-parts : (i : ℤ) → sub_ℕ (pos_part i) (neg_part i) ≡ i
sub_ℕ-parts (pos n) = ground arith
sub_ℕ-parts (negsuc n) = ground arith

layout-IsLayout : IsLayout layout
layout-IsLayout = record {
  positive = omega arith;
  length-to_bytes = λ t. refl;
  of_bytes-to_bytes = λ t.
      rw (sub_ℕ-parts t.q_ref, sub_ℕ-parts t.n, sub_ℕ-parts t.m, sub_ℕ-parts t.sampl_period) refl;
}

abbrev small : Bytes
small = record { held = []; free = 50 }

abbrev many : List (Qopt ℕ)
many = options ∷ options ∷ options ∷ options ∷ []

-- two whole records fit, and the first six bytes of the third one
probe_all-Drain_example :
    (f' : Bytes) × Drain rbfgrad_show
      (rbfgrad_next (options_fifo ring layout))
      (rbfgrad_start (options_fifo ring layout) 0)
      0
      (probe_all ring layout many small)
      (no_options ∷ fitting rbfgrad_show (room_left ring layout) (kept_of ring layout many small))
      (first_over rbfgrad_show (room_left ring layout) (kept_of ring layout many small))
      f'
    × ((options_fifo ring layout).contents f'
        ≡ beyond rbfgrad_show (room_left ring layout) (kept_of ring layout many small))
unfolding Binary64
probe_all-Drain_example =
    probe_all-Drain ring layout ring-IsRing layout-IsLayout many small refl (omega arith) refl
