-- ===== src/Pso/Epochs.antt =====
-- include/pso.h: the error that `get_rbf_SSE` returns, and the epoch at which it stops.
use gapso_rbf_pid.Prelude.{
  ℕ, zero, suc, ◌+◌, ◌<◌, ◌≡◌, ◌∙◌, refl, ap, true, false, List, [], ◌∷◌, map, Option, some, none,
  get_or, length, arith, Bool-cases, ◌⊎◌, inl, inr,
}
use gapso_rbf_pid.Prelude.Int.{pos_part}
use gapso_rbf_pid.Double.{Double, ◌⊕◌, ◌⊖◌, ◌⊗◌, ◌⊘◌, ◌≺◌, num}
use gapso_rbf_pid.Exp.{exp, fabs}
use gapso_rbf_pid.Swarm.Track.{length-map}
use gapso_rbf_pid.Pso.{
  Pso, Net, Trained, net_of, dist_row, out_row, all_dist, unit_out, unit_sum, net_errors, sum_sse,
  epoch_errors, epoch_sse, learn, train_epochs, get_rbf_sse,
}

abbrev drop {ℓ} : {A : Type ℓ} → ℕ → List A → List A
drop zero xs = xs
drop (suc n) [] = []
drop (suc n) (x ∷ xs) = drop n xs

get_or-map {ℓ κ} :
    {A : Type ℓ} {B : Type κ} (f : A → B) (xs : List A) (j : ℕ) (y : A) (z : B)
    → j < length xs
    → get_or (map f xs) j z ≡ f (get_or xs j y)
get_or-map f [] j y z h = elim h [ ]
get_or-map f (x ∷ xs) zero y z h = refl
get_or-map f (x ∷ xs) (suc j) y z h = get_or-map f xs j y z (omega arith)

drop-get_or {ℓ} :
    {A : Type ℓ} (xs : List A) (j : ℕ) (y : A)
    → j < length xs
    → drop j xs ≡ get_or xs j y ∷ drop (suc j) xs
drop-get_or [] j y h = elim h [ ]
drop-get_or (x ∷ xs) zero y h = refl
drop-get_or (x ∷ xs) (suc j) y h = drop-get_or xs j y (omega arith)

not_before :
    (P : ℕ → Type 0) (m : ℕ) → P 0 → ((j : ℕ) → j < m → P (suc j)) → (j : ℕ) → j < suc m → P j
not_before P m z s zero h = z
not_before P m z s (suc j) h = s j (omega arith)

module _ {D : Type 0} ⦃d : Double D⦄ where
  open d use {neg}

  -- a radial basis function
  abbrev pub gauss : D → D → D → D
  gauss c s x = exp (neg (fabs (c ⊖ x)) ⊗ fabs (c ⊖ x) ⊘ (s ⊗ s))

  -- the network's value at `x`, without tables
  abbrev pub net_value : D → List D → List D → List D → D → D
  net_value acc (w ∷ ws) (c ∷ cs) (s ∷ ss) x = net_value (acc ⊕ w ⊗ gauss c s x) ws cs ss x
  net_value acc ws cs ss x = acc

  abbrev pub misses : Net D → List D → List D → List D
  misses n (x ∷ xs) (o ∷ os) = (o ⊖ net_value (num 0) n.w n.center n.sp x) ∷ misses n xs os
  misses n xs os = []

  -- the sum of the squared errors over the samples
  abbrev pub net_error : Pso D → Net D → D
  net_error p n = sum_sse (num 0) (misses n p.sam_in p.sam_out)

  -- the arrays after `m` gradient steps
  abbrev pub learned_net : Pso D → ℕ → Net D → Net D
  learned_net p zero n = n
  learned_net p (suc m) n = learned_net p m (learn p n)

  out_row-gauss :
      (c s : D) (xs : List D) (j : ℕ)
      → j < length xs
      → get_or (out_row s (dist_row c xs)) j (num 0) ≡ gauss c s (get_or xs j (num 0))
  unfolding out_row dist_row
  out_row-gauss c s xs j h =
      get_or-map _ (map (λ x. fabs (c ⊖ x)) xs) j (fabs (c ⊖ num 0)) (num 0)
        (omega (arith, length-map (λ x. fabs (c ⊖ x)) xs))
      ∙ ap (λ a. exp (neg a ⊗ a ⊘ (s ⊗ s))) (get_or-map (λ x. fabs (c ⊖ x)) xs j (num 0) _ h)

  unit_sum-net_value :
      (acc : D) (ws cs ss xs : List D) (j : ℕ)
      → j < length xs
      → unit_sum acc ws (unit_out ss (all_dist cs xs)) j
        ≡ net_value acc ws cs ss (get_or xs j (num 0))
  unfolding unit_sum unit_out all_dist
  unit_sum-net_value acc [] cs ss xs j h = refl
  unit_sum-net_value acc (w ∷ ws) [] [] xs j h = refl
  unit_sum-net_value acc (w ∷ ws) [] (s ∷ ss) xs j h = refl
  unit_sum-net_value acc (w ∷ ws) (c ∷ cs) [] xs j h = refl
  unit_sum-net_value acc (w ∷ ws) (c ∷ cs) (s ∷ ss) xs j h =
      rw (out_row-gauss c s xs j h)
        (unit_sum-net_value (acc ⊕ w ⊗ gauss c s (get_or xs j (num 0))) ws cs ss xs j h)

  net_errors-misses :
      (n : Net D) (xs os : List D) (j : ℕ)
      → j + length os ≡ length xs
      → net_errors n.w (unit_out n.sp (all_dist n.center xs)) j os ≡ misses n (drop j xs) os
  unfolding net_errors
  net_errors-misses n xs [] j h = misses_none (drop j xs)
    where
      misses_none : (ys : List D) → [] ≡ misses n ys []
      misses_none [] = refl
      misses_none (y ∷ ys) = refl
  net_errors-misses n xs (o ∷ os) j h =
      rw
        (
          drop-get_or xs j (num 0) (omega arith),
          unit_sum-net_value (num 0) n.w n.center n.sp xs j (omega arith),
          net_errors-misses n xs os (suc j) (omega arith),
        )
        refl

  epoch_sse-net_error :
      (p : Pso D) (n : Net D) → length p.sam_in ≡ length p.sam_out → epoch_sse p n ≡ net_error p n
  unfolding epoch_sse epoch_errors
  epoch_sse-net_error p n h =
      ap (sum_sse (num 0)) (net_errors-misses n p.sam_in p.sam_out 0 (omega arith))

  -- How `k` epochs from the arrays `n` on end: `m` is the epoch that was the last, the error is that
  -- of the arrays before it, and it has changed them unless the error was below E0.
  pub record Stops (p : Pso D) (k : ℕ) (n : Net D) (t : Trained D) : Type 0 where
    pub m : ℕ
    pub last : m < k
    pub sse : t.sse ≡ some (net_error p (learned_net p m n))
    pub before : (j : ℕ) → j < m → (net_error p (learned_net p j n) ≺ p.e0) ≡ false
    pub net :
        (((net_error p (learned_net p m n) ≺ p.e0) ≡ true) × (t.net ≡ learned_net p m n))
        ⊎ (((net_error p (learned_net p m n) ≺ p.e0) ≡ false)
            × (suc m ≡ k)
            × (t.net ≡ learned_net p (suc m) n))

  later-Stops :
      (p : Pso D) (k : ℕ) (n : Net D) (t : Trained D)
      → (net_error p n ≺ p.e0) ≡ false
      → Stops p k (learn p n) t
      → Stops p (suc k) n t
  later-Stops p k n t e q = record {
    m = suc q.m;
    last = omega (arith, q.last);
    sse = q.sse;
    before = not_before (λ j. (net_error p (learned_net p j n) ≺ p.e0) ≡ false) q.m e q.before;
    net = elim (q.net) [ inl h ↦ inl h | inr (e', l, h) ↦ inr (e', ap suc l, h) ];
  }

  Stops-below :
      (p : Pso D) (k : ℕ) (n : Net D)
      → (net_error p n ≺ p.e0) ≡ true
      → Stops p (suc k) n (record { sse = some (net_error p n); net = n })
  Stops-below p k n e = record {
    m = 0;
    last = omega arith;
    sse = refl;
    before = λ j h. absurd (omega arith);
    net = inl (e, refl);
  }

  Stops-last :
      (p : Pso D) (n : Net D)
      → (net_error p n ≺ p.e0) ≡ false
      → Stops p 1 n (record { sse = some (net_error p n); net = learn p n })
  Stops-last p n e = record {
    m = 0;
    last = omega arith;
    sse = refl;
    before = λ j h. absurd (omega arith);
    net = inr (e, refl, refl);
  }

  train_epochs-Stops :
      (p : Pso D) (k : ℕ) (start : Option D) (n : Net D)
      → length p.sam_in ≡ length p.sam_out
      → 0 < k
      → Stops p k n (train_epochs p k start n)
  unfolding train_epochs
  train_epochs-Stops p zero start n h lt = absurd (omega arith)
  train_epochs-Stops p (suc zero) start n h lt =
      rw (epoch_sse-net_error p n h) (elim (Bool-cases (net_error p n ≺ p.e0)) [
        | inl e ↦ rw e (Stops-below p 0 n e)
        | inr e ↦ rw e (Stops-last p n e)
      ])
  train_epochs-Stops p (suc (suc k)) start n h lt =
      let later = train_epochs-Stops p (suc k) (some (epoch_sse p n)) (learn p n) h (omega arith) in
      rw (epoch_sse-net_error p n h) (elim (Bool-cases (net_error p n ≺ p.e0)) [
        | inl e ↦ rw e (Stops-below p (suc k) n e)
        | inr e ↦ rw e (later-Stops p (suc k) n _ e later)
      ])

  -- Where there are as many outputs as inputs and MaxEpoch, cut to an integer, is positive: the
  -- training of a particle ends in the first of MaxEpoch epochs whose error is below E0, or in the
  -- last epoch. What `get_rbf_SSE` returns is the error of the network before this epoch, computed
  -- sample by sample from its units. If it is below E0, the arrays are left as they were before the
  -- epoch; if not, they have had one more gradient step.
  pub get_rbf_sse-Stops :
      (p : Pso D) (which : ℕ)
      → length p.sam_in ≡ length p.sam_out
      → 0 < pos_part (d.to_int p.max_epoch)
      → Stops p (pos_part (d.to_int p.max_epoch)) (net_of p which) (get_rbf_sse p which)
  unfolding get_rbf_sse
  get_rbf_sse-Stops p which h lt =
      train_epochs-Stops p (pos_part (d.to_int p.max_epoch)) none (net_of p which) h lt
