-- ===== src/Pso.antt =====
-- include/pso.h: an older form of the search, which trains centers, widths and weights by gradient
-- steps and evaluates the particles on a work queue. No file of the repository includes it. The arrays
-- have SamNum or UnitNum entries, which are the lengths of the lists here; a count of type `int` is a
-- number.
pub mod Epochs
pub mod SetAt
pub mod Queue
pub mod Learn
pub mod Loop
use gapso_rbf_pid.Prelude.{
  ℕ, zero, suc, List, [], ◌∷◌, map, Option, none, some, if◌then◌else◌, get_or,
}
use gapso_rbf_pid.Prelude.Int.{ℤ, pos_part}
use gapso_rbf_pid.Double.{Double, ◌⊕◌, ◌⊖◌, ◌⊗◌, ◌⊘◌, ◌≺◌, num}
use gapso_rbf_pid.Exp.{exp, fabs}

-- `struct pso`
pub record Pso (D : Type 0) : Type 0 where
  pub in_dim : ℤ
  pub max_epoch : D
  pub e0 : D
  pub sam_in : List D
  pub sam_out : List D
  pub center : List D
  pub sp : List D
  pub w : List D
  pub lr_cent : D
  pub lr_sp : D
  pub lr_w : D
  pub particle_num : ℕ
  pub w_pso : List (List D)
  pub position : List (List D)
  pub vel : List (List D)
  pub iw1 : ℤ
  pub iw2 : ℤ
  pub iwe : ℤ
  pub ac1 : ℤ
  pub ac2 : ℤ
  pub mv : ℤ
  pub mwav : ℤ
  pub ergrd : D
  pub ergrdep : D

-- the arrays Center, SP and W that the training writes
pub record Net (D : Type 0) : Type 0 where
  pub center : List D
  pub sp : List D
  pub w : List D

-- what the loop over the epochs leaves: SSE, which has no value before the first epoch, and the arrays
pub record Trained (D : Type 0) : Type 0 where
  pub sse : Option D
  pub net : Net D

-- W_PSO[which]
unfoldable pub net_of : {D : Type 0} → Pso D → ℕ → Net D
net_of p which = record { center = p.center; sp = p.sp; w = get_or p.w_pso which [] }

module _ {D : Type 0} ⦃d : Double D⦄ where
  open d use {neg, to_int}

  -- AllDist[i]
  unfoldable pub dist_row : D → List D → List D
  dist_row c xs = map (λ x. fabs (c ⊖ x)) xs

  -- UnitOut[i]
  unfoldable pub out_row : D → List D → List D
  out_row s dists = map (λ a. exp (neg a ⊗ a ⊘ (s ⊗ s))) dists

  unfoldable pub all_dist : List D → List D → List (List D)
  all_dist [] xs = []
  all_dist (c ∷ cs) xs = dist_row c xs ∷ all_dist cs xs

  unfoldable pub unit_out : List D → List (List D) → List (List D)
  unit_out (s ∷ ss) (a ∷ rows) = out_row s a ∷ unit_out ss rows
  unit_out ss rows = []

  -- NetOut[j], the sum over the units
  unfoldable pub unit_sum : D → List D → List (List D) → ℕ → D
  unit_sum acc (w ∷ ws) (u ∷ us) j = unit_sum (acc ⊕ w ⊗ get_or u j (num 0)) ws us j
  unit_sum acc ws us j = acc

  -- Error, from sample `j` on
  unfoldable pub net_errors : List D → List (List D) → ℕ → List D → List D
  net_errors ws us j [] = []
  net_errors ws us j (o ∷ os) = (o ⊖ unit_sum (num 0) ws us j) ∷ net_errors ws us (suc j) os

  unfoldable pub sum_sse : D → List D → D
  sum_sse acc [] = acc
  sum_sse acc (e ∷ es) = sum_sse (acc ⊕ e ⊗ e) es

  -- CentGrad, SPGrad and WGrad of one unit
  unfoldable pub cent_grad : D → D → D → D → List D → List D → List D → D
  cent_grad acc c s w (x ∷ xs) (e ∷ es) (u ∷ us) =
      cent_grad (acc ⊕ (x ⊖ c) ⊗ (e ⊗ u ⊗ w ⊘ (s ⊗ s))) c s w xs es us
  cent_grad acc c s w xs es us = acc

  unfoldable pub sp_grad : D → D → D → List D → List D → List D → D
  sp_grad acc s w (a ∷ dists) (e ∷ es) (u ∷ us) =
      sp_grad (acc ⊕ a ⊗ a ⊗ e ⊗ u ⊗ w ⊘ (s ⊗ s ⊗ s)) s w dists es us
  sp_grad acc s w dists es us = acc

  unfoldable pub w_grad : D → List D → List D → D
  w_grad acc (e ∷ es) (u ∷ us) = w_grad (acc ⊕ e ⊗ u) es us
  w_grad acc es us = acc

  -- the loop over the units that writes Center[i], SP[i] and W[i]: the rows of AllDist and UnitOut
  -- are from before it
  unfoldable pub learn_units :
      Pso D → List D → List D → List D → List D → List (List D) → List (List D) → Net D
  learn_units p es (c ∷ cs) (s ∷ ss) (w ∷ ws) (a ∷ rows) (u ∷ us) =
      let rest = learn_units p es cs ss ws rows us in
      record {
        center = (c ⊕ p.lr_cent ⊗ cent_grad (num 0) c s w p.sam_in es u) ∷ rest.center;
        sp = (s ⊕ p.lr_sp ⊗ sp_grad (num 0) s w a es u) ∷ rest.sp;
        w = (w ⊕ p.lr_w ⊗ w_grad (num 0) es u) ∷ rest.w;
      }
  learn_units p es cs ss ws rows us = record { center = cs; sp = ss; w = ws }

  -- Error and SSE of an epoch
  unfoldable pub epoch_errors : Pso D → Net D → List D
  epoch_errors p n = net_errors n.w (unit_out n.sp (all_dist n.center p.sam_in)) 0 p.sam_out

  unfoldable pub epoch_sse : Pso D → Net D → D
  epoch_sse p n = sum_sse (num 0) (epoch_errors p n)

  -- what an epoch makes of the arrays if it does not break
  unfoldable pub learn : Pso D → Net D → Net D
  learn p n =
      let rows = all_dist n.center p.sam_in in
      learn_units p (epoch_errors p n) n.center n.sp n.w rows (unit_out n.sp rows)

  -- the loop over the epochs, with the value that SSE has before it
  unfoldable pub train_epochs : Pso D → ℕ → Option D → Net D → Trained D
  train_epochs p zero sse n = record { sse = sse; net = n }
  train_epochs p (suc k) sse n =
      let rest = train_epochs p k (some (epoch_sse p n)) (learn p n) in
      if epoch_sse p n ≺ p.e0 then record { sse = some (epoch_sse p n); net = n } else rest

  -- The value that is returned, and the arrays, which it has written in place.
  unfoldable pub get_rbf_sse : Pso D → ℕ → Trained D
  get_rbf_sse p which = train_epochs p (pos_part (to_int p.max_epoch)) none (net_of p which)

  -- the work function: one epoch, whatever MaxEpoch is
  unfoldable pub get_rbf_sse_work : Pso D → ℕ → Trained D
  get_rbf_sse_work p which = train_epochs p 1 none (net_of p which)

-- matrix[i] = row
unfoldable pub set_at {ℓ} : {A : Type ℓ} → ℕ → A → List A → List A
set_at i row [] = []
set_at zero row (x ∷ xs) = row ∷ xs
set_at (suc i) row (x ∷ xs) = x ∷ set_at i row xs

-- the arrays as the training left them: Center and SP are shared by all the particles
unfoldable pub put_net : {D : Type 0} → Pso D → ℕ → Net D → Pso D
put_net p which n = record p { center = n.center; sp = n.sp; w_pso = set_at which n.w p.w_pso }
