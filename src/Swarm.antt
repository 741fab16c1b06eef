-- ===== src/Swarm.antt =====
-- modules/sch_rbfgrad.c: the particle swarm that trains the weights of the RBF network, the first
-- part of `rbfgrad_mark_probability`, and `get_rbf_SSE`. A loop over an array is a recursion on its
-- list; a two-dimensional loop is one on the rows.
pub mod Best
pub mod Frame
pub mod Sizes
pub mod Speed
pub mod Track
pub mod Learn
use gapso_rbf_pid.Prelude.{ℕ, zero, suc, ◌+◌, ◌*◌, List, [], ◌∷◌, map, if◌then◌else◌, get_or}
use gapso_rbf_pid.Prelude.Int.{ℤ, pos}
use gapso_rbf_pid.Double.{Double, ◌⊕◌, ◌⊖◌, ◌⊗◌, ◌⊘◌, ◌≺◌, num}
use gapso_rbf_pid.Exp.{exp}
use gapso_rbf_pid.Params.{Params, particle_num, unit_num, max_epoch}
use gapso_rbf_pid.Params.Init.{random32, rand_span}

-- The state of the search: the parameters, the local `index`, and the draws made so far.
pub record Search (D : Type 0) : Type 0 where
  pub params : Params D
  pub index : ℕ
  pub drawn : ℕ

module _ {D : Type 0} ⦃d : Double D⦄ where
  open d use {neg, of_int, dec}

  -- sum[i] = sum[i] + (SamIn[j]-c_k[i][j])*(SamIn[j]-c_k[i][j])
  unfoldable pub sum_squares : D → List D → List D → D
  sum_squares acc [] cs = acc
  sum_squares acc (x ∷ xs) [] = acc
  sum_squares acc (x ∷ xs) (c ∷ cs) = sum_squares (acc ⊕ (x ⊖ c) ⊗ (x ⊖ c)) xs cs

  -- r[i], the value of a hidden unit with this center and width
  unfoldable pub hidden : List D → List D → D → D
  hidden input center delta = exp (neg (sum_squares (num 0) input center) ⊘ (num 2 ⊗ delta ⊗ delta))

  -- NetOut[which] = NetOut[which] + w[i] * r[i]
  unfoldable pub net_sum : D → List D → List D → List (List D) → List D → D
  net_sum acc input (w ∷ ws) (c ∷ cs) (e ∷ es) = net_sum (acc ⊕ w ⊗ hidden input c e) input ws cs es
  net_sum acc input ws cs es = acc

  -- a queue length over 6500.00
  abbrev pub scaled : ℤ → D
  scaled len = of_int len ⊘ dec 650000 2

  -- What `get_rbf_SSE` stores in NetOut[which], for the particle with the position `w`.
  unfoldable pub net_output : Params D → List D → D
  net_output p w = net_sum (num 0) p.sam_in w p.c_k p.delta_k

  -- What `get_rbf_SSE` returns.
  unfoldable pub get_rbf_sse : Params D → List D → D
  get_rbf_sse p w =
      let miss = scaled (get_or p.queue_len 0 (pos 0)) ⊖ net_output p w in miss ⊗ miss ⊘ num 2

  -- The search for the least value: the best one so far, its index, and the index of the next one.
  unfoldable pub least_from : D → ℕ → ℕ → List D → D × ℕ
  least_from v index j [] = (v, index)
  least_from v index j (x ∷ xs) =
      least_from (if x ≺ v then x else v) (if x ≺ v then j else index) (suc j) xs

  unfoldable pub least : List D → D × ℕ
  unfolding least_from
  least vals = least_from (get_or vals 0 (num 0)) 0 0 vals

  -- if(pbestval[j]>SSE[j]): the two arrays that it writes
  unfoldable pub better_vals : List D → List D → List D
  better_vals (v ∷ vs) (s ∷ ss) = (if s ≺ v then s else v) ∷ better_vals vs ss
  better_vals vs ss = vs

  unfoldable pub better_places : List D → List D → List (List D) → List (List D) → List (List D)
  better_places (v ∷ vs) (s ∷ ss) (b ∷ bs) (x ∷ xs) =
      (if s ≺ v then x else b) ∷ better_places vs ss bs xs
  better_places vs ss bs xs = bs

  -- the two tests after the update of a velocity
  unfoldable pub clamp_speed : D → D → D
  clamp_speed mv v = let v' = if mv ≺ v then mv else v in if v' ≺ neg mv then neg mv else v'

  -- iwt[i]
  unfoldable pub inertia : Params D → ℕ → D
  inertia p i = if num i ≺ p.iwe then (p.iw2 ⊖ p.iw1) ⊘ (p.iwe ⊖ num 1) ⊗ num i ⊕ p.iw1 else p.iw2

  -- gbestval, index and gbest from pbestval and pbest
  unfoldable pub update_gbest : Params D → ℕ → Search D
  update_gbest p k =
      let (v, j) = least p.pbestval in
      record {
        params = record p { gbestval = v; gbest = get_or p.pbest j [] };
        index = j;
        drawn = k;
      }

  -- "initial pbest positions vals", then pbestval, gbestval and gbest
  unfoldable pub start_search : Params D → ℕ → Search D
  start_search p k =
      update_gbest
        (record p {
          pbest = p.position;
          pbestval = map (get_rbf_sse p) p.position;
          net_out = map (net_output p) p.position;
        })
        k

  -- "update pbest" of every particle
  unfoldable pub update_pbest : Params D → Params D
  update_pbest p =
      let sse = map (get_rbf_sse p) p.position in
      record p {
        pbestval = better_vals p.pbestval sse;
        pbest = better_places p.pbestval sse p.pbest p.position;
        net_out = map (net_output p) p.position;
      }

module _ {D : Type 0} ⦃d : Double D⦄ (draw : ℕ → ℕ) where
  -- (double)random32()/(RAND_MAX+1.0)
  abbrev pub rannum : ℕ → D
  rannum k = num (random32 draw k) ⊘ rand_span

  -- the velocities of one particle, from draw `k` on
  unfoldable pub move_row : Params D → D → List D → List D → List D → List D → ℕ → List D
  move_row p iwt (v ∷ vs) (b ∷ bs) (x ∷ xs) (g ∷ gs) k =
      clamp_speed p.mv (iwt ⊗ v ⊕ p.ac1 ⊗ rannum k ⊗ (b ⊖ x) ⊕ p.ac2 ⊗ rannum (k + 1) ⊗ (g ⊖ x))
      ∷ move_row p iwt vs bs xs gs (k + 2)
  move_row p iwt vs bs xs gs k = vs

  -- those of every particle
  unfoldable pub move_rows :
      Params D → D → List (List D) → List (List D) → List (List D) → ℕ → List (List D)
  move_rows p iwt (v ∷ vs) (b ∷ bs) (x ∷ xs) k =
      move_row p iwt v b x p.gbest k ∷ move_rows p iwt vs bs xs (k + 2 * unit_num)
  move_rows p iwt vs bs xs k = vs

module _ {D : Type 0} ⦃d : Double D⦄ where
  -- pos[j][k] = pos[j][k] + vel[j][k]
  unfoldable pub add_row : List D → List D → List D
  add_row (x ∷ xs) (v ∷ vs) = (x ⊕ v) ∷ add_row xs vs
  add_row xs vs = xs

  unfoldable pub add_rows : List (List D) → List (List D) → List (List D)
  add_rows (x ∷ xs) (v ∷ vs) = add_row x v ∷ add_rows xs vs
  add_rows xs vs = xs

module _ {D : Type 0} ⦃d : Double D⦄ (draw : ℕ → ℕ) where
  -- velocities, then positions
  unfoldable pub move_particles : ℕ → Search D → Search D
  move_particles i s =
      let p = s.params in
      let vel' = move_rows draw p (inertia p i) p.vel p.pbest p.position s.drawn in
      record s {
        params = record p { vel = vel'; position = add_rows p.position vel' };
        drawn = s.drawn + particle_num * (2 * unit_num);
      }

  -- the body of the main loop
  unfoldable pub epoch : ℕ → Search D → Search D
  epoch i s = move_particles i (update_gbest (update_pbest s.params) s.drawn)

  -- `n` rounds of the main loop, from round `i` on
  unfoldable pub epochs : ℕ → ℕ → Search D → Search D
  epochs zero i s = s
  epochs (suc n) i s = epochs n (suc i) (epoch i s)

  -- The whole search, with the network's weights and gbest_index set from its result.
  unfoldable pub train : Params D → ℕ → Search D
  train p k =
      let s = epochs max_epoch 0 (start_search p k) in
      record s { params = record (s.params) { w_k = s.params.gbest; gbest_index = s.index } }
