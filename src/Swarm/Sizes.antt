-- ===== src/Swarm/Sizes.antt =====
-- The sizes of the arrays in the search of `rbfgrad_mark_probability`.
use gapso_rbf_pid.Prelude.{
  ℕ, zero, suc, ◌+◌, ◌*◌, ◌<◌, ◌≡◌, ◌∙◌, ap, refl, true, false, List, [], ◌∷◌, map, arith,
  if◌then◌else◌, length, All, get_or, Bool,
}
use gapso_rbf_pid.Double.{Double, ◌≺◌, num}
use gapso_rbf_pid.Params.{Params, unit_num, particle_num}
use gapso_rbf_pid.Params.Shape.{IsGrid, IsShaped}
use gapso_rbf_pid.Swarm.{
  Search, better_vals, better_places, least, move_row, move_rows, add_row, add_rows, update_gbest,
  update_pbest, start_search, move_particles, epoch, epochs, get_rbf_sse, net_output,
}
use gapso_rbf_pid.Swarm.Best.{get_or-least}
use gapso_rbf_pid.Swarm.Track.{length-map, length-better_vals, length-add_rows}

All-get_or {ℓ κ} :
    {A : Type ℓ} (P : A → Type κ) (xs : List A) (i : ℕ) (z : A)
    → i < length xs
    → All P xs
    → P (get_or xs i z)
All-get_or P [] i z h a = elim h [ ]
All-get_or P (x ∷ xs) zero z h a = a.0
All-get_or P (x ∷ xs) (suc i) z h a = All-get_or P xs i z (omega arith) a.1

module _ {D : Type 0} ⦃d : Double D⦄ where
  length-better_places :
      (vs ss : List D) (bs xs : List (List D)) → length (better_places vs ss bs xs) ≡ length bs
  unfolding better_places
  length-better_places [] ss bs xs = refl
  length-better_places (v ∷ vs) [] bs xs = refl
  length-better_places (v ∷ vs) (s ∷ ss) [] xs = refl
  length-better_places (v ∷ vs) (s ∷ ss) (b ∷ bs) [] = refl
  length-better_places (v ∷ vs) (s ∷ ss) (b ∷ bs) (x ∷ xs) =
      ap suc (length-better_places vs ss bs xs)

  All-better_places :
      (P : List D → Type 0) (vs ss : List D) (bs xs : List (List D))
      → All P bs
      → All P xs
      → All P (better_places vs ss bs xs)
  unfolding better_places
  All-better_places P [] ss bs xs h k = h
  All-better_places P (v ∷ vs) [] bs xs h k = h
  All-better_places P (v ∷ vs) (s ∷ ss) [] xs h k = h
  All-better_places P (v ∷ vs) (s ∷ ss) (b ∷ bs) [] h k = h
  All-better_places P (v ∷ vs) (s ∷ ss) (b ∷ bs) (x ∷ xs) (h, hs) (k, ks) =
      (choose (s ≺ v), All-better_places P vs ss bs xs hs ks)
    where
      choose : (c : Bool) → P (if c then x else b)
      choose true = k
      choose false = h

  better_places-IsGrid :
      (vs ss : List D) (bs xs : List (List D))
      → IsGrid unit_num particle_num bs
      → IsGrid unit_num particle_num xs
      → IsGrid unit_num particle_num (better_places vs ss bs xs)
  better_places-IsGrid vs ss bs xs (e, h) (_, k) = (
    length-better_places vs ss bs xs ∙ e,
    All-better_places (λ row. length row ≡ unit_num) vs ss bs xs h k,
  )

  length-add_row : (xs vs : List D) → length (add_row xs vs) ≡ length xs
  unfolding add_row
  length-add_row [] vs = refl
  length-add_row (x ∷ xs) [] = refl
  length-add_row (x ∷ xs) (v ∷ vs) = ap suc (length-add_row xs vs)

  All-add_rows :
      (m : ℕ) (xs vs : List (List D))
      → All (λ row. length row ≡ m) xs
      → All (λ row. length row ≡ m) (add_rows xs vs)
  unfolding add_rows
  All-add_rows m [] vs h = tt
  All-add_rows m (x ∷ xs) [] h = h
  All-add_rows m (x ∷ xs) (v ∷ vs) (h, hs) = (length-add_row x v ∙ h, All-add_rows m xs vs hs)

  module _ (draw : ℕ → ℕ) where
    length-move_row :
        (p : Params D) (w : D) (vs bs xs gs : List D) (k : ℕ)
        → length (move_row draw p w vs bs xs gs k) ≡ length vs
    unfolding move_row
    length-move_row p w [] bs xs gs k = refl
    length-move_row p w (v ∷ vs) [] xs gs k = refl
    length-move_row p w (v ∷ vs) (b ∷ bs) [] gs k = refl
    length-move_row p w (v ∷ vs) (b ∷ bs) (x ∷ xs) [] k = refl
    length-move_row p w (v ∷ vs) (b ∷ bs) (x ∷ xs) (g ∷ gs) k =
        ap suc (length-move_row p w vs bs xs gs (k + 2))

    move_rows-IsGrid :
        (m n : ℕ) (p : Params D) (w : D) (vs bs xs : List (List D)) (k : ℕ)
        → IsGrid m n vs
        → IsGrid m n (move_rows draw p w vs bs xs k)
    unfolding move_rows
    move_rows-IsGrid m n p w [] bs xs k h = h
    move_rows-IsGrid m n p w (v ∷ vs) [] xs k h = h
    move_rows-IsGrid m n p w (v ∷ vs) (b ∷ bs) [] k h = h
    move_rows-IsGrid m n p w (v ∷ vs) (b ∷ bs) (x ∷ xs) k (e, (h, hs)) =
        let (e', hs') = move_rows-IsGrid m (length vs) p w vs bs xs (k + 2 * unit_num) (refl, hs) in
        (ap suc e' ∙ e, (length-move_row p w v b x p.gbest k ∙ h, hs'))

  -- The sizes of the arrays between two steps of the search, and the limit that it does not change.
  pub record IsSized (mv : D) (p : Params D) : Type 0 where
    pub limit : p.mv ≡ mv
    pub position : IsGrid unit_num particle_num p.position
    pub vel : IsGrid unit_num particle_num p.vel
    pub pbest : IsGrid unit_num particle_num p.pbest
    pub pbestval : length p.pbestval ≡ particle_num
    pub net_out : length p.net_out ≡ particle_num
    pub gbest : length p.gbest ≡ unit_num

  gbest-size :
      (vals : List D) (places : List (List D))
      → length vals ≡ particle_num
      → IsGrid unit_num particle_num places
      → length (get_or places (least vals).1 []) ≡ unit_num
  gbest-size vals places e (e', rows) =
      let (fits, _) = get_or-least vals (num 0) (omega arith) in
      All-get_or (λ row. length row ≡ unit_num) places (least vals).1 [] (omega arith) rows

  pub start_search-IsSized :
      (p : Params D) (k : ℕ) → IsShaped p → IsSized p.mv (start_search p k).params
  unfolding start_search update_gbest
  start_search-IsSized p k h =
      let vals = map (get_rbf_sse p) p.position in
      let count = length-map (get_rbf_sse p) p.position ∙ h.position.0 in
      record {
        limit = refl;
        position = h.position;
        vel = h.vel;
        pbest = h.position;
        pbestval = count;
        net_out = length-map (net_output p) p.position ∙ h.position.0;
        gbest = gbest-size vals p.position count h.position;
      }

  pub update-IsSized :
      (mv : D) (p : Params D) (k : ℕ)
      → IsSized mv p
      → IsSized mv (update_gbest (update_pbest p) k).params
  unfolding update_gbest update_pbest
  update-IsSized mv p k h =
      let sse = map (get_rbf_sse p) p.position in
      let places = better_places p.pbestval sse p.pbest p.position in
      let grid = better_places-IsGrid p.pbestval sse p.pbest p.position h.pbest h.position in
      let count = length-better_vals p.pbestval sse ∙ h.pbestval in
      record {
        limit = h.limit;
        position = h.position;
        vel = h.vel;
        pbest = grid;
        pbestval = count;
        net_out = length-map (net_output p) p.position ∙ h.position.0;
        gbest = gbest-size (better_vals p.pbestval sse) places count grid;
      }

  move_particles-IsSized :
      (draw : ℕ → ℕ) (mv : D) (i : ℕ) (s : Search D)
      → IsSized mv s.params
      → IsSized mv (move_particles draw i s).params
  unfolding move_particles
  move_particles-IsSized draw mv i s h = record {
    limit = h.limit;
    position = (length-add_rows _ _ ∙ h.position.0, All-add_rows unit_num _ _ h.position.1);
    vel =
        move_rows-IsGrid draw unit_num particle_num s.params _ s.params.vel s.params.pbest
          s.params.position s.drawn h.vel;
    pbest = h.pbest;
    pbestval = h.pbestval;
    net_out = h.net_out;
    gbest = h.gbest;
  }

  pub epoch-IsSized :
      (draw : ℕ → ℕ) (mv : D) (i : ℕ) (s : Search D)
      → IsSized mv s.params
      → IsSized mv (epoch draw i s).params
  unfolding epoch
  epoch-IsSized draw mv i s h =
      move_particles-IsSized draw mv i (update_gbest (update_pbest s.params) s.drawn)
        (update-IsSized mv s.params s.drawn h)

  pub epochs-IsSized :
      (draw : ℕ → ℕ) (mv : D) (n i : ℕ) (s : Search D)
      → IsSized mv s.params
      → IsSized mv (epochs draw n i s).params
  unfolding epochs
  epochs-IsSized draw mv zero i s h = h
  epochs-IsSized draw mv (suc n) i s h =
      epochs-IsSized draw mv n (suc i) (epoch draw i s) (epoch-IsSized draw mv i s h)
