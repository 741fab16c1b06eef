-- ===== src/Swarm/Track.antt =====
-- The arrays of the search of `rbfgrad_mark_probability` and the places that they stand for.
use gapso_rbf_pid.Prelude.{
  ℕ, zero, suc, ◌<◌, ◌≡◌, ◌∙◌, sym, ap, refl, List, [], ◌∷◌, map, arith, get_or, length, All,
}
use gapso_rbf_pid.Double.{Double, IsOrdered, IsNumber, num}
use gapso_rbf_pid.Params.{Params}
use gapso_rbf_pid.Swarm.{
  Search, get_rbf_sse, net_output, least, better_vals, better_places, update_gbest, update_pbest,
  start_search, move_particles, add_rows, epoch,
}
use gapso_rbf_pid.Swarm.Best.{get_or-least}

get_or-map {ℓ κ} :
    {A : Type ℓ} {B : Type κ} (f : A → B) (xs : List A) (i : ℕ) (y : A) (z : B)
    → i < length (map f xs)
    → get_or (map f xs) i z ≡ f (get_or xs i y)
get_or-map f [] i y z h = elim h [ ]
get_or-map f (x ∷ xs) zero y z h = refl
get_or-map f (x ∷ xs) (suc i) y z h = get_or-map f xs i y z (omega arith)

some_map {ℓ κ} :
    {A : Type ℓ} {B : Type κ} (f : A → B) (xs : List A) → 0 < length xs → 0 < length (map f xs)
some_map f [] h = h
some_map f (x ∷ xs) h = omega arith

pub length-map {ℓ κ} :
    {A : Type ℓ} {B : Type κ} (f : A → B) (xs : List A) → length (map f xs) ≡ length xs
length-map f [] = refl
length-map f (x ∷ xs) = ap suc (length-map f xs)

All-map {ℓ κ μ} :
    {A : Type ℓ} {B : Type κ} (P : B → Type μ) (f : A → B) (xs : List A)
    → All (λ x. P (f x)) xs
    → All P (map f xs)
All-map P f [] h = tt
All-map P f (x ∷ xs) (h, hs) = (h, All-map P f xs hs)

module _ {D : Type 0} ⦃d : Double D⦄ where
  -- Writing the better place keeps the better value beside it.
  map-better_places :
      (f : List D → D) (bs xs : List (List D))
      → map f (better_places (map f bs) (map f xs) bs xs) ≡ better_vals (map f bs) (map f xs)
  unfolding better_places better_vals
  map-better_places f [] xs = refl
  map-better_places f (b ∷ bs) [] = refl
  map-better_places f (b ∷ bs) (x ∷ xs) = ground (arith, map-better_places f bs xs)

  vals-better :
      (f g : List D → D) (vals : List D) (bs xs : List (List D))
      → g ≡ f
      → vals ≡ map f bs
      → better_vals vals (map g xs) ≡ map f (better_places vals (map g xs) bs xs)
  vals-better f g vals bs xs e e' = rw (e, e') (sym (map-better_places f bs xs))

  get_rbf_sse-update_pbest : (p : Params D) → get_rbf_sse (update_pbest p) ≡ get_rbf_sse p
  unfolding update_pbest get_rbf_sse net_output
  get_rbf_sse-update_pbest p = refl

  get_rbf_sse-move_particles :
      (draw : ℕ → ℕ) (i : ℕ) (s : Search D)
      → get_rbf_sse (move_particles draw i s).params ≡ get_rbf_sse s.params
  unfolding move_particles get_rbf_sse net_output
  get_rbf_sse-move_particles draw i s = refl

  place-least :
      (f : List D → D) (bs : List (List D))
      → 0 < length (map f bs)
      → let (v, i) = least (map f bs) in f (get_or bs i []) ≡ v
  place-least f bs h =
      let (fits, at) = get_or-least (map f bs) (num 0) h in
      sym (get_or-map f bs _ [] (num 0) fits) ∙ at

  -- In the state `s`, with `f` for the error of the network that the search started with: the error
  -- is still `f`, pbestval and gbestval are the errors of pbest and gbest, and gbestval is the least.
  pub record IsTracked (f : List D → D) (s : Search D) : Type 0 where
    pub network : get_rbf_sse s.params ≡ f
    pub vals : s.params.pbestval ≡ map f s.params.pbest
    pub best : s.params.gbestval ≡ (least s.params.pbestval).0
    pub place : f s.params.gbest ≡ s.params.gbestval
    pub some_val : 0 < length s.params.pbestval
    pub numbers : All IsNumber s.params.pbestval
    pub count : length s.params.position ≡ length s.params.pbestval

  update_gbest-IsTracked :
      (f : List D → D) (p : Params D) (k : ℕ)
      → get_rbf_sse p ≡ f
      → p.pbestval ≡ map f p.pbest
      → 0 < length p.pbestval
      → All IsNumber p.pbestval
      → length p.position ≡ length p.pbestval
      → IsTracked f (update_gbest p k)
  unfolding update_gbest get_rbf_sse net_output
  update_gbest-IsTracked f p k net vals some_val numbers count = record {
    network = net;
    vals = vals;
    best = refl;
    place = rw vals (place-least f p.pbest (rw vals at some_val));
    some_val = some_val;
    numbers = numbers;
    count = count;
  }

  pub length-better_vals : (vs ss : List D) → length (better_vals vs ss) ≡ length vs
  unfolding better_vals
  length-better_vals [] ss = refl
  length-better_vals (v ∷ vs) [] = refl
  length-better_vals (v ∷ vs) (s ∷ ss) = ap suc (length-better_vals vs ss)

  pub length-add_rows : (xs vs : List (List D)) → length (add_rows xs vs) ≡ length xs
  unfolding add_rows
  length-add_rows [] vs = refl
  length-add_rows (x ∷ xs) [] = refl
  length-add_rows (x ∷ xs) (v ∷ vs) = ap suc (length-add_rows xs vs)

  pub start_search-IsTracked :
      (p : Params D) (k : ℕ)
      → 0 < length p.position
      → All (λ w. IsNumber (get_rbf_sse p w)) p.position
      → IsTracked (get_rbf_sse p) (start_search p k)
  unfolding start_search
  start_search-IsTracked p k h numbers =
      update_gbest-IsTracked (get_rbf_sse p) _ k (unfold get_rbf_sse net_output in refl) refl
        (some_map (get_rbf_sse p) p.position h)
        (All-map IsNumber (get_rbf_sse p) p.position numbers)
        (sym (length-map (get_rbf_sse p) p.position))

  module _ (laws : IsOrdered D) where
    open laws use {lt_numbers}

    better_vals-numbers : (vs ss : List D) → All IsNumber vs → All IsNumber (better_vals vs ss)
    unfolding better_vals
    better_vals-numbers [] ss h = tt
    better_vals-numbers (v ∷ vs) [] h = h
    better_vals-numbers (v ∷ vs) (s ∷ ss) (h, hs) =
        (ground (arith, lt_numbers s v), better_vals-numbers vs ss hs)

    update_pbest-IsTracked :
        (f : List D → D) (s : Search D)
        → IsTracked f s
        → IsTracked f (update_gbest (update_pbest s.params) s.drawn)
    unfolding update_pbest
    update_pbest-IsTracked f s h =
        let p = s.params in
        let sse = map (get_rbf_sse p) p.position in
        update_gbest-IsTracked f (update_pbest p) s.drawn (get_rbf_sse-update_pbest p ∙ h.network)
          (vals-better f _ p.pbestval p.pbest p.position h.network h.vals)
          (rw (length-better_vals p.pbestval sse) h.some_val)
          (better_vals-numbers p.pbestval sse h.numbers)
          (h.count ∙ sym (length-better_vals p.pbestval sse))

    -- One round of the main loop.
    pub epoch-IsTracked :
        (draw : ℕ → ℕ) (f : List D → D) (i : ℕ) (s : Search D)
        → IsTracked f s
        → IsTracked f (epoch draw i s)
    unfolding epoch move_particles
    epoch-IsTracked draw f i s h =
        let t = update_pbest-IsTracked f s h in
        record {
          network =
              get_rbf_sse-move_particles draw i (update_gbest (update_pbest s.params) s.drawn)
              ∙ t.network;
          vals = t.vals;
          best = t.best;
          place = t.place;
          some_val = t.some_val;
          numbers = t.numbers;
          count = length-add_rows _ _ ∙ t.count;
        }
