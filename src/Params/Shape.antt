-- ===== src/Params/Shape.antt =====
-- The sizes of the arrays of `struct rbfgrad_parms`, which the lists of the model have to keep.
use gapso_rbf_pid.Prelude.{
  ℕ, zero, suc, ◌+◌, ◌≡◌, refl, ap, List, ◌∷◌, length, length-replicate, replicate, All,
}
use gapso_rbf_pid.Double.{Double, num}
use gapso_rbf_pid.Params.{Params, Qopt, sam_num, unit_num, particle_num}
use gapso_rbf_pid.Params.Init.{drawn, particle_rows, weight, place, speed, rbfgrad_set_parms}

-- `n` rows of `m` values
abbrev pub IsGrid {ℓ} : {A : Type ℓ} → ℕ → ℕ → List (List A) → Type 0
IsGrid m n rows = (length rows ≡ n) × All (λ row. length row ≡ m) rows

pub record IsShaped {D : Type 0} (p : Params D) : Type 0 where
  pub w_k : length p.w_k ≡ unit_num
  pub c_k : IsGrid sam_num unit_num p.c_k
  pub delta_k : length p.delta_k ≡ unit_num
  pub proba : length p.proba ≡ sam_num
  pub queue_len : length p.queue_len ≡ sam_num
  pub sam_in : length p.sam_in ≡ sam_num
  pub net_out : length p.net_out ≡ particle_num
  pub position : IsGrid unit_num particle_num p.position
  pub vel : IsGrid unit_num particle_num p.vel

length-drawn {ℓ} : {A : Type ℓ} (f : ℕ → A) (stride n k : ℕ) → length (drawn f stride n k) ≡ n
unfolding drawn
length-drawn f stride zero k = refl
length-drawn f stride (suc n) k = ap suc (length-drawn f stride n (k + stride))

IsGrid-cons {ℓ} :
    {A : Type ℓ} (m n : ℕ) (row : List A) (rows : List (List A))
    → length row ≡ m
    → IsGrid m n rows
    → IsGrid m (suc n) (row ∷ rows)
IsGrid-cons m n row rows e (e', h) = (ap suc e', (e, h))

IsGrid-replicate {ℓ} : {A : Type ℓ} (m n : ℕ) (a : A) → IsGrid m n (replicate n (replicate m a))
IsGrid-replicate m zero a = (refl, tt)
IsGrid-replicate m (suc n) a =
    IsGrid-cons m n (replicate m a) (replicate n (replicate m a)) (length-replicate m a)
      (IsGrid-replicate m n a)

module _ {D : Type 0} ⦃d : Double D⦄ (draw : ℕ → ℕ) where
  particle_rows-IsGrid : (f : ℕ → D) (n k : ℕ) → IsGrid unit_num n (particle_rows draw f n k)
  unfolding particle_rows
  particle_rows-IsGrid f zero k = (refl, tt)
  particle_rows-IsGrid f (suc n) k =
      IsGrid-cons unit_num n (drawn f 2 unit_num k) (particle_rows draw f n (k + 12))
        (length-drawn f 2 unit_num k) (particle_rows-IsGrid f n (k + 12))

  -- Whatever the parameters held before, `rbfgrad_set_parms` leaves arrays of the source's sizes.
  pub set_parms-IsShaped :
      (p : Params D) (ctl : Qopt D) (table : List ℕ) (k : ℕ)
      → IsShaped (rbfgrad_set_parms draw p ctl table k)
  unfolding rbfgrad_set_parms
  set_parms-IsShaped p ctl table k = record {
    w_k = length-drawn (weight draw) 2 unit_num k;
    c_k = IsGrid-replicate {A = D} sam_num unit_num (num 0);
    delta_k = refl;
    proba = refl;
    queue_len = refl;
    sam_in = refl;
    net_out = refl;
    position =
        IsGrid-cons unit_num 89 (drawn (weight draw) 2 unit_num k)
          (particle_rows draw (place draw) 89 (k + 18)) (length-drawn (weight draw) 2 unit_num k)
          (particle_rows-IsGrid (place draw) 89 (k + 18));
    vel =
        IsGrid-cons unit_num 89 (drawn (speed draw) 1 unit_num (k + 12))
          (particle_rows draw (speed draw) 89 (k + 19))
          (length-drawn (speed draw) 1 unit_num (k + 12))
          (particle_rows-IsGrid (speed draw) 89 (k + 19));
  }
