-- ===== src/Swarm/Speed.antt =====
-- The velocities of the particles in the search of `rbfgrad_mark_probability`.
use gapso_rbf_pid.Prelude.{
  ℕ, zero, suc, ◌+◌, ◌*◌, ◌≡◌, ◌∙◌, sym, refl, false, List, [], ◌∷◌, arith, length, All,
}
use mathlib.Core.Path.{subst}
use gapso_rbf_pid.Double.{Double, IsOrdered, ◌≺◌}
use gapso_rbf_pid.Params.{Params, unit_num, particle_num}
use gapso_rbf_pid.Params.Shape.{IsGrid, IsShaped}
use gapso_rbf_pid.Swarm.Sizes.{IsSized, start_search-IsSized, epoch-IsSized, update-IsSized}
use gapso_rbf_pid.Swarm.{
  Search, clamp_speed, move_row, move_rows, update_gbest, update_pbest, start_search,
  move_particles, epoch, epochs, train, inertia,
}

module _ {D : Type 0} ⦃d : Double D⦄ where
  open d use {neg}

  -- `v` is neither above `mv` nor below -`mv`. A NaN is neither.
  abbrev pub IsSlow : D → D → Type 0
  IsSlow mv v = ((mv ≺ v) ≡ false) × ((v ≺ neg mv) ≡ false)

  abbrev pub AllSlow : D → List (List D) → Type 0
  AllSlow mv = All (All (IsSlow mv))

  module _ (laws : IsOrdered D) (draw : ℕ → ℕ) where
    open laws use {lt_irrefl}

    clamp_speed-IsSlow : (mv v : D) → (mv ≺ neg mv) ≡ false → IsSlow mv (clamp_speed mv v)
    unfolding clamp_speed
    clamp_speed-IsSlow mv v h = ground (arith, lt_irrefl mv, lt_irrefl (neg mv))

    move_row-IsSlow :
        (p : Params D) (iwt : D) (vs bs xs gs : List D) (k : ℕ)
        → (p.mv ≺ neg p.mv) ≡ false
        → length vs ≡ length bs
        → length vs ≡ length xs
        → length vs ≡ length gs
        → All (IsSlow p.mv) (move_row draw p iwt vs bs xs gs k)
    unfolding move_row
    move_row-IsSlow p iwt [] bs xs gs k h e e' e'' = tt
    move_row-IsSlow p iwt (v ∷ vs) [] xs gs k h e e' e'' = absurd (omega arith)
    move_row-IsSlow p iwt (v ∷ vs) (b ∷ bs) [] gs k h e e' e'' = absurd (omega arith)
    move_row-IsSlow p iwt (v ∷ vs) (b ∷ bs) (x ∷ xs) [] k h e e' e'' = absurd (omega arith)
    move_row-IsSlow p iwt (v ∷ vs) (b ∷ bs) (x ∷ xs) (g ∷ gs) k h e e' e'' = (
      clamp_speed-IsSlow p.mv _ h,
      move_row-IsSlow p iwt vs bs xs gs (k + 2) h (omega arith) (omega arith) (omega arith),
    )

    move_rows-AllSlow :
        (m n : ℕ) (p : Params D) (iwt : D) (vs bs xs : List (List D)) (k : ℕ)
        → (p.mv ≺ neg p.mv) ≡ false
        → length p.gbest ≡ m
        → IsGrid m n vs
        → IsGrid m n bs
        → IsGrid m n xs
        → AllSlow p.mv (move_rows draw p iwt vs bs xs k)
    unfolding move_rows
    move_rows-AllSlow m n p iwt [] bs xs k h g gv gb gx = tt
    move_rows-AllSlow m n p iwt (v ∷ vs) [] xs k h g gv gb gx = absurd (omega arith)
    move_rows-AllSlow m n p iwt (v ∷ vs) (b ∷ bs) [] k h g gv gb gx = absurd (omega arith)
    move_rows-AllSlow m n p iwt (v ∷ vs) (b ∷ bs) (x ∷ xs) k h g (ev, gv) (eb, gb) (ex, gx) = (
      move_row-IsSlow p iwt v b x p.gbest k h (gv.0 ∙ sym gb.0) (gv.0 ∙ sym gx.0) (gv.0 ∙ sym g),
      move_rows-AllSlow m (length vs) p iwt vs bs xs (k + 2 * unit_num) h g (refl, gv.1)
          (omega arith, gb.1) (omega arith, gx.1),
    )

    move_particles-AllSlow :
        (mv : D) (i : ℕ) (s : Search D)
        → (mv ≺ neg mv) ≡ false
        → IsSized mv s.params
        → AllSlow mv (move_particles draw i s).params.vel
    unfolding move_particles
    move_particles-AllSlow mv i s h z =
        let p = s.params in
        subst (λ x. AllSlow x (move_particles draw i s).params.vel) z.limit
          (move_rows-AllSlow unit_num particle_num p (inertia p i) p.vel p.pbest p.position s.drawn
            (subst (λ x. (x ≺ neg x) ≡ false) (sym z.limit) h) z.gbest z.vel z.pbest z.position)

    epoch-AllSlow :
        (mv : D) (i : ℕ) (s : Search D)
        → (mv ≺ neg mv) ≡ false
        → IsSized mv s.params
        → AllSlow mv (epoch draw i s).params.vel
    unfolding epoch
    epoch-AllSlow mv i s h z =
        move_particles-AllSlow mv i (update_gbest (update_pbest s.params) s.drawn) h
          (update-IsSized mv s.params s.drawn z)

    epochs-AllSlow :
        (mv : D) (n i : ℕ) (s : Search D)
        → (mv ≺ neg mv) ≡ false
        → IsSized mv s.params
        → AllSlow mv (epochs draw (suc n) i s).params.vel
    unfolding epochs
    epochs-AllSlow mv zero i s h z = epoch-AllSlow mv i s h z
    epochs-AllSlow mv (suc n) i s h z =
        epochs-AllSlow mv n (suc i) (epoch draw i s) h (epoch-IsSized draw mv i s z)

    -- Where mv is not below -mv and the arrays have the sizes of the source, training leaves every
    -- velocity of every particle neither above mv nor below -mv, whatever the velocities before.
    pub train-AllSlow :
        (p : Params D) (k : ℕ)
        → (p.mv ≺ neg p.mv) ≡ false
        → IsShaped p
        → AllSlow p.mv (train draw p k).params.vel
    unfolding train
    train-AllSlow p k h shape =
        epochs-AllSlow p.mv 9 0 (start_search p k) h (start_search-IsSized p k shape)
