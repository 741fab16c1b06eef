-- ===== src/Swarm/Learn.antt =====
-- The result of the search of `rbfgrad_mark_probability` after all its rounds.
use gapso_rbf_pid.Prelude.{
  ℕ, zero, suc, ◌<◌, ◌≡◌, ◌∙◌, false, List, [], ◌∷◌, map, arith, get_or, length, All,
}
use gapso_rbf_pid.Double.{Double, IsOrdered, IsNumber, ◌≺◌, num}
use gapso_rbf_pid.Params.{Params, max_epoch}
use gapso_rbf_pid.Swarm.{
  Search, get_rbf_sse, net_output, least, better_vals, update_gbest, update_pbest, start_search,
  move_particles, epoch, epochs, train,
}
use gapso_rbf_pid.Swarm.Best.{
  Descends, Descend, IsLeast, get_or-least, least-IsLeast, better_vals-Descend,
}
use gapso_rbf_pid.Swarm.Track.{IsTracked, length-map, start_search-IsTracked, epoch-IsTracked}

module _ {D : Type 0} ⦃d : Double D⦄ where
  -- reads at the same place of two arrays
  get_or-Descend :
      (vs xs : List D) (i : ℕ) (z : D)
      → Descend vs xs
      → i < length vs
      → Descends (get_or vs i z) (get_or xs i z)
  get_or-Descend [] xs i z h fits = elim fits [ ]
  get_or-Descend (v ∷ vs) [] i z h fits = elim h [ ]
  get_or-Descend (v ∷ vs) (x ∷ xs) zero z h fits = h.0
  get_or-Descend (v ∷ vs) (x ∷ xs) (suc i) z h fits = get_or-Descend vs xs i z h.1 (omega arith)

  get_or-IsLeast :
      (v : D) (vs xs : List D) (i : ℕ) (z : D)
      → Descend vs xs
      → i < length vs
      → IsLeast v xs
      → (get_or xs i z ≺ v) ≡ false
  get_or-IsLeast v [] xs i z h fits l = elim fits [ ]
  get_or-IsLeast v (w ∷ vs) [] i z h fits l = elim h [ ]
  get_or-IsLeast v (w ∷ vs) (x ∷ xs) zero z h fits l = l.0
  get_or-IsLeast v (w ∷ vs) (x ∷ xs) (suc i) z h fits l =
      get_or-IsLeast v vs xs i z h.1 (omega arith) l.1

  get_or-numbers :
      (vs : List D) (i : ℕ) (z : D) → All IsNumber vs → i < length vs → IsNumber (get_or vs i z)
  get_or-numbers [] i z h fits = elim fits [ ]
  get_or-numbers (v ∷ vs) zero z h fits = h.0
  get_or-numbers (v ∷ vs) (suc i) z h fits = get_or-numbers vs i z h.1 (omega arith)

  module _ (laws : IsOrdered D) where
    open laws use {lt_irrefl, lt_trans, lt_weak}

    -- an array that descends has no greater least value
    least-Descend :
        (vs xs : List D) → Descend vs xs → 0 < length vs → ((least vs).0 ≺ (least xs).0) ≡ false
    least-Descend vs xs h some_val =
        let (fits, at) = get_or-least vs (num 0) some_val in
        descends-not-below (least vs).0 (get_or xs (least vs).1 (num 0)) (least xs).0
          (rw at at (get_or-Descend vs xs (least vs).1 (num 0) h fits))
          (get_or-IsLeast (least xs).0 vs xs (least vs).1 (num 0) h fits (least-IsLeast laws xs))
      where
        descends-not-below : (u y w : D) → Descends u y → (y ≺ w) ≡ false → (u ≺ w) ≡ false
        descends-not-below u y w a b = ground (arith, lt_trans y u w)

    -- An error that is not recorded was not below the value on record.
    sse-not-below :
        (v : D) (vs ss : List D)
        → length ss ≡ length vs
        → All IsNumber vs
        → IsLeast v (better_vals vs ss)
        → IsLeast v ss
    unfolding better_vals
    sse-not-below v [] [] e h l = tt
    sse-not-below v [] (s ∷ ss) e h l = absurd (omega arith)
    sse-not-below v (w ∷ vs) [] e h l = tt
    sse-not-below v (w ∷ vs) (s ∷ ss) e (h, hs) (l, ls) =
        (ground (arith, lt_weak s w v), sse-not-below v vs ss (omega arith) hs ls)

    epoch-best :
        (draw : ℕ → ℕ) (f : List D → D) (i : ℕ) (s : Search D)
        → IsTracked f s
        → IsLeast (epoch draw i s).params.gbestval (map f s.params.position)
          × ((s.params.gbestval ≺ (epoch draw i s).params.gbestval) ≡ false)
    unfolding epoch move_particles update_gbest update_pbest get_rbf_sse net_output
    epoch-best draw f i s h =
        let p = s.params in
        let sse = map (get_rbf_sse p) p.position in
        let new = better_vals p.pbestval sse in
        (
          rw (← h.network) (
              sse-not-below (least new).0 p.pbestval sse
                (length-map (get_rbf_sse p) p.position ∙ h.count) h.numbers
                (least-IsLeast laws new)),
          rw h.best (least-Descend p.pbestval new (better_vals-Descend p.pbestval sse) h.some_val),
        )

    gbestval-IsNumber : (f : List D → D) (s : Search D) → IsTracked f s → IsNumber s.params.gbestval
    gbestval-IsNumber f s h =
        let vals = s.params.pbestval in
        let (fits, at) = get_or-least vals (num 0) h.some_val in
        rw h.best (rw at at (get_or-numbers vals (least vals).1 (num 0) h.numbers fits))

    -- A value that is not below the best one is not below a later best one.
    epochs_keep :
        (draw : ℕ → ℕ) (f : List D → D) (n i : ℕ) (x : D) (s : Search D)
        → IsTracked f s
        → (x ≺ s.params.gbestval) ≡ false
        → (x ≺ (epochs draw n i s).params.gbestval) ≡ false
    unfolding epochs
    epochs_keep draw f zero i x s h e = e
    epochs_keep draw f (suc n) i x s h e =
        epochs_keep draw f n (suc i) x (epoch draw i s) (epoch-IsTracked laws draw f i s h)
          (lt_weak x s.params.gbestval _ (gbestval-IsNumber f s h) e (epoch-best draw f i s h).1)

    epochs_keep_all :
        (draw : ℕ → ℕ) (f : List D → D) (n i : ℕ) (xs : List D) (s : Search D)
        → IsTracked f s
        → IsLeast s.params.gbestval xs
        → IsLeast (epochs draw n i s).params.gbestval xs
    epochs_keep_all draw f n i [] s h l = tt
    epochs_keep_all draw f n i (x ∷ xs) s h (l, ls) =
        (epochs_keep draw f n i x s h l, epochs_keep_all draw f n i xs s h ls)

    epochs-IsTracked :
        (draw : ℕ → ℕ) (f : List D → D) (n i : ℕ) (s : Search D)
        → IsTracked f s
        → IsTracked f (epochs draw n i s)
    unfolding epochs
    epochs-IsTracked draw f zero i s h = h
    epochs-IsTracked draw f (suc n) i s h =
        epochs-IsTracked draw f n (suc i) (epoch draw i s) (epoch-IsTracked laws draw f i s h)

    -- No position of round n has a smaller error than the best one of a later round.
    epochs_best :
        (draw : ℕ → ℕ) (f : List D → D) (n m i : ℕ) (s : Search D)
        → n < m
        → IsTracked f s
        → IsLeast (epochs draw m i s).params.gbestval (map f (epochs draw n i s).params.position)
    unfolding epochs
    epochs_best draw f n zero i s h t = elim h [ ]
    epochs_best draw f zero (suc m) i s h t =
        epochs_keep_all draw f m (suc i) _ (epoch draw i s) (epoch-IsTracked laws draw f i s t)
          (epoch-best draw f i s t).0
    epochs_best draw f (suc n) (suc m) i s h t =
        epochs_best draw f n m (suc i) (epoch draw i s) (omega arith)
          (epoch-IsTracked laws draw f i s t)

    -- From parameters with at least one particle, where the network's error is a number (no NaN) at
    -- each initial position: the error at the weights that training leaves in w_k is the stored
    -- gbestval, and no position that a particle has at the start of one of the ten rounds has a
    -- smaller error. The error is that of the parameters given.
    pub train-optimal :
        (draw : ℕ → ℕ) (p : Params D) (k : ℕ)
        → 0 < length p.position
        → All (λ w. IsNumber (get_rbf_sse p w)) p.position
        → (get_rbf_sse p (train draw p k).params.w_k ≡ (train draw p k).params.gbestval)
          × ((n : ℕ)
              → n < max_epoch
              → IsLeast
                  (train draw p k).params.gbestval
                  (map (get_rbf_sse p) (epochs draw n 0 (start_search p k)).params.position))
    unfolding train
    train-optimal draw p k some_particle numbers =
        let start = start_search-IsTracked p k some_particle numbers in
        (
          (epochs-IsTracked draw (get_rbf_sse p) max_epoch 0 (start_search p k) start).place,
          λ n h. epochs_best draw (get_rbf_sse p) n max_epoch 0 (start_search p k) h start,
        )
