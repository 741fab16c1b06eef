-- ===== src/Pso/Learn.antt =====
-- include/pso.h: `pso_learn`. What a batch of the work queue leaves, the shared arrays and SSE, or that
-- the wait for it never ends, is an argument here (`Pso.Queue` has the batch itself). The inner loops of the main loop use its own
-- counter `i`, so that behind them `i` is ParticleNum. The arrays tr and iwt, of MaxEpoch entries
-- each, and cnt2 are not initialised: what they hold at first is an argument, too. The kernel's
-- macro `abs`, applied to a double, is the argument `abs`.
use gapso_rbf_pid.Prelude.{
  ℕ, zero, suc, ◌+◌, ◌*◌, ◌/◌, ◌%◌, ◌^◌, Bool, true, false, not, ◌&&◌, leb, List, [], ◌∷◌, Option,
  none, some, ltb, ◌==◌, if◌then◌else◌, get_or, length,
}
use gapso_rbf_pid.Prelude.Int.{ℤ, pos, pos_part, neg_part, sub_ℕ, ltb_ℤ, ◌+ℤ◌, ◌-ℤ◌}
use gapso_rbf_pid.Double.{Double, ◌⊕◌, ◌⊖◌, ◌⊗◌, ◌≺◌, num}
use gapso_rbf_pid.Swarm.{better_vals, better_places, least, add_rows, rannum}
use gapso_rbf_pid.Pso.{Pso}
use gapso_rbf_pid.Pso.Queue.{thread_num}

-- a * b and a / b of two values of type `int`, where they are in range; C's division cuts
abbrev signed : ℕ → ℤ → ℤ → ℤ
signed n a b =
    if neg_part a == 0
    then (if neg_part b == 0 then pos n else sub_ℕ 0 n)
    else if neg_part b == 0
    then sub_ℕ 0 n
    else pos n

abbrev pub size : ℤ → ℕ
size a = pos_part a + neg_part a

abbrev times : ℤ → ℤ → ℤ
times a b = signed (size a * size b) a b

abbrev over : ℤ → ℤ → Option ℤ
over a b = if size b == 0 then none else some (signed (size a / size b) a b)

-- the locals of `pso_learn`, with the arrays that it shares with the work functions
pub record Learning (D : Type 0) : Type 0 where
  pub pso : Pso D
  pub sse : List D
  pub pbestval : List D
  pub pbest : List (List D)
  pub gbestval : D
  pub gbest : List D
  pub tr : ℕ → D
  pub cnt2 : ℤ
  pub drawn : ℕ

-- How a call ends: it returns 1; it writes beyond the THREAD_NUM entries of rbf_work; it waits for a
-- batch for ever; it writes beyond the MaxEpoch entries of tr; it divides by 0; or its main loop has
-- gone round as often as was allowed, and goes on.
pub data Ending (D : Type 0) : Type 0 where
  returned : Pso D → Ending D
  works_outside : Ending D
  waits : Ending D
  outside : Ending D
  divided : Ending D
  running : Ending D

-- what follows a round of the main loop
pub data Round (D : Type 0) : Type 0 where
  goes_on : Learning D → Round D
  breaks : Learning D → Round D
  crashes : Ending D → Round D

-- tr[i] = v
abbrev write_tr : {D : Type 0} → (ℕ → D) → ℕ → D → ℕ → D
write_tr tr i v j = if j == i then v else tr j

-- ((iw2-iw1)/(iwe-1))*(i)+iw1, all of it on integers, or iw2: `none` where it divides by 0
unfoldable pub inertia_int : {D : Type 0} → Pso D → ℕ → Option ℤ
inertia_int p i =
    if ltb_ℤ (pos i) p.iwe
    then elim (over (p.iw2 -ℤ p.iw1) (p.iwe -ℤ pos 1)) [
      | none ↦ none
      | some slope ↦ some (times slope (pos i) +ℤ p.iw1)
    ]
    else some p.iw2

module _ {D : Type 0} ⦃d : Double D⦄ where
  open d use {of_int, to_int, bits}

  -- int MaxEpoch = p->MaxEpoch
  abbrev pub epochs_of : Pso D → ℕ
  epochs_of p = pos_part (to_int p.max_epoch)

  -- the two tests against mv
  unfoldable pub clamp_vel : ℤ → D → D
  clamp_vel mv v =
      let v' = if of_int mv ≺ v then of_int mv else v in
      if v' ≺ of_int (pos 0 -ℤ mv) then of_int (pos 0 -ℤ mv) else v'

  -- cnt2>=ergrdep, false for a NaN
  unfoldable pub has_settled : D → ℤ → Bool
  has_settled ergrdep cnt2 =
      not (of_int cnt2 ≺ ergrdep) && leb (bits ergrdep % 2 ^ 63) 0x7ff0_0000_0000_0000

  -- "stopping criterion based on speed of convergence", with i at `n`
  unfoldable pub check_speed : (D → D) → ℕ → Learning D → Round D
  check_speed abs n l =
      if l.pso.ergrd ≺ abs (l.tr n ⊖ l.gbestval)
      then goes_on (record l { cnt2 = pos 0 })
      else if has_settled l.pso.ergrdep (l.cnt2 +ℤ pos 1)
      then breaks (record l { cnt2 = l.cnt2 +ℤ pos 1 })
      else goes_on (record l { cnt2 = l.cnt2 +ℤ pos 1 })

  -- gbestval, index and gbest
  unfoldable pub find_gbest : Learning D → Learning D
  find_gbest l =
      let (v, index) = least l.pbestval in
      record l { gbestval = v; gbest = get_or l.pbest index [] }

  -- "update pbest", with what the batch left in SSE
  unfoldable pub take_best : Learning D → Learning D
  take_best l = record l {
    pbestval = better_vals l.pbestval l.sse;
    pbest = better_places l.pbestval l.sse l.pbest l.pso.position;
  }

module _ {D : Type 0} ⦃d : Double D⦄ (draw : ℕ → ℕ) where
  open d use {of_int}

  -- the velocities of one particle, from draw `k` on
  unfoldable pub move_vel : Pso D → D → List D → List D → List D → List D → ℕ → List D
  move_vel p iwt (v ∷ vs) (b ∷ bs) (x ∷ xs) (g ∷ gs) k =
      clamp_vel p.mv (
        iwt ⊗ v
        ⊕ of_int p.ac1 ⊗ rannum draw k ⊗ (b ⊖ x)
        ⊕ of_int p.ac2 ⊗ rannum draw (k + 1) ⊗ (g ⊖ x))
      ∷ move_vel p iwt vs bs xs gs (k + 2)
  move_vel p iwt vs bs xs gs k = vs

  -- those of every particle, each with `units` entries
  unfoldable pub move_vels :
      ℕ → Pso D → D → List D → List (List D) → List (List D) → List (List D) → ℕ → List (List D)
  move_vels units p iwt gbest (v ∷ vs) (b ∷ bs) (x ∷ xs) k =
      move_vel p iwt v b x gbest k ∷ move_vels units p iwt gbest vs bs xs (k + 2 * units)
  move_vels units p iwt gbest vs bs xs k = vs

  -- "the heart of the PSO algorithm"
  unfoldable pub move_swarm : ℤ → Learning D → Learning D
  move_swarm iwt l =
      let p = l.pso in
      let units = length p.center in
      let vel' = move_vels units p (of_int iwt) l.gbest p.vel l.pbest p.position l.drawn in
      record l {
        pso = record p { vel = vel'; position = add_rows p.position vel' };
        drawn = l.drawn + p.particle_num * (2 * units);
      }

module _ {D : Type 0} ⦃d : Double D⦄ (draw : ℕ → ℕ) (abs : D → D)
    (batch : Pso D → Option (Pso D × List D)) where
  -- "initial pbest positions vals", the first batch, pbestval and gbest; `none` where the wait for
  -- the batch never ends
  unfoldable pub start_learning : Pso D → (ℕ → D) → ℤ → ℕ → Option (Learning D)
  start_learning p tr cnt2 k = elim (batch p) [
    | none ↦ none
    | some (p', sse) ↦ some (
        find_gbest (record {
          pso = p';
          sse = sse;
          pbestval = sse;
          pbest = p.position;
          gbestval = num 0;
          gbest = [];
          tr = tr;
          cnt2 = cnt2;
          drawn = k;
        }))
  ]

  -- the body of the main loop behind its batch, for `n` particles and `epochs` entries in tr and iwt
  unfoldable pub after_batch : ℕ → ℕ → Learning D → Round D
  after_batch n epochs l =
      let best = find_gbest (take_best l) in
      if ltb (n + 1) epochs
      then elim (inertia_int l.pso n) [
        | none ↦ crashes divided
        | some iwt ↦
            check_speed abs n
              (move_swarm draw iwt (record best { tr = write_tr best.tr (n + 1) best.gbestval }))
      ]
      else crashes outside

  -- the body of the main loop
  unfoldable pub learn_round : ℕ → ℕ → Learning D → Round D
  learn_round n epochs l = elim (batch l.pso) [
    | none ↦ crashes waits
    | some (p', sse') ↦ after_batch n epochs (record l { pso = p'; sse = sse' })
  ]

  -- the main loop from the test of `i` on, for at most `fuel` rounds
  unfoldable pub learn_rounds : ℕ → ℕ → ℕ → ℕ → Learning D → Ending D
  learn_rounds zero n epochs i l = running
  learn_rounds (suc fuel) n epochs i l = elim (ltb i epochs) [
    | true ↦ elim (learn_round n epochs l) [
      | goes_on l' ↦ learn_rounds fuel n epochs (n + 1) l'
      | breaks l' ↦ returned (record (l'.pso) { w = l'.gbest })
      | crashes e ↦ e
    ]
    | false ↦ returned (record (l.pso) { w = l.gbest })
  ]

  -- The whole function; `tr` and `cnt2` are what these hold before they are written.
  unfoldable pub pso_learn : ℕ → Pso D → (ℕ → D) → ℤ → ℕ → Ending D
  pso_learn fuel p tr cnt2 k =
      let n = p.particle_num in
      let epochs = epochs_of p in
      if ltb thread_num n then works_outside else elim (start_learning p tr cnt2 k) [
        | none ↦ waits
        | some l ↦
            if ltb 0 epochs
            then learn_rounds fuel n epochs 0 (record l { tr = write_tr l.tr 0 l.gbestval })
            else outside
      ]
