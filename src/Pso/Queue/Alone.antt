-- ===== src/Pso/Queue/Alone.antt =====
-- A work of a batch of `pso_learn` in include/pso.h that no other work disturbs.
use mathlib.Core.Path.{subst}
use gapso_rbf_pid.Prelude.{
  ℕ, suc, ◌<◌, ◌≡◌, ◌∙◌, sym, ap, refl, List, [], ◌∷◌, some, Bool, length, get_or, arith,
  Bool-cases, inl, inr, if◌then◌else◌,
}
use gapso_rbf_pid.Double.{Double, ◌≺◌, num}
use gapso_rbf_pid.Pso.{
  Pso, all_dist, unit_out, learn_units, net_errors, sum_sse, put_net, net_of, epoch_errors,
  epoch_sse, learn, train_epochs, get_rbf_sse_work,
}
use gapso_rbf_pid.Pso.SetAt.{set_at-same}
use gapso_rbf_pid.Pso.Queue.{
  queued, reading, learning, storing, computed, Batch, update, set_job, find_sse, store_sse, begins,
  finds, learned, stores,
}
use gapso_rbf_pid.Pso.Queue.Step.{update-here, Alone, After, Reaches, stay, step_then, and_then}
use gapso_rbf_pid.Pso.Queue.Rows.{reads_all}
use gapso_rbf_pid.Pso.Queue.Written.{From, learns_all}

module _ {D : Type 0} ⦃d : Double D⦄ where
  stores_last :
      (units i : ℕ) (b : Batch D) (sse : D)
      → b.jobs i ≡ storing sse
      → Reaches units i b computed b.pso (update b.sse i (some sse))
  unfolding store_sse
  stores_last units i b sse j =
      step_then units i b (storing sse) computed computed b.pso b.pso (update b.sse i (some sse)) _
        j (stores sse) (stay units i (store_sse i sse b) computed (update-here b.jobs i computed))

  length-all_dist : (cs xs : List D) → length (all_dist cs xs) ≡ length cs
  unfolding all_dist
  length-all_dist [] xs = refl
  length-all_dist (c ∷ cs) xs = ap suc (length-all_dist cs xs)

  length-unit_out :
      (ss : List D) (rows : List (List D))
      → length ss ≡ length rows
      → length (unit_out ss rows) ≡ length rows
  unfolding unit_out
  length-unit_out [] [] h = refl
  length-unit_out (s ∷ ss) (a ∷ rows) h = ap suc (length-unit_out ss rows (omega arith))
  length-unit_out ss rows h = absurd (omega arith)

  -- behind SSE, where it is not below E0
  learns_last :
      (units i : ℕ) (b : Batch D) (sse : D) (es : List D)
      → length b.pso.center ≡ units
      → length b.pso.sp ≡ units
      → length (get_or b.pso.w_pso i []) ≡ units
      → i < length b.pso.w_pso
      → let rows = all_dist b.pso.center b.pso.sam_in in
        let us = unit_out b.pso.sp rows in
        let r = learn_units b.pso es b.pso.center b.pso.sp (get_or b.pso.w_pso i []) rows us in
        b.jobs i ≡ learning 0 sse es rows us
        → Reaches units i b computed (put_net b.pso i r) (update b.sse i (some sse))
  unfolding put_net set_job
  learns_last units i b sse es hc hs hw h j =
      let rows = all_dist b.pso.center b.pso.sam_in in
      let us = unit_out b.pso.sp rows in
      let ld = length-all_dist b.pso.center b.pso.sam_in in
      let lu = length-unit_out b.pso.sp rows (omega arith) in
      let f : From 0 i b.pso rows us b.pso.center b.pso.sp (get_or b.pso.w_pso i []) rows us =
        record {
          cpre = [];
          spre = [];
          wpre = [];
          dpre = [];
          upre = [];
          center = refl;
          sp = refl;
          w = refl;
          dists_are = refl;
          outs_are = refl;
          length_c = refl;
          length_s = refl;
          length_w = refl;
          length_d = refl;
          length_u = refl;
        } in
      and_then units i b (learning units sse es rows us) computed _ _ b.sse _
        (learns_all units i 0 b sse es rows us b.pso.center b.pso.sp (get_or b.pso.w_pso i []) rows
          us (omega arith) (omega arith) (omega arith) (omega arith) (omega arith) h f j)
        (λ c jc.
          let c' : Batch D = record c { pso = _; sse = b.sse } in
          step_then units i c' (learning units sse es rows us) (storing sse) computed _ _ _ _ jc
            (learned units sse es rows us refl)
            (stores_last units i (set_job i (storing sse) c') sse
              (update-here c.jobs i (storing sse))))

  work_sse : (p : Pso D) (i : ℕ) → (get_rbf_sse_work p i).sse ≡ some (epoch_sse p (net_of p i))
  unfolding get_rbf_sse_work train_epochs
  work_sse p i = elim (Bool-cases (epoch_sse p (net_of p i) ≺ p.e0)) [
    | inl t ↦ rw t refl
    | inr t ↦ rw t refl
  ]

  -- behind the rows of all units
  finds_last :
      (units i : ℕ) (b : Batch D)
      → length b.pso.center ≡ units
      → length b.pso.sp ≡ units
      → length (get_or b.pso.w_pso i []) ≡ units
      → i < length b.pso.w_pso
      → let rows = all_dist b.pso.center b.pso.sam_in in
        let us = unit_out b.pso.sp rows in
        let t = get_rbf_sse_work b.pso i in
        let sse = epoch_sse b.pso (net_of b.pso i) in
        b.jobs i ≡ reading units rows us
        → Reaches units i b computed (put_net b.pso i t.net) (update b.sse i (some sse))
  unfolding get_rbf_sse_work train_epochs net_of epoch_sse epoch_errors learn find_sse set_job
      put_net
  finds_last units i b hc hs hw h j =
      let rows = all_dist b.pso.center b.pso.sam_in in
      let us = unit_out b.pso.sp rows in
      let es = net_errors (get_or b.pso.w_pso i []) us 0 b.pso.sam_out in
      let sse = sum_sse (num 0) es in
      let choice = λ (x : Bool). if x then storing sse else learning 0 sse es rows us in
      let b2 = find_sse i rows us b in
      let chosen = update-here b.jobs i (choice (sse ≺ b.pso.e0)) in
      elim (Bool-cases (sse ≺ b.pso.e0)) [
        | inl t ↦ rw t (
            subst
              (λ q.
                Reaches units i b computed (record b.pso { w_pso = q }) (update b.sse i (some sse)))
              (sym (set_at-same b.pso.w_pso i []))
              (step_then units i b (reading units rows us) _ computed b.pso b.pso b.sse _ j
                (finds units rows us refl) (stores_last units i b2 sse (chosen ∙ ap choice t))))
        | inr t ↦ rw t (
            step_then units i b (reading units rows us) _ computed b.pso _ b.sse _ j
              (finds units rows us refl)
              (learns_last units i b2 sse es hc hs hw h (chosen ∙ ap choice t)))
      ]

  -- A queued work whose steps no other work comes between, where the arrays have an entry for each
  -- unit: it can go on until it has stored SSE[which], and leaves the arrays and SSE as the work
  -- function does as a whole: one epoch on the shared Center and SP and on its own weights. The other
  -- works, the counter and the waiting thread are as before.
  pub work-Alone :
      (i : ℕ) (b : Batch D)
      → length b.pso.sp ≡ length b.pso.center
      → length (get_or b.pso.w_pso i []) ≡ length b.pso.center
      → i < length b.pso.w_pso
      → b.jobs i ≡ queued
      → let t = get_rbf_sse_work b.pso i in
        (sse : D) × (t.sse ≡ some sse)
        × ((c : Batch D) × Alone (length b.pso.center) i b c
            × After i b c computed (put_net b.pso i t.net) (update b.sse i (some sse)))
  unfolding set_job
  work-Alone i b hs hw h j =
      let units = length b.pso.center in
      let rows = all_dist b.pso.center b.pso.sam_in in
      let us = unit_out b.pso.sp rows in
      let b1 = set_job i (reading 0 [] []) b in
      let read =
        reads_all units i 0 b1 [] [] b.pso.center b.pso.sp [] [] (omega arith) hs refl refl refl
          refl (update-here b.jobs i (reading 0 [] [])) in
      let sse = epoch_sse b.pso (net_of b.pso i) in
      (
        sse,
        work_sse b.pso i,
        step_then units i b queued (reading 0 [] []) computed b.pso _ b.sse _ j begins (
            and_then units i b1 (reading units rows us) computed b.pso _ b.sse _ read
              (λ c jc. finds_last units i (record c { pso = b.pso; sse = b.sse }) refl hs hw h jc)),
      )
