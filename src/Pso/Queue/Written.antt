-- ===== src/Pso/Queue/Written.antt =====
-- The writes of Center, SP and W, unit by unit.
use mathlib.Core.List.{append_assoc}
use mathlib.Core.Path.{subst}
use gapso_rbf_pid.Prelude.{
  ℕ, ◌+◌, ◌<◌, ◌≡◌, ◌∙◌, sym, ap, refl, List, [], ◌∷◌, ◌++◌, length, get_or, arith, length-append,
}
use gapso_rbf_pid.Double.{Double, ◌⊕◌, ◌⊗◌, num}
use gapso_rbf_pid.Pso.{Pso, learn_units, set_at, cent_grad, sp_grad, w_grad}
use gapso_rbf_pid.Pso.SetAt.{
  get_or-append, set_at-append, get_or-set_at, set_at-set_at, length-set_at, set_at-same,
}
use gapso_rbf_pid.Pso.Queue.{learning, Batch, set_job, learn_unit, learns}
use gapso_rbf_pid.Pso.Queue.Step.{update-here, Reaches, stay, step_then}

module _ {D : Type 0} ⦃d : Double D⦄ where
  learn_units-same :
      (p : Pso D) (x y : List D) (z : List (List D)) (es cs ss ws : List D)
      (rows us : List (List D))
      → learn_units (record p { center = x; sp = y; w_pso = z }) es cs ss ws rows us
        ≡ learn_units p es cs ss ws rows us
  unfolding learn_units
  learn_units-same p x y z es (c ∷ cs) (s ∷ ss) (w ∷ ws) (a ∷ rows) (u ∷ us) =
      let ih = learn_units-same p x y z es cs ss ws rows us in
      λ t. record {
        center = (c ⊕ p.lr_cent ⊗ cent_grad (num 0) c s w p.sam_in es u) ∷ (ih t).center;
        sp = (s ⊕ p.lr_sp ⊗ sp_grad (num 0) s w a es u) ∷ (ih t).sp;
        w = (w ⊕ p.lr_w ⊗ w_grad (num 0) es u) ∷ (ih t).w;
      }
  learn_units-same p x y z es cs ss ws rows us = refl

  -- The arrays from unit `k` on are `cs`, `ss` and `ws`, behind others, and the rows are `rows` and `us`.
  pub record From (k i : ℕ) (p : Pso D) (dists outs : List (List D)) (cs ss ws : List D)
      (rows us : List (List D)) : Type 0 where
    pub cpre : List D
    pub spre : List D
    pub wpre : List D
    pub dpre : List (List D)
    pub upre : List (List D)
    pub center : p.center ≡ cpre ++ cs
    pub sp : p.sp ≡ spre ++ ss
    pub w : get_or p.w_pso i [] ≡ wpre ++ ws
    pub dists_are : dists ≡ dpre ++ rows
    pub outs_are : outs ≡ upre ++ us
    pub length_c : length cpre ≡ k
    pub length_s : length spre ≡ k
    pub length_w : length wpre ≡ k
    pub length_d : length dpre ≡ k
    pub length_u : length upre ≡ k

  -- one more unit
  learn_unit-From :
      (k i : ℕ) (p : Pso D) (es : List D) (dists outs : List (List D)) (c s w : D)
      (cs ss ws : List D) (a u : List D) (rows us : List (List D))
      → i < length p.w_pso
      → From k i p dists outs (c ∷ cs) (s ∷ ss) (w ∷ ws) (a ∷ rows) (u ∷ us)
      → From (k + 1) i (learn_unit i k es dists outs p) dists outs cs ss ws rows us
  unfolding learn_unit
  learn_unit-From k i p es dists outs c s w cs ss ws a u rows us h f = record {
    cpre = f.cpre ++ (_ ∷ []);
    spre = f.spre ++ (_ ∷ []);
    wpre = f.wpre ++ (_ ∷ []);
    dpre = f.dpre ++ (a ∷ []);
    upre = f.upre ++ (u ∷ []);
    center = ap (set_at k _) f.center ∙ set_at-append f.cpre cs k c _ f.length_c;
    sp = ap (set_at k _) f.sp ∙ set_at-append f.spre ss k s _ f.length_s;
    w =
        get_or-set_at p.w_pso i _ [] h
        ∙ ap (set_at k _) f.w
        ∙ set_at-append f.wpre ws k w _ f.length_w;
    dists_are = f.dists_are ∙ sym (append_assoc f.dpre (a ∷ []) rows);
    outs_are = f.outs_are ∙ sym (append_assoc f.upre (u ∷ []) us);
    length_c = omega (arith, length-append f.cpre (_ ∷ []), f.length_c);
    length_s = omega (arith, length-append f.spre (_ ∷ []), f.length_s);
    length_w = omega (arith, length-append f.wpre (_ ∷ []), f.length_w);
    length_d = omega (arith, length-append f.dpre (a ∷ []), f.length_d);
    length_u = omega (arith, length-append f.upre (u ∷ []), f.length_u);
  }

  -- the arrays with what learning makes of the units from `k` on
  abbrev pub learnt :
      (k i : ℕ) (p : Pso D) (es : List D) (dists outs : List (List D)) (cs ss ws : List D)
      (rows us : List (List D))
      → From k i p dists outs cs ss ws rows us
      → Pso D
  learnt k i p es dists outs cs ss ws rows us f =
      let r = learn_units p es cs ss ws rows us in
      record p {
        center = f.cpre ++ r.center;
        sp = f.spre ++ r.sp;
        w_pso = set_at i (f.wpre ++ r.w) p.w_pso;
      }

  learnt_step :
      (k i : ℕ) (p : Pso D) (es : List D) (dists outs : List (List D)) (c s w : D)
      (cs ss ws : List D) (a u : List D) (rows us : List (List D)) (h : i < length p.w_pso)
      (f : From k i p dists outs (c ∷ cs) (s ∷ ss) (w ∷ ws) (a ∷ rows) (u ∷ us))
      → learnt
          (k + 1)
          i
          (learn_unit i k es dists outs p)
          es
          dists
          outs
          cs
          ss
          ws
          rows
          us
          (learn_unit-From k i p es dists outs c s w cs ss ws a u rows us h f)
        ≡ learnt k i p es dists outs (c ∷ cs) (s ∷ ss) (w ∷ ws) (a ∷ rows) (u ∷ us) f
  unfolding learn_unit learn_unit-From learn_units
  learnt_step k i p es dists outs c s w cs ss ws a u rows us h f =
      let at_c =
        ap (λ xs. get_or xs k (num 0)) f.center ∙ get_or-append f.cpre cs k c (num 0) f.length_c in
      let at_s =
        ap (λ xs. get_or xs k (num 0)) f.sp ∙ get_or-append f.spre ss k s (num 0) f.length_s in
      let at_w =
        ap (λ xs. get_or xs k (num 0)) f.w ∙ get_or-append f.wpre ws k w (num 0) f.length_w in
      let at_a =
        ap (λ xs. get_or xs k []) f.dists_are ∙ get_or-append f.dpre rows k a [] f.length_d in
      let at_u = ap (λ xs. get_or xs k []) f.outs_are ∙ get_or-append f.upre us k u [] f.length_u in
      let c' =
        get_or p.center k (num 0)
        ⊕ p.lr_cent
          ⊗ cent_grad (num 0) (get_or p.center k (num 0)) (get_or p.sp k (num 0))
              (get_or (get_or p.w_pso i []) k (num 0)) p.sam_in es (get_or outs k []) in
      let s' =
        get_or p.sp k (num 0)
        ⊕ p.lr_sp
          ⊗ sp_grad (num 0) (get_or p.sp k (num 0)) (get_or (get_or p.w_pso i []) k (num 0))
              (get_or dists k []) es (get_or outs k []) in
      let w' =
        get_or (get_or p.w_pso i []) k (num 0) ⊕ p.lr_w ⊗ w_grad (num 0) es (get_or outs k []) in
      let row = set_at k w' (get_or p.w_pso i []) in
      let r = learn_units p es cs ss ws rows us in
      let same =
        learn_units-same p (set_at k c' p.center) (set_at k s' p.sp) (set_at i row p.w_pso) es cs ss
          ws rows us in
      (λ t. record p {
        center = (f.cpre ++ (c' ∷ [])) ++ (same t).center;
        sp = (f.spre ++ (s' ∷ [])) ++ (same t).sp;
        w_pso = set_at-set_at p.w_pso i ((f.wpre ++ (w' ∷ [])) ++ (same t).w) row t;
      })
      ∙ (λ t. record p {
        center = append_assoc f.cpre (c' ∷ []) r.center t;
        sp = append_assoc f.spre (s' ∷ []) r.sp t;
        w_pso = set_at i (append_assoc f.wpre (w' ∷ []) r.w t) p.w_pso;
      })
      ∙ (λ t. record p {
        center =
            f.cpre
            ++ ((at_c t
                  ⊕ p.lr_cent ⊗ cent_grad (num 0) (at_c t) (at_s t) (at_w t) p.sam_in es (at_u t))
                ∷ r.center);
        sp =
            f.spre
            ++ ((at_s t ⊕ p.lr_sp ⊗ sp_grad (num 0) (at_s t) (at_w t) (at_a t) es (at_u t)) ∷ r.sp);
        w_pso = set_at i (f.wpre ++ ((at_w t ⊕ p.lr_w ⊗ w_grad (num 0) es (at_u t)) ∷ r.w)) p.w_pso;
      })

  room :
      (k i : ℕ) (es : List D) (dists outs : List (List D)) (p : Pso D)
      → i < length p.w_pso
      → i < length (learn_unit i k es dists outs p).w_pso
  unfolding learn_unit
  room k i es dists outs p h = omega (arith, length-set_at p.w_pso i _)

  -- The arrays of the units from `k` on are written.
  pub learns_all :
      (units i k : ℕ) (b : Batch D) (sse : D) (es : List D) (dists outs : List (List D))
      (cs ss ws : List D) (rows us : List (List D))
      → k + length cs ≡ units
      → length ss ≡ length cs
      → length ws ≡ length cs
      → length rows ≡ length cs
      → length us ≡ length cs
      → i < length b.pso.w_pso
      → (f : From k i b.pso dists outs cs ss ws rows us) → b.jobs i ≡ learning k sse es dists outs
      → Reaches units i b
          (learning units sse es dists outs)
          (learnt k i b.pso es dists outs cs ss ws rows us f)
          b.sse
  unfolding set_job learn_units
  learns_all units i k b sse es dists outs [] [] [] [] [] e h1 h2 h3 h4 h f j =
      subst (λ q. Reaches units i b (learning units sse es dists outs) q b.sse)
        (λ t. record b.pso {
          center = f.center t;
          sp = f.sp t;
          w_pso = (sym (set_at-same b.pso.w_pso i []) ∙ ap (λ x. set_at i x b.pso.w_pso) f.w) t;
        })
        (stay units i b _ (j ∙ ap (λ m. learning m sse es dists outs) k_units))
    where
      k_units : k ≡ units
      k_units = omega arith
  learns_all units i k b sse es dists outs (c ∷ cs) (s ∷ ss) (w ∷ ws) (a ∷ rows) (u ∷ us) e h1 h2 h3
        h4 h f j =
      let f' = learn_unit-From k i b.pso es dists outs c s w cs ss ws a u rows us h f in
      let p' = learn_unit i k es dists outs b.pso in
      let b' : Batch D = record (set_job i (learning (k + 1) sse es dists outs) b) { pso = p' } in
      let rest =
        learns_all units i (k + 1) b' sse es dists outs cs ss ws rows us (omega arith) (omega arith)
          (omega arith) (omega arith) (omega arith) (room k i es dists outs b.pso h) f'
          (update-here b.jobs i _) in
      step_then units i b (learning k sse es dists outs) _ _ p' _ b.sse b.sse j
        (learns k sse es dists outs (omega arith))
        (subst (λ q. Reaches units i b' (learning units sse es dists outs) q b.sse)
          (learnt_step k i b.pso es dists outs c s w cs ss ws a u rows us h f) rest)
  learns_all units i k b sse es dists outs cs ss ws rows us e h1 h2 h3 h4 h f j =
      absurd (omega arith)
