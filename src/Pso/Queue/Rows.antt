-- ===== src/Pso/Queue/Rows.antt =====
-- The rows of AllDist and UnitOut, unit by unit.
use mathlib.Core.List.{append-nil, append_assoc}
use mathlib.Core.Path.{subst}
use gapso_rbf_pid.Prelude.{
  ℕ, ◌+◌, ◌≡◌, ◌∙◌, sym, ap, List, [], ◌∷◌, ◌++◌, length, get_or, arith, length-append,
}
use gapso_rbf_pid.Double.{Double, num}
use gapso_rbf_pid.Pso.{all_dist, unit_out, dist_row, out_row}
use gapso_rbf_pid.Pso.SetAt.{get_or-append}
use gapso_rbf_pid.Pso.Queue.{reading, Batch, set_job, read_unit, reads}
use gapso_rbf_pid.Pso.Queue.Step.{update-here, Reaches, stay, step_then}

module _ {D : Type 0} ⦃d : Double D⦄ where
  -- The rows of the units from `k` on are read.
  pub reads_all :
      (units i k : ℕ) (b : Batch D) (dists outs : List (List D)) (cs ss cpre spre : List D)
      → k + length cs ≡ units
      → length ss ≡ length cs
      → length cpre ≡ k
      → length spre ≡ k
      → b.pso.center ≡ cpre ++ cs
      → b.pso.sp ≡ spre ++ ss
      → b.jobs i ≡ reading k dists outs
      → Reaches units i b
          (reading units
            (dists ++ all_dist cs b.pso.sam_in)
            (outs ++ unit_out ss (all_dist cs b.pso.sam_in)))
          b.pso
          b.sse
  unfolding all_dist unit_out read_unit set_job
  reads_all units i k b dists outs [] [] cpre spre e h lc ls ec es j =
      stay units i b _
        (j ∙ λ t. reading (k_units t) (sym (append-nil dists) t) (sym (append-nil outs) t))
    where
      k_units : k ≡ units
      k_units = omega arith
  reads_all units i k b dists outs [] (s ∷ ss) cpre spre e h lc ls ec es j = absurd (omega arith)
  reads_all units i k b dists outs (c ∷ cs) [] cpre spre e h lc ls ec es j = absurd (omega arith)
  reads_all units i k b dists outs (c ∷ cs) (s ∷ ss) cpre spre e h lc ls ec es j =
      let row = dist_row c b.pso.sam_in in
      let at_c = ap (λ xs. get_or xs k (num 0)) ec ∙ get_or-append cpre cs k c (num 0) lc in
      let at_s = ap (λ xs. get_or xs k (num 0)) es ∙ get_or-append spre ss k s (num 0) ls in
      let job = update-here b.jobs i _ ∙ λ t.
      reading (k + 1) (dists ++ (dist_row (at_c t) b.pso.sam_in ∷ []))
        (outs ++ (out_row (at_s t) (dist_row (at_c t) b.pso.sam_in) ∷ [])) in
      let rest =
        reads_all units i (k + 1) (read_unit i k dists outs b) (dists ++ (row ∷ []))
          (outs ++ (out_row s row ∷ [])) cs ss (cpre ++ (c ∷ [])) (spre ++ (s ∷ [])) (omega arith)
          (omega arith) (omega (arith, length-append cpre (c ∷ [])))
          (omega (arith, length-append spre (s ∷ []))) (ec ∙ sym (append_assoc cpre (c ∷ []) cs))
          (es ∙ sym (append_assoc spre (s ∷ []) ss)) job in
      step_then units i b (reading k dists outs) _ _ b.pso b.pso b.sse b.sse j
        (reads k dists outs (omega arith))
        (subst (λ a. Reaches units i (read_unit i k dists outs b) a b.pso b.sse)
          (λ t.
            reading units (append_assoc dists (row ∷ []) (all_dist cs b.pso.sam_in) t)
              (append_assoc outs (out_row s row ∷ []) (unit_out ss (all_dist cs b.pso.sam_in)) t))
          rest)
