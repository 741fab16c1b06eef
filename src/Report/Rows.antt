-- ===== src/Report/Rows.antt =====
-- The rows that transfer.c makes of a whole file.
use gapso_rbf_pid.Prelude.{
  ℕ, zero, suc, ◌+◌, ◌-◌, ◌≡◌, ◌∙◌, sym, ap, refl, List, [], ◌∷◌, ◌++◌, length, replicate, All,
  arith,
}
use mathlib.Core.Path.{subst}
use gapso_rbf_pid.Double.{Double}
use gapso_rbf_pid.Sched.{QueueShow}
use gapso_rbf_pid.Report.Text.{long_of_int, skip_space, scan_signed, scan_long, fgets}
use gapso_rbf_pid.Report.QueueData.{header, header_title, header_names, l_show}
use gapso_rbf_pid.Report.Transfer.{
  Cell, transfer_cell, transfer_row, transfer_rows, transfer, row_count, col_count, cur_max,
}
use gapso_rbf_pid.Report.Row.{Fits, row_of, Reads, plotted, repeated_row, transfer_row-l_show}

fgets_title :
    (text : List ℕ)
    → fgets (cur_max - 1) (header ++ text)
      ≡ record { line = header_title; left = header_names ++ text }
unfolding fgets
fgets_title text = refl

fgets_names :
    (text : List ℕ)
    → fgets (cur_max - 1) (header_names ++ text) ≡ record { line = header_names; left = text }
unfolding fgets
fgets_names text = refl

-- the entries' text
abbrev pub lines : List QueueShow → List ℕ
lines [] = []
lines (s ∷ ss) = l_show s ++ lines ss

module _ {D : Type 0} ⦃d : Double D⦄ where
  open d use {of_bits}

  -- the rows of the entries, and `n` more where the last number stands in every column
  unfoldable pub plot_rows : ℕ → ℕ → List QueueShow → List (List (Cell D))
  plot_rows n a [] = replicate n (repeated_row a)
  plot_rows n a (s ∷ ss) = plotted s ∷ plot_rows n (long_of_int s.e_k_2) ss

  -- behind the end of the text
  transfer_row_end :
      (n j a : ℕ) (text : List ℕ)
      → skip_space text ≡ []
      → Reads {D = D} j a (replicate n a) [] (transfer_row n j a text)
  unfolding transfer_row scan_long scan_signed skip_space
  transfer_row_end zero j a text e = (refl, refl, e)
  transfer_row_end (suc n) j a text e =
      let ih = transfer_row_end n (j + 1) a [] refl in
      rw e (ap (◌∷◌ (transfer_cell j a)) ih.0, ih.1, ih.2)

  row_of-repeated_row : (a : ℕ) → row_of {D = D} 0 (replicate col_count a) ≡ repeated_row a
  unfolding transfer_cell
  row_of-repeated_row a = refl

  transfer_rows_end :
      (n a : ℕ) (text : List ℕ)
      → skip_space text ≡ []
      → transfer_rows {D = D} n a text ≡ replicate n (repeated_row a)
  unfolding transfer_rows skip_space
  transfer_rows_end zero a text e = refl
  transfer_rows_end (suc n) a text e =
      let r = transfer_row_end col_count 0 a text e in
      let rest = transfer_rows_end n a (transfer_row {D = D} col_count 0 a text).left r.2 in
      cc (r.0, r.1, row_of-repeated_row a, rest)

  transfer_rows-lines :
      (ss : List QueueShow) (n a : ℕ) (text : List ℕ)
      → All Fits ss
      → skip_space text ≡ skip_space (lines ss)
      → transfer_rows {D = D} (length ss + n) a text ≡ plot_rows n a ss
  unfolding plot_rows transfer_rows skip_space
  transfer_rows-lines [] n a text h e =
      subst (λ k. transfer_rows {D = D} k a text ≡ replicate n (repeated_row a)) {x = n}
        (omega arith) (transfer_rows_end n a text e)
  transfer_rows-lines (s ∷ ss) n a text h e =
      let r = transfer_row-l_show s a text (lines ss) (h.0) e in
      let left = (transfer_row {D = D} col_count 0 a text).left in
      let rest = transfer_rows-lines ss n (long_of_int s.e_k_2) left (h.1) r.2 in
      subst (λ k. transfer_rows {D = D} k a text ≡ plot_rows n a (s ∷ ss)) {x = suc (length ss + n)}
        (omega arith) (cc (r.0, r.1, rest))

  pub transfer-lines :
      (ss : List QueueShow) (n a : ℕ)
      → All Fits ss
      → length ss + n ≡ row_count
      → transfer a (header ++ lines ss)
        ≡ record { comment = b'#' ∷ header_names; rows = plot_rows n a ss }
  unfolding transfer
  transfer-lines ss n a h e =
      let rows = ap (λ k. transfer_rows k a (lines ss)) (sym e) in
      rw (fgets_title (lines ss), fgets_names (lines ss))
        (λ i. record {
          comment = b'#' ∷ header_names;
          rows = (rows ∙ transfer_rows-lines ss n a (lines ss) h refl) i;
        })
