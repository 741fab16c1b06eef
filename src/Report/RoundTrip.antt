-- ===== src/Report/RoundTrip.antt =====
-- From the samples in the kernel to the rows of the plots.
use gapso_rbf_pid.Prelude.{
  ℕ, ◌+◌, ◌≡◌, ◌∙◌, refl, List, [], ◌∷◌, ◌++◌, get_or, length, replicate, All,
}
use gapso_rbf_pid.Double.{Double, IsStorable, num, ◌⊗◌}
use gapso_rbf_pid.Params.Action.{Action}
use gapso_rbf_pid.Sched.{State, QueueShow}
use gapso_rbf_pid.Sched.Packets.{sample}
use gapso_rbf_pid.Report.Text.{long_of_int}
use gapso_rbf_pid.Report.QueueData.{header, header_names, mark_number}
use gapso_rbf_pid.Report.Transfer.{Cell, whole, real, transfer, row_count}
use gapso_rbf_pid.Report.Row.{Fits, plotted, repeated_row}
use gapso_rbf_pid.Report.Rows.{lines, plot_rows, transfer-lines}

module _ {D Q B : Type 0} ⦃d : Double D⦄ where
  -- the entries that are written in these states
  abbrev pub entries : List (Action × State D Q B) → List QueueShow
  entries [] = []
  entries ((a, s) ∷ xs) = sample a s ∷ entries xs

  -- what the plots should have of one sampled state
  abbrev pub state_row : Action → State D Q B → List (Cell D)
  state_row a s =
      whole s.array_element
      ∷ whole s.qlen
      ∷ whole (mark_number a)
      ∷ real s.params.p_k
      ∷ real s.params.kp_k
      ∷ real s.params.ki_k
      ∷ real s.params.kd_k
      ∷ real s.params.jacobian
      ∷ real (get_or s.params.net_out s.params.gbest_index (num 0) ⊗ num 6500)
      ∷ whole (long_of_int s.params.e_k)
      ∷ whole (long_of_int s.params.e_k_1)
      ∷ whole (long_of_int s.params.e_k_2)
      ∷ []

  -- the rows of the states, and `n` more where the last number stands in every column
  unfoldable pub state_rows : ℕ → ℕ → List (Action × State D Q B) → List (List (Cell D))
  state_rows n last [] = replicate n (repeated_row last)
  state_rows n last ((a, s) ∷ xs) = state_row a s ∷ state_rows n (long_of_int s.params.e_k_2) xs

  plotted-sample :
      (laws : IsStorable D) (a : Action) (s : State D Q B) → plotted (sample a s) ≡ state_row a s
  unfolding sample
  plotted-sample laws a s =
      rw
        (
          laws.of_bits-bits s.params.p_k,
          laws.of_bits-bits s.params.kp_k,
          laws.of_bits-bits s.params.ki_k,
          laws.of_bits-bits s.params.kd_k,
          laws.of_bits-bits s.params.jacobian,
          laws.of_bits-bits (get_or s.params.net_out s.params.gbest_index (num 0)),
        )
        refl

  plot_rows-entries :
      (laws : IsStorable D) (xs : List (Action × State D Q B)) (n last : ℕ)
      → plot_rows n last (entries xs) ≡ state_rows n last xs
  unfolding plot_rows state_rows sample
  plot_rows-entries laws [] n last = refl
  plot_rows-entries laws ((a, s) ∷ xs) n last =
      λ i. plotted-sample laws a s i ∷ plot_rows-entries laws xs n (long_of_int s.params.e_k_2) i

  -- Where reading a stored pattern back gives the double, and the numbers of each entry fit in their
  -- types: from the file with the header and the entries that were written in given states,
  -- transfer.c writes the second line of the header as a comment, and a row for each state with the
  -- numbers and doubles that it had (the network's output times 6500). It always writes 20000 rows:
  -- in those behind the entries every column has the last number that was read.
  pub transfer-entries :
      (laws : IsStorable D) (xs : List (Action × State D Q B)) (n last : ℕ)
      → All Fits (entries xs)
      → length (entries xs) + n ≡ row_count
      → transfer last (header ++ lines (entries xs))
        ≡ record { comment = b'#' ∷ header_names; rows = state_rows n last xs }
  transfer-entries laws xs n last h e = transfer-lines (entries xs) n last h e ∙ λ i. record {
    comment = b'#' ∷ header_names;
    rows = plot_rows-entries laws xs n last i;
  }
