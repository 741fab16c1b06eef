-- ===== src/Report/Session.antt =====
-- The entries that one read of the /proc file of the samples may show.
use Prim.Native.Nat.{min, max}
use gapso_rbf_pid.Prelude.{ℕ, zero, suc, ◌-◌, List, [], ◌∷◌}

abbrev pub count_up : ℕ → ℕ → List ℕ
count_up l zero = []
count_up l (suc n) = l ∷ count_up (suc l) n

-- at most how many entries one read shows, whatever its buffer
abbrev pub batch : ℕ → ℕ → ℕ
batch array_element start = max 2 (min (array_element - start) 40)
