-- ===== src/Params/Action/Chance.antt =====
-- How many of the 2 ^ 32 values of `net_random` mark a packet, in terms of the threshold.
use gapso_rbf_pid.Prelude.{ℕ, ◌+◌, ◌^◌, ◌≤◌, ◌<◌, ◌≡◌, ◌↔◌, ◌⊎◌, arith}
use gapso_rbf_pid.Prelude.Int.{pos}
use gapso_rbf_pid.Double.{Double}
use gapso_rbf_pid.Params.{Params, rand_max}
use gapso_rbf_pid.Params.Action.{prob_mark, threshold, rbfgrad_action}

module _ {D : Type 0} ⦃d : Double D⦄ where
  -- For a threshold c that is not negative, a packet is marked exactly when the random number is
  -- below c, when it is the pattern of an `int` above -c, or when it is that of INT_MIN, whose `abs`
  -- is itself. So 2 * c of the 2 ^ 32 values mark, and one value marks where c is 0.
  pub rbfgrad_action_marks :
      (p : Params D) (r c : ℕ)
      → r < 2 ^ 32
      → c ≤ rand_max
      → threshold p ≡ pos c
      → (rbfgrad_action p r ≡ prob_mark) ↔ ((r < c) ⊎ (2 ^ 32 < r + c) ⊎ (r ≡ 2 ^ 31))
  unfolding rbfgrad_action
  rbfgrad_action_marks p r c hr hc e = (λ h. ground arith, λ h. ground arith)
