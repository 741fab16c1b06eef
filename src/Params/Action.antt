-- ===== src/Params/Action.antt =====
-- include/rbfgrad.h: `rbfgrad_cmp_prob` and `rbfgrad_action`, the marking decision for one packet.
-- `net_random` is a u32 of the kernel's generator; `abs` and the casts wrap as in `Prelude.Machine`.
pub mod Chance
pub mod Count
use gapso_rbf_pid.Prelude.{ℕ, Bool, true, false, if◌then◌else◌, int_abs, int_of_u32, u32}
use gapso_rbf_pid.Prelude.Int.{ℤ, ltb_ℤ}
use gapso_rbf_pid.Double.{Double, ◌⊗◌, num}
use gapso_rbf_pid.Params.{Params, rand_max}

pub data CmpProb : Type 0 where
  below_prob above_prob : CmpProb

pub data Action : Type 0 where
  dont_mark prob_mark : Action

-- the comparison, on the two integers that it computes
unfoldable pub compare_prob : ℕ → ℤ → CmpProb
compare_prob r current_p =
    if ltb_ℤ (int_abs (int_of_u32 (u32 r))) current_p then below_prob else above_prob

-- the `switch`; `BUG()` after it is never reached
unfoldable pub action_of : CmpProb → Action
action_of above_prob = dont_mark
action_of below_prob = prob_mark

module _ {D : Type 0} ⦃d : Double D⦄ where
  open d use {to_int}

  -- (int)(p->p_k*RAND_MAX)
  abbrev pub threshold : Params D → ℤ
  threshold p = to_int (p.p_k ⊗ num rand_max)

  -- `r` is what `net_random` returns
  unfoldable pub rbfgrad_cmp_prob : Params D → ℕ → CmpProb
  unfolding compare_prob
  rbfgrad_cmp_prob p r = compare_prob r (threshold p)

  unfoldable pub rbfgrad_action : Params D → ℕ → Action
  unfolding rbfgrad_cmp_prob action_of
  rbfgrad_action p r = action_of (rbfgrad_cmp_prob p r)
