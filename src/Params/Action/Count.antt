-- ===== src/Params/Action/Count.antt =====
-- include/rbfgrad.h: how many of the values of `net_random` mark a packet.
use Prim.Native.Nat.{min}
use gapso_rbf_pid.Prelude.{
  ℕ, zero, suc, ◌+◌, ◌-◌, ◌*◌, ◌^◌, ◌≤◌, ◌<◌, ◌≡◌, ◌↔◌, ◌⊎◌, refl, ◌==◌, ltb, if◌then◌else◌, arith,
}
use gapso_rbf_pid.Prelude.Int.{pos}
use gapso_rbf_pid.Double.{Double}
use gapso_rbf_pid.Params.{Params, rand_max}
use gapso_rbf_pid.Params.Action.{Action, dont_mark, prob_mark, threshold, rbfgrad_action}
use gapso_rbf_pid.Params.Action.Chance.{rbfgrad_action_marks}

abbrev marks : Action → ℕ
marks dont_mark = 0
marks prob_mark = 1

-- of one value, given what decides it
marks-eq :
    (a : Action) (r c : ℕ)
    → c ≤ rand_max
    → (a ≡ prob_mark) ↔ ((r < c) ⊎ (2 ^ 32 < r + c) ⊎ (r ≡ 2 ^ 31))
    → marks a
      ≡ (if ltb r c then 1 else if ltb (2 ^ 32) (r + c) then 1 else if r == 2 ^ 31 then 1 else 0)
marks-eq dont_mark r c h e = ground arith
marks-eq prob_mark r c h e = ground (arith, e.0 refl)

module _ {D : Type 0} ⦃d : Double D⦄ where
  -- the values below `n` that mark
  pub count_marks : Params D → ℕ → ℕ
  count_marks p zero = 0
  count_marks p (suc n) = count_marks p n + marks (rbfgrad_action p n)

  count_marks_below :
      (p : Params D) (c n : ℕ)
      → c ≤ rand_max
      → threshold p ≡ pos c
      → n ≤ 2 ^ 32
      → count_marks p n ≡ min n c + (n - (2 ^ 32 + 1 - c)) + (if ltb (2 ^ 31) n then 1 else 0)
  unfolding count_marks
  count_marks_below p c zero hc e h = ground arith
  count_marks_below p c (suc n) hc e h =
      let old = count_marks_below p c n hc e (omega arith) in
      let new =
        marks-eq (rbfgrad_action p n) n c hc (rbfgrad_action_marks p n c (omega arith) hc e) in
      ground arith

  -- For a threshold c that is not negative, 2 * c of the 2 ^ 32 values of the random number mark a
  -- packet, so that the chance is c / 2 ^ 31; where c is 0, one value marks.
  pub count_marks-all :
      (p : Params D) (c : ℕ)
      → c ≤ rand_max
      → threshold p ≡ pos c
      → count_marks p (2 ^ 32) ≡ (if c == 0 then 1 else 2 * c)
  count_marks-all p c hc e =
      let all = count_marks_below p c (2 ^ 32) hc e (omega arith) in ground arith
