-- ===== src/Examples/Controller.antt =====
-- Examples of the theorems on the controller.
use gapso_rbf_pid.Control.Pid.{
  pid_law, at_zero_or_more, sum_from, slopes, mark_probability-pid_law, mark_probability-learned,
}
use gapso_rbf_pid.Prelude.{
  take, ◌++◌, ℕ, ◌+◌, ◌*◌, ◌==◌, if◌then◌else◌, ◌%◌, ◌^◌, ◌<◌, ◌≡◌, ◌↔◌, ◌⊎◌, refl, true, false, [],
  map, All, get_or, leb, arith,
}
use gapso_rbf_pid.Prelude.Int.{◌+ℤ◌, ◌-ℤ◌, pos, negsuc}
use gapso_rbf_pid.Double.{◌⊖◌, ◌⊗◌, IsNumber, ◌⊕◌, ◌≺◌, num}
use gapso_rbf_pid.Params.{Params, max_epoch}
use gapso_rbf_pid.Params.Init.{rbfgrad_set_parms}
use gapso_rbf_pid.Params.Action.{threshold, rbfgrad_action, prob_mark}
use gapso_rbf_pid.Params.Action.Count.{count_marks, count_marks-all}
use gapso_rbf_pid.Params.Action.Chance.{rbfgrad_action_marks}
use gapso_rbf_pid.Params.Shape.{IsShaped, set_parms-IsShaped}
use gapso_rbf_pid.Exp.{exp, reduce, primary, remez, scale, add_exponent, set_high_word}
use gapso_rbf_pid.Exp.Scale.{exponent, fraction, sign_bit, add_exponent_fields}
use gapso_rbf_pid.Swarm.{
  scaled, get_rbf_sse, net_output, net_sum, hidden, sum_squares, start_search, update_gbest,
  update_pbest, move_particles, move_rows, move_row, add_rows, add_row, clamp_speed, inertia, least,
  least_from, better_vals, better_places, epoch, epochs, train,
}
use gapso_rbf_pid.Swarm.Best.{IsLeast}
use gapso_rbf_pid.Swarm.Learn.{train-optimal}
use gapso_rbf_pid.Swarm.Speed.{AllSlow, train-AllSlow}
use gapso_rbf_pid.Control.{load_inputs}
use gapso_rbf_pid.Control.Keeps.{SamePackets, controlled, trained, mark_probability-SamePackets}
use gapso_rbf_pid.Control.Bounds.{Between, HasGains, clamp_prob, mark_probability-bounds}
use gapso_rbf_pid.Examples.Binary64.{Binary64, binary64-IsOrdered}
use gapso_rbf_pid.Examples.Inputs.{draws, blank, options, table, configured, small}

abbrev half_way : Params ℕ
half_way = record blank { p_k = 0x3fe0_0000_0000_0000 }

half_way-threshold : threshold half_way ≡ pos 1073741823
unfolding Binary64
half_way-threshold = refl

rbfgrad_action_marks_example :
    (rbfgrad_action half_way 3000000000 ≡ prob_mark)
    ↔ ((3000000000 < 1073741823) ⊎ (2 ^ 32 < 3000000000 + 1073741823) ⊎ (3000000000 ≡ 2 ^ 31))
rbfgrad_action_marks_example =
    rbfgrad_action_marks half_way 3000000000 1073741823 (omega arith) (omega arith)
      half_way-threshold

count_marks-all_example :
    count_marks half_way (2 ^ 32) ≡ (if 1073741823 == 0 then 1 else 2 * 1073741823)
count_marks-all_example = count_marks-all half_way 1073741823 (omega arith) half_way-threshold

-- exp(1.0), and the double nearest to e below it
exp_one : ◌≡◌ {A = ℕ} (exp 0x3ff0_0000_0000_0000) 0x4005_bf0a_8b14_5769
unfolding Binary64 ◌+ℤ◌ ◌-ℤ◌ exp reduce primary remez scale add_exponent set_high_word
exp_one = refl

-- 1.5, whose exponent field is 1023, times 2 ^ -3
add_exponent_fields_example :
    (exponent (add_exponent 0x3ff8_0000_0000_0000 (negsuc 2)) ≡ 1020)
    × (fraction (add_exponent 0x3ff8_0000_0000_0000 (negsuc 2)) ≡ fraction 0x3ff8_0000_0000_0000)
    × (sign_bit (add_exponent 0x3ff8_0000_0000_0000 (negsuc 2)) ≡ sign_bit 0x3ff8_0000_0000_0000)
add_exponent_fields_example =
    add_exponent_fields 0x3ff8_0000_0000_0000 (negsuc 2) 1020 (omega arith) (omega arith) refl

IsNumber-of : (x : ℕ) → leb (x % 2 ^ 63) 0x7ff0_0000_0000_0000 ≡ true → IsNumber x
unfolding Binary64
IsNumber-of x h = ground arith

small_numbers : All (λ w. IsNumber (get_rbf_sse small w)) small.position
unfolding Binary64 ◌+ℤ◌ ◌-ℤ◌ get_rbf_sse net_output net_sum hidden sum_squares exp reduce primary
    remez scale add_exponent set_high_word
small_numbers = (
  IsNumber-of (get_rbf_sse small (get_or small.position 0 [])) refl,
  (IsNumber-of (get_rbf_sse small (get_or small.position 1 [])) refl, tt),
)

train-optimal_example :
    (get_rbf_sse small (train draws small 0).params.w_k ≡ (train draws small 0).params.gbestval)
    × ((n : ℕ)
        → n < max_epoch
        → IsLeast
            (train draws small 0).params.gbestval
            (map (get_rbf_sse small) (epochs draws n 0 (start_search small 0)).params.position))
train-optimal_example = train-optimal binary64-IsOrdered draws small 0 (omega arith) small_numbers

configured-IsShaped : IsShaped configured
configured-IsShaped = set_parms-IsShaped draws blank options table 0

slow_limit : (configured.mv ≺ Binary64.neg configured.mv) ≡ false
unfolding Binary64 rbfgrad_set_parms
slow_limit = refl

train-AllSlow_example : AllSlow configured.mv (train draws configured 0).params.vel
train-AllSlow_example =
    train-AllSlow binary64-IsOrdered draws configured 0 slow_limit configured-IsShaped

mark_probability-SamePackets_example : SamePackets configured (controlled draws configured 9)
mark_probability-SamePackets_example = mark_probability-SamePackets draws configured 9

configured_limits : (configured.p_max ≺ configured.p_min) ≡ false
unfolding Binary64 rbfgrad_set_parms
configured_limits = refl

configured-HasGains : HasGains configured
unfolding Binary64 rbfgrad_set_parms
configured-HasGains = record { kp_k = refl; ki_k = refl; kd_k = refl }

mark_probability-bounds_example :
    Between configured.p_min configured.p_max (controlled draws configured 9).p_k
    × HasGains (controlled draws configured 9)
mark_probability-bounds_example =
    mark_probability-bounds draws binary64-IsOrdered configured 9 configured_limits
      configured-HasGains

mark_probability-pid_law_example :
    let q = controlled draws configured 9 in
    (q.p_k
      ≡ clamp_prob configured.p_min configured.p_max (
          pid_law configured.p_k q.kp_k q.ki_k q.kd_k
            (scaled configured.e_k)
            (scaled configured.e_k_1)
            (scaled configured.e_k_2)))
    × (q.p_k_1 ≡ configured.p_k)
mark_probability-pid_law_example = mark_probability-pid_law draws configured 9

-- with a bound of 100 on the error
abbrev easy : Params ℕ
easy = record small { e0 = 0x4059_0000_0000_0000 }

-- the search ends below it
easy-trained : ((trained draws easy 5).gbestval ≺ easy.e0) ≡ true
unfolding Binary64 ◌+ℤ◌ ◌-ℤ◌ get_rbf_sse net_output net_sum hidden sum_squares exp reduce primary
    remez scale add_exponent set_high_word load_inputs train epochs epoch start_search update_gbest
    update_pbest move_particles move_rows move_row add_rows add_row clamp_speed inertia least
    least_from better_vals better_places
easy-trained = refl

mark_probability-learned_example :
    let q = controlled draws easy 5 in
    let t = trained draws easy 5 in
    let good = t.gbestval ≺ easy.e0 in
    let e = scaled {D = ℕ} easy.e_k in
    let e_1 = scaled {D = ℕ} easy.e_k_1 in
    let e_2 = scaled {D = ℕ} easy.e_k_2 in
    let input = take 5 easy.proba ++ take 5 (map (scaled {D = ℕ}) easy.queue_len) in
    let step = λ (k eta part : ℕ). at_zero_or_more (k ⊕ eta ⊗ e ⊗ q.jacobian ⊗ part) in
    (q.jacobian ≡ (
      if good then sum_from (num 0) (slopes input easy.p_k t.w_k easy.c_k easy.delta_k) else num 0))
    × (q.kp_k ≡ (if good then step easy.kp_k easy.eta_p (e ⊖ e_1) else easy.kp_k))
    × (q.ki_k ≡ (if good then step easy.ki_k easy.eta_i e else easy.ki_k))
    × (q.kd_k ≡ (if good then step easy.kd_k easy.eta_d (e ⊖ num 2 ⊗ e_1 ⊕ e_2) else easy.kd_k))
    × (q.kp_k_1 ≡ (if good then easy.kp_k else easy.kp_k_1))
    × (q.ki_k_1 ≡ (if good then easy.ki_k else easy.ki_k_1))
    × (q.kd_k_1 ≡ (if good then easy.kd_k else easy.kd_k_1))
mark_probability-learned_example = mark_probability-learned draws easy 5
