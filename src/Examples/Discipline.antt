-- ===== src/Examples/Discipline.antt =====
-- Examples of the theorems on the discipline.
use Prim.Native.Nat.{min}
use gapso_rbf_pid.Prelude.{
  ℕ, ◌+◌, ◌-◌, ◌/◌, ◌%◌, ◌≡◌, ◌≢◌, ◌↔◌, refl, inr, true, List, [], ◌∷◌, ◌++◌, length, replicate,
  none, some, arith,
}
use gapso_rbf_pid.Prelude.Int.{pos}
use gapso_rbf_pid.Params.Init.{random32}
use gapso_rbf_pid.Params.Action.{rbfgrad_action}
use gapso_rbf_pid.Sched.{State, queue_show_max, cyc_max}
use gapso_rbf_pid.Sched.Packets.{rbfgrad_enqueue, rbfgrad_dequeue}
use gapso_rbf_pid.Sched.Admin.{Options, change_parsed, rbfgrad_change, rbfgrad_init}
use gapso_rbf_pid.Sched.Reports.{rbfgrad_graft}
use gapso_rbf_pid.Sched.Accounting.{IsCounted, enqueue-IsCounted}
use gapso_rbf_pid.Sched.Samples.{
  IsRecording, enqueue_all, enqueue_all-samples, enqueue_all-in_bounds,
}
use gapso_rbf_pid.Sched.Marking.{Outcome, enqueue-Outcome}
use gapso_rbf_pid.Sched.Changes.{change-error_unchanged, graft-IsCounted_iff, init-error_threads}
use gapso_rbf_pid.Sched.Order.{
  IsOrderly, Request, offers, takes, looks, controls, AsOffered, serve_all, all_given, all_accepted,
  serve_all-order,
}
use gapso_rbf_pid.Sched.Limits.{IsSensible}
use gapso_rbf_pid.Sched.System.{Steps, done, next, operates, enqueues, dequeues, Inv}
use gapso_rbf_pid.Sched.System.Reach.{reachable-Inv}
use gapso_rbf_pid.Examples.Binary64.{Binary64, binary64-IsOrdered}
use gapso_rbf_pid.Examples.Fifo.{Fifo, fifo, fifo-IsQueue}
use gapso_rbf_pid.Examples.Inputs.{draws, options, table, allocated, busy}

busy-IsCounted : IsCounted fifo busy
busy-IsCounted = record { qlen = refl; backlog = refl }

busy-IsRecording : IsRecording busy
busy-IsRecording = record { array_element = omega arith; cyc_count = omega arith }

enqueue-IsCounted_example : IsCounted fifo (rbfgrad_enqueue fifo draws 59 busy).1
enqueue-IsCounted_example = enqueue-IsCounted fifo fifo-IsQueue draws 59 busy busy-IsCounted

abbrev crowd : List ℕ
crowd = replicate 45 59

enqueue_all-samples_example :
    let t = enqueue_all fifo draws crowd busy in
    let n = busy.cyc_count + length crowd in
    (t.cyc_count ≡ n % cyc_max)
    × (t.array_element ≡ min (busy.array_element + n / cyc_max) (queue_show_max - 1))
enqueue_all-samples_example = enqueue_all-samples fifo draws crowd busy busy-IsRecording

enqueue_all-in_bounds_example :
    (enqueue_all fifo draws crowd busy).queue_show 30000 ≡ busy.queue_show 30000
enqueue_all-in_bounds_example =
    enqueue_all-in_bounds fifo draws crowd busy 30000 busy-IsRecording (omega arith)

enqueue-Outcome_example :
    Outcome fifo
      (rbfgrad_action busy.params (random32 draws busy.drawn))
      59
      busy
      (rbfgrad_enqueue fifo draws 59 busy)
enqueue-Outcome_example = enqueue-Outcome fifo draws 59 busy

abbrev half_given : Options ℕ
half_given = some (inr (record { parms = some options; stab = none }))

half_given_error : (rbfgrad_change fifo draws half_given busy).0 ≢ pos 0
unfolding rbfgrad_change change_parsed
half_given_error = λ e. ground arith

change-error_unchanged_example : (rbfgrad_change fifo draws half_given busy).1 ≡ busy
change-error_unchanged_example = change-error_unchanged fifo draws half_given busy half_given_error

graft-IsCounted_iff_example : IsCounted fifo (rbfgrad_graft fifo none busy).1 ↔ (busy.backlog ≡ 0)
graft-IsCounted_iff_example = graft-IsCounted_iff fifo fifo-IsQueue none busy tt busy-IsCounted

init_error : (rbfgrad_init fifo draws none allocated).0 ≢ pos 0
unfolding rbfgrad_init rbfgrad_change
init_error = λ e. ground arith

init-error_threads_example :
    let r = rbfgrad_init fifo draws none allocated in
    (r.1.prob_thread ≡ true) × (r.1.stop_thread ≡ true) × (r.1.params ≡ allocated.params)
init-error_threads_example = init-error_threads fifo draws none allocated init_error

pub options-IsSensible : IsSensible options
unfolding Binary64
options-IsSensible = record {
  limits = refl;
  start = (refl, refl);
  kp_k = refl;
  ki_k = refl;
  kd_k = refl;
}

abbrev started : State ℕ Fifo ℕ
started =
    (rbfgrad_init fifo draws (some (inr (record { parms = some options; stab = some table })))
      allocated).1

abbrev with_packet : State ℕ Fifo ℕ
with_packet = (rbfgrad_enqueue fifo draws 59 started).1

abbrev without_packet : State ℕ Fifo ℕ
without_packet = (rbfgrad_dequeue fifo with_packet).1

three-Steps : Steps fifo draws started (rbfgrad_enqueue fifo draws 60 without_packet).1
three-Steps = next started with_packet _ (operates _ _ (enqueues 59 started)) (
    next with_packet without_packet _ (operates _ _ (dequeues with_packet))
      (next without_packet _ _ (operates _ _ (enqueues 60 without_packet)) (done _)))

reachable-Inv_example : Inv fifo draws (rbfgrad_enqueue fifo draws 60 without_packet).1
reachable-Inv_example =
    reachable-Inv fifo draws fifo-IsQueue binary64-IsOrdered options table
      (record { limit = 6000; packets = [] }) allocated
      (rbfgrad_enqueue fifo draws 60 without_packet).1 options-IsSensible refl refl three-Steps

packets_of-IsOrderly : IsOrderly fifo (λ q. q.packets)
packets_of-IsOrderly = record {
  enqueue_ok = λ s q e. ground arith;
  enqueue_fails = λ s q e. ground arith;
  dequeue_some = λ q s e. ground arith;
  dequeue_none = λ q e. ground arith;
  peek_same = λ q. refl;
}

abbrev requests : List (Request ℕ)
requests = offers 59 ∷ looks ∷ takes ∷ controls ∷ offers 60 ∷ takes ∷ []

serve_all-order_example :
    (stored : List ℕ) × AsOffered fifo (all_accepted fifo draws requests busy) stored
    × (all_given fifo draws requests busy ++ (serve_all fifo draws requests busy).qdisc.packets
        ≡ busy.qdisc.packets ++ stored)
serve_all-order_example =
    serve_all-order fifo draws (λ q. q.packets) packets_of-IsOrderly requests busy
