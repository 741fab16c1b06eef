-- ===== src/Examples/Rounds.antt =====
-- Examples of the theorems on a call of the controller with packets between its parts.
use gapso_rbf_pid.Prelude.{ℕ, ◌+◌, ◌≡◌, [], refl, arith}
use gapso_rbf_pid.Swarm.{scaled}
use gapso_rbf_pid.Control.Bounds.{clamp_prob}
use gapso_rbf_pid.Control.Pid.{pid_law}
use gapso_rbf_pid.Sched.{State}
use gapso_rbf_pid.Sched.Packets.{rbfgrad_enqueue}
use gapso_rbf_pid.Sched.Admin.{rbfgrad_init}
use gapso_rbf_pid.Sched.System.{enqueues}
use gapso_rbf_pid.Sched.Round.{
  Running, idle, advance, advances, Moves, done, begins, works, meets, Call, begun, met,
}
use gapso_rbf_pid.Sched.Round.Law.{Call-pid_law, Call-advances, Call-ends}
use gapso_rbf_pid.Sched.Round.Reach.{initialised, Holds, reachable-Holds}
use gapso_rbf_pid.Examples.Binary64.{Binary64, binary64-IsOrdered}
use gapso_rbf_pid.Examples.Fifo.{Fifo, fifo, fifo-IsQueue}
use gapso_rbf_pid.Examples.Inputs.{draws, options, table, allocated, busy}
use gapso_rbf_pid.Examples.Discipline.{options-IsSensible}

-- the inputs are loaded, then a packet comes in
abbrev first_part : Running ℕ Fifo ℕ
first_part = advance draws idle busy

abbrev with_packet : Running ℕ Fifo ℕ
with_packet = record {
  state = (rbfgrad_enqueue fifo draws 59 first_part.state).1;
  phase = first_part.phase;
}

one_packet : Call fifo draws busy 1 with_packet
unfolding advance
one_packet = met 1 first_part.phase first_part.state _ tt (enqueues 59 first_part.state) begun

abbrev finished : Running ℕ Fifo ℕ
finished = advances draws 16 with_packet

whole-Call : Call fifo draws busy (16 + 1) finished
unfolding advance
whole-Call = Call-advances fifo draws 16 1 busy with_packet (omega arith) one_packet

finished-idle : finished.phase ≡ idle
finished-idle = (Call-ends fifo draws busy (16 + 1) finished whole-Call).1.1 (omega arith)

Call-pid_law_example :
    let q = finished.state.params in
    (q.p_k
      ≡ clamp_prob busy.params.p_min busy.params.p_max (
          pid_law busy.params.p_k q.kp_k q.ki_k q.kd_k
            (scaled busy.params.e_k)
            (scaled busy.params.e_k_1)
            (scaled busy.params.e_k_2)))
    × (q.p_k_1 ≡ busy.params.p_k)
Call-pid_law_example = Call-pid_law fifo draws busy (16 + 1) finished whole-Call finished-idle

abbrev ready : State ℕ Fifo ℕ
ready = initialised fifo draws options table allocated

abbrev ready_loaded : Running ℕ Fifo ℕ
ready_loaded = advance draws idle ready

abbrev ready_packet : State ℕ Fifo ℕ
ready_packet = (rbfgrad_enqueue fifo draws 59 ready_loaded.state).1

abbrev ready_searching : Running ℕ Fifo ℕ
ready_searching = advance draws ready_loaded.phase ready_packet

ready-Moves : Moves fifo draws (record { state = ready; phase = idle }) ready_searching
unfolding advance rbfgrad_init
ready-Moves = begins ready _ refl (
    meets ready_loaded.phase ready_loaded.state ready_packet _ (enqueues 59 ready_loaded.state)
      (works ready_loaded.phase ready_packet _ tt (done ready_searching)))

reachable-Holds_example : Holds fifo draws ready_searching
reachable-Holds_example =
    reachable-Holds fifo draws fifo-IsQueue binary64-IsOrdered options table
      (record { limit = 6000; packets = [] }) allocated ready_searching options-IsSensible refl refl
      ready-Moves
