-- ===== src/Sched.antt =====
-- modules/sch_rbfgrad.c: the state of the queueing discipline and of its module, and what it uses of
-- the kernel. `struct Qdisc` and `struct rbfgrad_sched_data` are one record with the module's globals.
pub mod Packets
pub mod Admin
pub mod Reports
pub mod Accounting
pub mod Changes
pub mod Limits
pub mod Dump
pub mod System
pub mod Samples
pub mod Round
pub mod Marking
pub mod Order
use gapso_rbf_pid.Prelude.{
  ℕ, ◌+◌, ◌<◌, ◌≡◌, List, Bool, true, false, Option, none, some, ◌⊎◌, inr, u32, u32_sub,
}
use gapso_rbf_pid.Prelude.Int.{ℤ}
use gapso_rbf_pid.Params.{Params}
use gapso_rbf_pid.Params.Action.{Action}

-- include/rbfgrad_queue.h: `struct queue_show`, with the fields that the module writes; a double is
-- kept as the bits of a `long long`.
pub record QueueShow : Type 0 where
  pub numbers : ℕ
  pub length : ℕ
  pub mark_type : Action
  pub jacobian : ℕ
  pub net_out : ℕ
  pub p : ℕ
  pub kp : ℕ
  pub ki : ℕ
  pub kd : ℕ
  pub e_k : ℤ
  pub e_k_1 : ℤ
  pub e_k_2 : ℤ

abbrev pub queue_show_max : ℕ
queue_show_max = 30000

abbrev pub cyc_max : ℕ
cyc_max = 20

-- `struct rbfgrad_stats`
pub record Stats : Type 0 where
  pub prob_drop : ℕ
  pub prob_mark : ℕ
  pub forced_drop : ℕ
  pub forced_mark : ℕ
  pub pdrop : ℕ
  pub other : ℕ

-- The kernel's functions on a child queue of type `Q`, on packets of type `Skb`, and on the
-- counters `bstats` of type `B`. They are not part of the repository.
pub record Kernel (Q Skb B : Type 0) : Type 0 where
  -- qdisc_enqueue: the code that it returns, and the child after it
  pub enqueue : Skb → Q → ℕ × Q
  pub dequeue : Q → Option Skb × Q
  pub peek : Q → Option Skb × Q
  -- child->ops->drop: `none` where the child has no such operation
  pub drop : Q → Option (ℕ × Q)
  pub reset : Q → Q
  -- child->q.qlen, child->qstats.backlog and child->handle
  pub qlen : Q → ℕ
  pub backlog : Q → ℕ
  pub handle : Q → ℕ
  -- &noop_qdisc
  pub noop : Q
  -- fifo_create_dflt(sch, &bfifo_qdisc_ops, limit): an error code or a child
  pub fifo_create_dflt : ℕ → ℤ ⊎ Q
  -- qdisc_tree_decrease_qlen(child, n): what it makes of sch->q.qlen
  pub tree_decrease_qlen : Q → ℕ → ℕ → ℕ
  -- skb->len
  pub len : Skb → ℕ
  -- INET_ECN_set_ce: `none` where it returns 0
  pub set_ce : Skb → Option Skb
  -- qdisc_drop: what it makes of sch->qstats.drops
  pub qdisc_drop : Skb → ℕ → ℕ
  pub bstats_update : Skb → B → B
  pub xmit_drop_count : ℕ → Bool

pub record State (D Q B : Type 0) : Type 0 where
  -- struct Qdisc
  pub qlen : ℕ
  pub backlog : ℕ
  pub drops : ℕ
  pub overlimits : ℕ
  pub bstats : B
  -- struct rbfgrad_sched_data
  pub limit : ℕ
  pub flags : ℕ
  pub params : Params D
  pub stats : Stats
  pub qdisc : Q
  -- globals of the module: the counters of type int are bit patterns
  pub cyc_count : ℕ
  pub prob_number : ℕ
  pub pkg_number : ℕ
  pub array_element : ℕ
  pub queue_show : ℕ → QueueShow
  -- the threads of tsk_prob and tsk_stop_prob run
  pub prob_thread : Bool
  pub stop_thread : Bool
  -- calls of kernel_fpu_begin less those of kernel_fpu_end, where one function makes only one of them
  pub fpu : ℤ
  -- the next draw of the kernel's random numbers
  pub drawn : ℕ

-- Documented behaviour of a queue: it counts its packets and their bytes.
pub record IsQueue {Q Skb B : Type 0} (k : Kernel Q Skb B) : Type 0 where
  pub enqueue_ok :
      (s : Skb) (q : Q)
      → (k.enqueue s q).0 ≡ 0
      → (k.qlen (k.enqueue s q).1 ≡ k.qlen q + 1)
        × (k.backlog (k.enqueue s q).1 ≡ k.backlog q + k.len s)
  pub enqueue_fails :
      (s : Skb) (q : Q)
      → 0 < (k.enqueue s q).0
      → (k.qlen (k.enqueue s q).1 ≡ k.qlen q) × (k.backlog (k.enqueue s q).1 ≡ k.backlog q)
  pub dequeue_some :
      (q : Q) (s : Skb)
      → (k.dequeue q).0 ≡ some s
      → (k.qlen q ≡ k.qlen (k.dequeue q).1 + 1)
        × (k.backlog q ≡ k.backlog (k.dequeue q).1 + k.len s)
  pub dequeue_none :
      (q : Q)
      → (k.dequeue q).0 ≡ none
      → (k.qlen (k.dequeue q).1 ≡ k.qlen q) × (k.backlog (k.dequeue q).1 ≡ k.backlog q)
  pub drop_some :
      (q q' : Q) (n : ℕ)
      → k.drop q ≡ some (n, q')
      → 0 < n
      → (k.qlen q ≡ k.qlen q' + 1) × (k.backlog q ≡ k.backlog q' + n)
  pub drop_none :
      (q q' : Q) → k.drop q ≡ some (0, q') → (k.qlen q' ≡ k.qlen q) × (k.backlog q' ≡ k.backlog q)
  pub peek_same :
      (q : Q) → (k.qlen (k.peek q).1 ≡ k.qlen q) × (k.backlog (k.peek q).1 ≡ k.backlog q)
  pub reset_empty : (q : Q) → (k.qlen (k.reset q) ≡ 0) × (k.backlog (k.reset q) ≡ 0)
  pub noop_empty : (k.qlen k.noop ≡ 0) × (k.backlog k.noop ≡ 0)
  pub fifo_empty :
      (n : ℕ) (q : Q) → k.fifo_create_dflt n ≡ inr q → (k.qlen q ≡ 0) × (k.backlog q ≡ 0)
  pub tree_decrease : (q : Q) (n old : ℕ) → k.tree_decrease_qlen q n old ≡ u32_sub old (u32 n)
