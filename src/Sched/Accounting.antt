-- ===== src/Sched/Accounting.antt =====
-- sch->q.qlen and sch->qstats.backlog in the packet path of modules/sch_rbfgrad.c.
use gapso_rbf_pid.Prelude.{ℕ, ◌≡◌, arith, u32, Option-cases, Bool-cases, inl, inr}
use gapso_rbf_pid.Double.{Double}
use gapso_rbf_pid.Params.Action.{Action, dont_mark, prob_mark}
use gapso_rbf_pid.Sched.{Kernel, State, IsQueue}
use gapso_rbf_pid.Sched.Packets.{
  take_sample, count_cycle, to_child, congestion_drop, mark_packet, mark_or_drop, act,
  rbfgrad_enqueue, rbfgrad_dequeue, rbfgrad_drop, rbfgrad_use_ecn,
}

module _ {D Q Skb B : Type 0} ⦃d : Double D⦄ (k : Kernel Q Skb B) where
  -- sch->q.qlen and sch->qstats.backlog, as 32-bit counters of what the child holds
  pub record IsCounted (s : State D Q B) : Type 0 where
    pub qlen : s.qlen ≡ u32 (k.qlen s.qdisc)
    pub backlog : s.backlog ≡ u32 (k.backlog s.qdisc)

  module _ (laws : IsQueue k) where
    open laws use {
      enqueue_ok, enqueue_fails, dequeue_some, dequeue_none, drop_some, drop_none, reset_empty,
    }

    to_child-IsCounted :
        (skb : Skb) (s : State D Q B) → IsCounted s → IsCounted (to_child k skb s).1
    unfolding to_child
    to_child-IsCounted skb s c = ground (arith, enqueue_ok skb s.qdisc, enqueue_fails skb s.qdisc)

    count_cycle-IsCounted :
        (a : Action) (s : State D Q B) → IsCounted s → IsCounted (count_cycle a s)
    unfolding count_cycle take_sample
    count_cycle-IsCounted a s c = ground arith

    mark_or_drop-IsCounted :
        (skb : Skb) (s : State D Q B) → IsCounted s → IsCounted (mark_or_drop k skb s).1
    unfolding mark_or_drop mark_packet congestion_drop
    mark_or_drop-IsCounted skb s c = elim (Bool-cases (rbfgrad_use_ecn s)) [
      | inl e ↦ elim (Option-cases (k.set_ce skb)) [
        | inl e' ↦ rw (e, e') (record { qlen = c.qlen; backlog = c.backlog })
        | inr (skb', e') ↦
            rw (e, e') (to_child-IsCounted skb' _ (record { qlen = c.qlen; backlog = c.backlog }))
      ]
      | inr e ↦ rw e (record { qlen = c.qlen; backlog = c.backlog })
    ]

    act-IsCounted :
        (a : Action) (skb : Skb) (s : State D Q B) → IsCounted s → IsCounted (act k a skb s).1
    unfolding act
    act-IsCounted dont_mark skb s c = to_child-IsCounted skb _ (count_cycle-IsCounted dont_mark s c)
    act-IsCounted prob_mark skb s c =
        mark_or_drop-IsCounted skb _ (count_cycle-IsCounted prob_mark s c)

    -- Every packet that is offered, whatever becomes of it, keeps the count.
    pub enqueue-IsCounted :
        (draw : ℕ → ℕ) (skb : Skb) (s : State D Q B)
        → IsCounted s
        → IsCounted (rbfgrad_enqueue k draw skb s).1
    unfolding rbfgrad_enqueue
    enqueue-IsCounted draw skb s c =
        act-IsCounted _ skb _ (record { qlen = c.qlen; backlog = c.backlog })

    -- A dequeue keeps the count, whether or not the child has a packet to give.
    pub dequeue-IsCounted : (s : State D Q B) → IsCounted s → IsCounted (rbfgrad_dequeue k s).1
    unfolding rbfgrad_dequeue
    dequeue-IsCounted s c = elim (Option-cases (k.dequeue s.qdisc).0) [
      | inl e ↦ rw (e, rbfgrad_dequeue) (ground (arith, dequeue_none s.qdisc e))
      | inr (skb, e) ↦ rw (e, rbfgrad_dequeue) (ground (arith, dequeue_some s.qdisc skb e))
    ]

    -- `rbfgrad_drop` keeps the count: where the child has no such operation, where it has nothing to
    -- drop, and where it drops a packet.
    pub drop-IsCounted : (s : State D Q B) → IsCounted s → IsCounted (rbfgrad_drop k s).1
    unfolding rbfgrad_drop
    drop-IsCounted s c = elim (Option-cases (k.drop s.qdisc)) [
      | inl e ↦ rw (e, rbfgrad_drop) c
      | inr ((n, q), e) ↦
          rw (e, rbfgrad_drop) (ground (arith, drop_some s.qdisc q n e, drop_none s.qdisc q))
    ]
