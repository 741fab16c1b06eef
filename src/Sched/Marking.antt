-- ===== src/Sched/Marking.antt =====
-- `rbfgrad_enqueue` of modules/sch_rbfgrad.c: what becomes of one packet.
use gapso_rbf_pid.Prelude.{
  ℕ, ◌+◌, ◌≡◌, Bool, true, false, Option, none, some, arith, ◌==◌, Bool-cases, Option-cases, inl,
  inr, if◌then◌else◌, u32,
}
use mathlib.Core.Path.{subst}
use gapso_rbf_pid.Double.{Double}
use gapso_rbf_pid.Params.Init.{random32}
use gapso_rbf_pid.Params.Action.{Action, dont_mark, prob_mark, rbfgrad_action}
use gapso_rbf_pid.Sched.{Kernel, State}
use gapso_rbf_pid.Sched.Packets.{
  take_sample, count_cycle, to_child, congestion_drop, mark_packet, mark_or_drop, act,
  rbfgrad_enqueue, rbfgrad_use_ecn, net_xmit_cn,
}

module _ {D Q Skb B : Type 0} ⦃d : Double D⦄ (k : Kernel Q Skb B) where
  -- The packet is handed to the child, as `skb`, and the code that the child returns is passed on;
  -- if the child took it, it counts in the length and the backlog.
  pub record IsQueued (skb : Skb) (s : State D Q B) (r : ℕ × State D Q B) : Type 0 where
    pub code : r.0 ≡ (k.enqueue skb s.qdisc).0
    pub child : r.1.qdisc ≡ (k.enqueue skb s.qdisc).1
    pub qlen : r.1.qlen ≡ (if r.0 == 0 then u32 (s.qlen + 1) else s.qlen)
    pub backlog : r.1.backlog ≡ (if r.0 == 0 then u32 (s.backlog + k.len skb) else s.backlog)

  -- The packet is dropped before it reaches the child.
  pub record IsDropped (skb : Skb) (s : State D Q B) (r : ℕ × State D Q B) : Type 0 where
    pub code : r.0 ≡ net_xmit_cn
    pub child : r.1.qdisc ≡ s.qdisc
    pub qlen : r.1.qlen ≡ s.qlen
    pub backlog : r.1.backlog ≡ s.backlog
    pub drops : r.1.drops ≡ k.qdisc_drop skb s.drops

  -- The three counters of marking go up by these amounts.
  pub record Counts (over drop mark : ℕ) (s t : State D Q B) : Type 0 where
    pub overlimits : t.overlimits ≡ (if over == 0 then s.overlimits else u32 (s.overlimits + over))
    pub prob_drop :
        t.stats.prob_drop
        ≡ (if drop == 0 then s.stats.prob_drop else u32 (s.stats.prob_drop + drop))
    pub prob_mark :
        t.stats.prob_mark
        ≡ (if mark == 0 then s.stats.prob_mark else u32 (s.stats.prob_mark + mark))

  to_child-IsQueued :
      (skb : Skb) (s : State D Q B)
      → IsQueued skb s (to_child k skb s) × Counts 0 0 0 s (to_child k skb s).1
  unfolding to_child
  to_child-IsQueued skb s = ground arith

  -- What decides the outcome, and what it is counted from.
  record SameStart (s t : State D Q B) : Type 0 where
    qdisc : t.qdisc ≡ s.qdisc
    qlen : t.qlen ≡ s.qlen
    backlog : t.backlog ≡ s.backlog
    drops : t.drops ≡ s.drops
    overlimits : t.overlimits ≡ s.overlimits
    prob_drop : t.stats.prob_drop ≡ s.stats.prob_drop
    prob_mark : t.stats.prob_mark ≡ s.stats.prob_mark
    flags : t.flags ≡ s.flags

  count_cycle-SameStart : (a : Action) (s : State D Q B) → SameStart s (count_cycle a s)
  unfolding count_cycle take_sample
  count_cycle-SameStart a s = ground arith

  -- For a packet that is marked: whether it goes on or is dropped turns on the ECN flag of the
  -- discipline and on whether the packet's own field could be set.
  abbrev pub MarkOutcome : Bool → Option Skb → Skb → State D Q B → ℕ × State D Q B → Type 0
  MarkOutcome true (some marked) skb s r = IsQueued marked s r × Counts 1 0 1 s r.1
  MarkOutcome _ _ skb s r = IsDropped skb s r × Counts 1 1 0 s r.1

  abbrev pub Outcome : Action → Skb → State D Q B → ℕ × State D Q B → Type 0
  Outcome dont_mark skb s r = IsQueued skb s r × Counts 0 0 0 s r.1
  Outcome prob_mark skb s r = MarkOutcome (rbfgrad_use_ecn s) (k.set_ce skb) skb s r

  mark_or_drop-MarkOutcome :
      (skb : Skb) (s : State D Q B)
      → MarkOutcome (rbfgrad_use_ecn s) (k.set_ce skb) skb s (mark_or_drop k skb s)
  unfolding mark_or_drop mark_packet congestion_drop to_child
  mark_or_drop-MarkOutcome skb s = elim (Bool-cases (rbfgrad_use_ecn s)) [
    | inl e ↦ elim (Option-cases (k.set_ce skb)) [
      | inl e' ↦ rw (e, e') (ground arith)
      | inr (skb', e') ↦ rw (e, e') (ground arith)
    ]
    | inr e ↦ rw e (ground arith)
  ]

  MarkOutcome-start :
      (ecn : Bool) (field : Option Skb) (skb : Skb) (s t : State D Q B) (r : ℕ × State D Q B)
      → SameStart s t
      → MarkOutcome ecn field skb t r
      → MarkOutcome ecn field skb s r
  MarkOutcome-start true (some marked) skb s t r h m = ground arith
  MarkOutcome-start true none skb s t r h m = ground arith
  MarkOutcome-start false field skb s t r h m = ground arith

  use_ecn-start : (s t : State D Q B) → SameStart s t → rbfgrad_use_ecn t ≡ rbfgrad_use_ecn s
  unfolding rbfgrad_use_ecn
  use_ecn-start s t h = cc (h.flags)

  Outcome-start :
      (a : Action) (skb : Skb) (s t : State D Q B) (r : ℕ × State D Q B)
      → SameStart s t
      → Outcome a skb t r
      → Outcome a skb s r
  Outcome-start dont_mark skb s t r h m = ground arith
  Outcome-start prob_mark skb s t r h m =
      MarkOutcome-start (rbfgrad_use_ecn s) (k.set_ce skb) skb s t r h
        (subst (λ e. MarkOutcome e (k.set_ce skb) skb t r) (use_ecn-start s t h) m)

  act-Outcome : (a : Action) (skb : Skb) (s : State D Q B) → Outcome a skb s (act k a skb s)
  unfolding act
  act-Outcome dont_mark skb s =
      Outcome-start dont_mark skb s (count_cycle dont_mark s) _ (count_cycle-SameStart dont_mark s)
        (to_child-IsQueued skb (count_cycle dont_mark s))
  act-Outcome prob_mark skb s =
      Outcome-start prob_mark skb s (count_cycle prob_mark s) _ (count_cycle-SameStart prob_mark s)
        (mark_or_drop-MarkOutcome skb (count_cycle prob_mark s))

  -- A packet that is not to be marked is handed to the child, and the three counters of marking
  -- stay. One that is to be marked raises `overlimits`; if ECN is on and its field could be set, it
  -- goes to the child with the field set and `prob_mark` goes up; if not, it is dropped with the
  -- code NET_XMIT_CN, the child, the length and the backlog stay, and `prob_drop` goes up.
  pub enqueue-Outcome :
      (draw : ℕ → ℕ) (skb : Skb) (s : State D Q B)
      → Outcome
          (rbfgrad_action s.params (random32 draw s.drawn))
          skb
          s
          (rbfgrad_enqueue k draw skb s)
  unfolding rbfgrad_enqueue
  enqueue-Outcome draw skb s =
      let s' = record s { pkg_number = u32 (s.pkg_number + 1); drawn = s.drawn + 1 } in
      let a = rbfgrad_action s.params (random32 draw s.drawn) in
      Outcome-start a skb s s' _ (ground arith) (act-Outcome a skb s')
