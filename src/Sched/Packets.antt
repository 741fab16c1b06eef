-- ===== src/Sched/Packets.antt =====
-- modules/sch_rbfgrad.c: the packet path, `rbfgrad_enqueue` to `rbfgrad_reset`.
use gapso_rbf_pid.Prelude.{
  ℕ, ◌+◌, ◌-◌, ◌/◌, ◌%◌, List, [], ◌∷◌, Bool, not, Option, none, some, ltb, ◌==◌, if◌then◌else◌,
  get_or, u32, u32_sub, u32_of_int, int_of_u32,
}
use gapso_rbf_pid.Double.{Double, num}
use gapso_rbf_pid.Params.{Params}
use gapso_rbf_pid.Params.Init.{random32, rbfgrad_restart}
use gapso_rbf_pid.Params.Action.{Action, dont_mark, prob_mark, rbfgrad_action}
use gapso_rbf_pid.Sched.{Kernel, State, QueueShow, queue_show_max, cyc_max}

abbrev pub net_xmit_success : ℕ
net_xmit_success = 0

abbrev pub net_xmit_cn : ℕ
net_xmit_cn = 2

-- for(i=SAM_NUM-1;i>0;i--) a[i]=a[i-1]; a[0]=x
unfoldable pub shift {ℓ} : {A : Type ℓ} → A → List A → List A
shift x [] = []
shift x (y ∷ ys) = x ∷ shift y ys

-- queue_show_base_rbfgrad[i]=v
abbrev pub write_show : (ℕ → QueueShow) → ℕ → QueueShow → ℕ → QueueShow
write_show f i v j = if j == i then v else f j

-- "历史数据更新": the histories and the three errors
unfoldable pub update_history : {D : Type 0} → ℕ → Params D → Params D
update_history qlen p = record p {
  proba = shift p.p_k_1 p.proba;
  queue_len = shift (int_of_u32 qlen) p.queue_len;
  e_k_2 = p.e_k_1;
  e_k_1 = p.e_k;
  e_k = int_of_u32 (u32_sub qlen (u32_of_int p.q_ref));
}

module _ {D Q B : Type 0} ⦃d : Double D⦄ where
  open d use {bits}

  -- TC_RBFGRAD_ECN is 1, TC_RBFGRAD_HARDDROP is 2
  unfoldable pub rbfgrad_use_ecn : State D Q B → Bool
  rbfgrad_use_ecn s = not (s.flags % 2 == 0)

  unfoldable pub rbfgrad_use_harddrop : State D Q B → Bool
  rbfgrad_use_harddrop s = not (s.flags / 2 % 2 == 0)

  -- the entry that the two branches of the switch write
  unfoldable pub sample : Action → State D Q B → QueueShow
  sample a s = record {
    numbers = s.array_element;
    length = s.qlen;
    mark_type = a;
    jacobian = bits s.params.jacobian;
    net_out = bits (get_or s.params.net_out s.params.gbest_index (num 0));
    p = bits s.params.p_k;
    kp = bits s.params.kp_k;
    ki = bits s.params.ki_k;
    kd = bits s.params.kd_k;
    e_k = s.params.e_k;
    e_k_1 = s.params.e_k_1;
    e_k_2 = s.params.e_k_2;
  }

  -- what follows `if(cyc_count==CYC_MAX)`
  unfoldable pub take_sample : Action → State D Q B → State D Q B
  take_sample a s = record s {
    queue_show = write_show s.queue_show s.array_element (sample a s);
    params = update_history s.qlen s.params;
    array_element =
        if ltb s.array_element (queue_show_max - 1) then s.array_element + 1 else s.array_element;
    cyc_count = 0;
  }

  unfoldable pub count_cycle : Action → State D Q B → State D Q B
  count_cycle a s =
      let s' = record s { cyc_count = s.cyc_count + 1 } in
      if s.cyc_count + 1 == cyc_max then take_sample a s' else s'

module _ {D Q Skb B : Type 0} ⦃d : Double D⦄ (k : Kernel Q Skb B) where
  -- from `qdisc_enqueue` on: the code that is returned, and the state
  unfoldable pub to_child : Skb → State D Q B → ℕ × State D Q B
  to_child skb s =
      let (ret, child) = k.enqueue skb s.qdisc in
      let s' = record s { qdisc = child } in
      (
        ret,
        if ret == net_xmit_success
            then record s' { qlen = u32 (s.qlen + 1); backlog = u32 (s.backlog + k.len skb) }
            else if k.xmit_drop_count ret
            then record s' {
              stats = record (s.stats) { pdrop = u32 (s.stats.pdrop + 1) };
              drops = u32 (s.drops + 1);
            }
            else s',
      )

  -- `congestion_drop`, with its counter
  unfoldable pub congestion_drop : Skb → State D Q B → ℕ × State D Q B
  congestion_drop skb s = (
    net_xmit_cn,
    record s {
      stats = record (s.stats) { prob_drop = u32 (s.stats.prob_drop + 1) };
      drops = k.qdisc_drop skb s.drops;
    },
  )

  -- a packet whose ECN field was set to CE
  unfoldable pub mark_packet : Skb → State D Q B → ℕ × State D Q B
  mark_packet skb s =
      to_child skb
        (record s { stats = record (s.stats) { prob_mark = u32 (s.stats.prob_mark + 1) } })

  -- the rest of the case RBFGRAD_PROB_MARK
  unfoldable pub mark_or_drop : Skb → State D Q B → ℕ × State D Q B
  mark_or_drop skb s =
      let s' = record s { overlimits = u32 (s.overlimits + 1) } in
      if rbfgrad_use_ecn s
      then elim (k.set_ce skb) [ some skb' ↦ mark_packet skb' s' | none ↦ congestion_drop skb s' ]
      else congestion_drop skb s'

  -- the two cases of the switch
  unfoldable pub act : Action → Skb → State D Q B → ℕ × State D Q B
  act dont_mark skb s = to_child skb (count_cycle dont_mark s)
  act prob_mark skb s = mark_or_drop skb (count_cycle prob_mark s)

  unfoldable pub rbfgrad_enqueue : (ℕ → ℕ) → Skb → State D Q B → ℕ × State D Q B
  rbfgrad_enqueue draw skb s =
      act (rbfgrad_action s.params (random32 draw s.drawn)) skb
        (record s { pkg_number = u32 (s.pkg_number + 1); drawn = s.drawn + 1 })

  unfoldable pub rbfgrad_dequeue : State D Q B → Option Skb × State D Q B
  rbfgrad_dequeue s =
      let (found, child) = k.dequeue s.qdisc in
      let s' = record s { qdisc = child } in
      elim found [
        | some skb ↦ (
          some skb,
          record s' {
            bstats = k.bstats_update skb s.bstats;
            backlog = u32_sub s.backlog (u32 (k.len skb));
            qlen = u32_sub s.qlen 1;
          },
        )
        | none ↦ (none, s')
      ]

  unfoldable pub rbfgrad_peek : State D Q B → Option Skb × State D Q B
  rbfgrad_peek s = let (found, child) = k.peek s.qdisc in (found, record s { qdisc = child })

  unfoldable pub rbfgrad_drop : State D Q B → ℕ × State D Q B
  rbfgrad_drop s = elim (k.drop s.qdisc) [
    | none ↦ (0, s)
    | some (len, child) ↦
        (if len == 0 then (0, record s { qdisc = child }) else (
          len,
          record s {
            qdisc = child;
            backlog = u32_sub s.backlog (u32 len);
            stats = record (s.stats) { other = u32 (s.stats.other + 1) };
            drops = u32 (s.drops + 1);
            qlen = u32_sub s.qlen 1;
          },
        ))
  ]

  unfoldable pub rbfgrad_reset : State D Q B → State D Q B
  rbfgrad_reset s = record s {
    qdisc = k.reset s.qdisc;
    backlog = 0;
    qlen = 0;
    array_element = 0;
    params = rbfgrad_restart s.params;
  }
