-- ===== src/Sched/Reports.antt =====
-- modules/sch_rbfgrad.c: the reports to user space and the class operations.
use Prim.Native.Nat.{bit_or}
use mathlib.Core.Option.{get_or}
use gapso_rbf_pid.Prelude.{
  ℕ, ◌+◌, Bool, true, false, Option, ◌⊎◌, inl, inr, leb, if◌then◌else◌, u32,
}
use gapso_rbf_pid.Prelude.Int.{ℤ, pos, negsuc, ltb_ℤ}
use gapso_rbf_pid.Double.{Double, num}
use gapso_rbf_pid.Params.{Qopt}
use gapso_rbf_pid.Sched.{Kernel, State}

abbrev pub emsgsize : ℤ
emsgsize = negsuc 89

-- `struct tc_rbfgrad_xstats`
pub record Xstats : Type 0 where
  pub early : ℕ
  pub pdrop : ℕ
  pub other : ℕ
  pub marked : ℕ

-- `struct qdisc_walker`; `fn` is the function that it calls
pub record Walker : Type 0 where
  pub stop : Bool
  pub skip : ℕ
  pub count : ℕ

module _ {D Q B : Type 0} ⦃d : Double D⦄ where
  -- The options that `rbfgrad_dump` puts; what its initialiser leaves out is 0.
  unfoldable pub dump_options : State D Q B → Qopt D
  dump_options s = record {
    q_ref = s.params.q_ref;
    p_init = num 0;
    p_min = num 0;
    p_max = s.params.p_max;
    kp_k = s.params.kp_k;
    ki_k = s.params.ki_k;
    kd_k = s.params.kd_k;
    eta_p = s.params.eta_p;
    eta_i = s.params.eta_i;
    eta_d = s.params.eta_d;
    n = s.params.n;
    m = s.params.m;
    alpha = s.params.alpha;
    eta = s.params.eta;
    sampl_period = s.params.sampl_period;
    scell_log = 0;
    limit = s.limit;
    flags = 0;
  }

  unfoldable pub rbfgrad_dump_stats : State D Q B → Xstats
  rbfgrad_dump_stats s = record {
    early = u32 (s.stats.prob_drop + s.stats.forced_drop);
    pdrop = s.stats.pdrop;
    other = s.stats.other;
    marked = u32 (s.stats.prob_mark + s.stats.forced_mark);
  }

  unfoldable pub rbfgrad_leaf : State D Q B → Q
  rbfgrad_leaf s = s.qdisc

  unfoldable pub rbfgrad_get : State D Q B → ℕ → ℕ
  rbfgrad_get s classid = 1

  unfoldable pub rbfgrad_put : State D Q B → ℕ → State D Q B
  rbfgrad_put s arg = s

module _ {D Q Skb B : Type 0} ⦃d : Double D⦄ (k : Kernel Q Skb B) where
  -- `room` says whether nla_nest_start and NLA_PUT find room in the message: where they do, the
  -- value is what nla_nest_end returns, here 0, with the options.
  unfoldable pub rbfgrad_dump : Bool → State D Q B → (ℤ ⊎ Qopt D) × State D Q B
  rbfgrad_dump room s = (
    if room then inr (dump_options s) else inl emsgsize,
    record s { backlog = k.backlog s.qdisc },
  )

  -- tcm_handle (with TC_H_MIN(1), which is 1) and tcm_info
  unfoldable pub rbfgrad_dump_class : ℕ → State D Q B → ℕ × ℕ
  rbfgrad_dump_class tcm_handle s = (bit_or tcm_handle 1, k.handle s.qdisc)

  -- the old child, after its reset, and the state
  unfoldable pub rbfgrad_graft : Option Q → State D Q B → Q × State D Q B
  rbfgrad_graft new s =
      let old = s.qdisc in
      (
        k.reset old,
        record s { qdisc = get_or new k.noop; qlen = k.tree_decrease_qlen old (k.qlen old) s.qlen },
      )

-- `fn` is what the walker's function returns for the one class. Beside the walker: whether it was
-- called.
unfoldable pub rbfgrad_walk : ℤ → Walker → Bool × Walker
rbfgrad_walk fn w =
    if w.stop
    then (false, w)
    else if leb w.skip w.count
    then (if ltb_ℤ fn (pos 0)
        then (true, record w { stop = true })
        else (true, record w { count = w.count + 1 }))
    else (false, record w { count = w.count + 1 })
