-- ===== src/Examples/Fifo.antt =====
-- A concrete `Kernel`: the child is a queue of packets with a limit in bytes, a packet is a number,
-- one byte shorter than the packet is long, and the counter of the statistics is that of bytes.
use gapso_rbf_pid.Prelude.{
  ℕ, suc, ◌+◌, ◌%◌, ◌≡◌, refl, Option, none, some, inr, ltb, leb, ◌==◌, if◌then◌else◌, arith, List,
  [], ◌∷◌, ◌++◌, length, length-append, u32, u32_sub,
}
use gapso_rbf_pid.Sched.{Kernel, IsQueue}

pub record Fifo : Type 0 where
  pub limit : ℕ
  pub packets : List ℕ

abbrev pub bytes : List ℕ → ℕ
bytes [] = 0
bytes (s ∷ ss) = suc s + bytes ss

abbrev pub offer : ℕ → Fifo → ℕ × Fifo
offer s q =
    if leb (bytes q.packets + suc s) q.limit
    then (0, record q { packets = q.packets ++ (s ∷ []) })
    else (1, q)

abbrev pub poll : Fifo → Option ℕ × Fifo
poll q = elim (q.packets) [ [] ↦ (none, q) | s ∷ ss ↦ (some s, record q { packets = ss }) ]

abbrev pub discard : Fifo → Option (ℕ × Fifo)
discard q = elim (q.packets) [ [] ↦ some (0, q) | s ∷ ss ↦ some (suc s, record q { packets = ss }) ]

abbrev pub first : List ℕ → Option ℕ
first [] = none
first (s ∷ ss) = some s

abbrev pub fifo : Kernel Fifo ℕ ℕ
fifo = record {
  enqueue = offer;
  dequeue = poll;
  peek = λ q. (first q.packets, q);
  drop = discard;
  reset = λ q. record q { packets = [] };
  qlen = λ q. length q.packets;
  backlog = λ q. bytes q.packets;
  handle = λ q. q.limit;
  noop = record { limit = 0; packets = [] };
  fifo_create_dflt = λ n. inr (record { limit = n; packets = [] });
  tree_decrease_qlen = λ q n old. u32_sub old (u32 n);
  len = suc;
  set_ce = λ s. if s % 2 == 0 then some s else none;
  qdisc_drop = λ s n. u32 (n + 1);
  bstats_update = λ s b. b + suc s;
  xmit_drop_count = λ ret. ltb 0 ret;
}

bytes-append : (ss ts : List ℕ) → bytes (ss ++ ts) ≡ bytes ss + bytes ts
bytes-append [] ts = omega arith
bytes-append (s ∷ ss) ts = omega (arith, bytes-append ss ts)

pub fifo-IsQueue : IsQueue fifo
fifo-IsQueue = record {
  enqueue_ok =
      λ s q e. ground (arith, length-append q.packets (s ∷ []), bytes-append q.packets (s ∷ []));
  enqueue_fails = λ s q e. ground arith;
  dequeue_some = λ q s e. ground arith;
  dequeue_none = λ q e. ground arith;
  drop_some = λ q q' n e h. ground arith;
  drop_none = λ q q' e. ground arith;
  peek_same = λ q. (refl, refl);
  reset_empty = λ q. (refl, refl);
  noop_empty = (refl, refl);
  fifo_empty = λ n q e. ground arith;
  tree_decrease = λ q n old. refl;
}
