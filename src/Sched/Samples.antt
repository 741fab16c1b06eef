-- ===== src/Sched/Samples.antt =====
-- The sampling in `rbfgrad_enqueue` of modules/sch_rbfgrad.c: its counters and the array it writes.
use Prim.Native.Nat.{min}
use gapso_rbf_pid.Prelude.{
  ℕ, ◌+◌, ◌-◌, ◌/◌, ◌%◌, ◌≤◌, ◌<◌, ◌≡◌, ◌≢◌, ◌∙◌, ap, refl, List, [], ◌∷◌, arith, ◌==◌,
  if◌then◌else◌, length, u32, Option-cases, Bool-cases, inl, inr,
}
use gapso_rbf_pid.Double.{Double}
use gapso_rbf_pid.Params.Init.{random32}
use gapso_rbf_pid.Params.Action.{Action, dont_mark, prob_mark, rbfgrad_action}
use gapso_rbf_pid.Sched.{Kernel, State, QueueShow, queue_show_max, cyc_max}
use gapso_rbf_pid.Sched.Packets.{
  update_history, take_sample, count_cycle, to_child, congestion_drop, mark_packet, mark_or_drop,
  act, rbfgrad_enqueue, rbfgrad_use_ecn,
}

module _ {D Q B : Type 0} where
  -- between two packets
  pub record IsRecording (s : State D Q B) : Type 0 where
    pub array_element : s.array_element < queue_show_max
    pub cyc_count : s.cyc_count < cyc_max

  -- What only the sampling writes.
  pub record SameSamples (s t : State D Q B) : Type 0 where
    pub array_element : t.array_element ≡ s.array_element
    pub cyc_count : t.cyc_count ≡ s.cyc_count
    pub queue_show : t.queue_show ≡ s.queue_show
    pub params : t.params ≡ s.params

  SameSamples-trans : (s t u : State D Q B) → SameSamples s t → SameSamples t u → SameSamples s u
  SameSamples-trans s t u a b = record {
    array_element = b.array_element ∙ a.array_element;
    cyc_count = b.cyc_count ∙ a.cyc_count;
    queue_show = b.queue_show ∙ a.queue_show;
    params = b.params ∙ a.params;
  }

module _ {D Q Skb B : Type 0} ⦃d : Double D⦄ (k : Kernel Q Skb B) where
  to_child-SameSamples : (skb : Skb) (s : State D Q B) → SameSamples s (to_child k skb s).1
  unfolding to_child
  to_child-SameSamples skb s = ground arith

  congestion_drop-SameSamples :
      (skb : Skb) (s : State D Q B) → SameSamples s (congestion_drop k skb s).1
  unfolding congestion_drop
  congestion_drop-SameSamples skb s = record {
    array_element = refl;
    cyc_count = refl;
    queue_show = refl;
    params = refl;
  }

  mark_packet-SameSamples : (skb : Skb) (s : State D Q B) → SameSamples s (mark_packet k skb s).1
  unfolding mark_packet
  mark_packet-SameSamples skb s =
      let t = to_child-SameSamples skb _ in
      record {
        array_element = t.array_element;
        cyc_count = t.cyc_count;
        queue_show = t.queue_show;
        params = t.params;
      }

  -- The counter `overlimits` is no part of it.
  again :
      {s t : State D Q B}
      → SameSamples (record s { overlimits = u32 (s.overlimits + 1) }) t
      → SameSamples s t
  again h = record {
    array_element = h.array_element;
    cyc_count = h.cyc_count;
    queue_show = h.queue_show;
    params = h.params;
  }

  mark_or_drop-SameSamples : (skb : Skb) (s : State D Q B) → SameSamples s (mark_or_drop k skb s).1
  unfolding mark_or_drop
  mark_or_drop-SameSamples skb s = elim (Bool-cases (rbfgrad_use_ecn s)) [
    | inl e ↦ elim (Option-cases (k.set_ce skb)) [
      | inl e' ↦ rw (e, e') (again (congestion_drop-SameSamples skb _))
      | inr (skb', e') ↦ rw (e, e') (again (mark_packet-SameSamples skb' _))
    ]
    | inr e ↦ rw e (again (congestion_drop-SameSamples skb _))
  ]

  -- One packet, sampled by its action.
  act-SameSamples :
      (a : Action) (skb : Skb) (s : State D Q B) → SameSamples (count_cycle a s) (act k a skb s).1
  unfolding act
  act-SameSamples dont_mark skb s = to_child-SameSamples skb _
  act-SameSamples prob_mark skb s = mark_or_drop-SameSamples skb _

  -- The packets of a list in turn.
  abbrev pub enqueue_all : (ℕ → ℕ) → List Skb → State D Q B → State D Q B
  enqueue_all draw [] s = s
  enqueue_all draw (skb ∷ rest) s = enqueue_all draw rest (rbfgrad_enqueue k draw skb s).1

  -- the packet's action
  abbrev pub action_now : (ℕ → ℕ) → State D Q B → Action
  action_now draw s = rbfgrad_action s.params (random32 draw s.drawn)

  count_cycle-eq :
      (a : Action) (s : State D Q B)
      → IsRecording s
      → ((count_cycle a s).cyc_count ≡ (s.cyc_count + 1) % cyc_max)
        × ((count_cycle a s).array_element
            ≡ min (s.array_element + (s.cyc_count + 1) / cyc_max) (queue_show_max - 1))
  unfolding count_cycle take_sample
  count_cycle-eq a s h = ground arith

  enqueue-samples :
      (draw : ℕ → ℕ) (skb : Skb) (s : State D Q B)
      → IsRecording s
      → let t = (rbfgrad_enqueue k draw skb s).1 in
        (t.cyc_count ≡ (s.cyc_count + 1) % cyc_max)
        × (t.array_element
            ≡ min (s.array_element + (s.cyc_count + 1) / cyc_max) (queue_show_max - 1))
  unfolding rbfgrad_enqueue
  enqueue-samples draw skb s h =
      let a = action_now draw s in
      let s' = record s { pkg_number = u32 (s.pkg_number + 1); drawn = s.drawn + 1 } in
      let t = act-SameSamples a skb s' in
      let (c, e) =
        count_cycle-eq a s' (record { array_element = h.array_element; cyc_count = h.cyc_count }) in
      (t.cyc_count ∙ c, t.array_element ∙ e)

  -- After any packets, whatever becomes of each: the cycle counter is the number of packets modulo 20,
  -- and the index has gone up by one for every twenty packets, up to the last entry of the array.
  pub enqueue_all-samples :
      (draw : ℕ → ℕ) (skbs : List Skb) (s : State D Q B)
      → IsRecording s
      → let t = enqueue_all draw skbs s in
        let n = s.cyc_count + length skbs in
        (t.cyc_count ≡ n % cyc_max)
        × (t.array_element ≡ min (s.array_element + n / cyc_max) (queue_show_max - 1))
  enqueue_all-samples draw [] s h = omega arith
  enqueue_all-samples draw (skb ∷ rest) s h =
      let (c, e) = enqueue-samples draw skb s h in
      let t = (rbfgrad_enqueue k draw skb s).1 in
      omega (arith, enqueue_all-samples draw rest t (omega arith))

  count_cycle-params :
      (a : Action) (s : State D Q B)
      → (count_cycle a s).params
        ≡ (if s.cyc_count + 1 == cyc_max then update_history s.qlen s.params else s.params)
  unfolding count_cycle take_sample
  count_cycle-params a s = ground arith

  count_cycle-show :
      (a : Action) (s : State D Q B) (j : ℕ)
      → j ≢ s.array_element
      → (count_cycle a s).queue_show j ≡ s.queue_show j
  unfolding count_cycle take_sample
  count_cycle-show a s j h = ground arith

  enqueue-show :
      (draw : ℕ → ℕ) (skb : Skb) (s : State D Q B) (j : ℕ)
      → j ≢ s.array_element
      → (rbfgrad_enqueue k draw skb s).1.queue_show j ≡ s.queue_show j
  unfolding rbfgrad_enqueue
  enqueue-show draw skb s j h =
      let a = action_now draw s in
      let s' = record s { pkg_number = u32 (s.pkg_number + 1); drawn = s.drawn + 1 } in
      ap (λ (f : ℕ → QueueShow). f j) (act-SameSamples a skb s').queue_show
      ∙ count_cycle-show a s' j h

  pub enqueue-IsRecording :
      (draw : ℕ → ℕ) (skb : Skb) (s : State D Q B)
      → IsRecording s
      → IsRecording (rbfgrad_enqueue k draw skb s).1
  enqueue-IsRecording draw skb s h = omega (arith, enqueue-samples draw skb s h)

  -- Whatever the packets, no entry beyond the QUEUE_SHOW_MAX entries of the array is written.
  pub enqueue_all-in_bounds :
      (draw : ℕ → ℕ) (skbs : List Skb) (s : State D Q B) (j : ℕ)
      → IsRecording s
      → queue_show_max ≤ j
      → (enqueue_all draw skbs s).queue_show j ≡ s.queue_show j
  enqueue_all-in_bounds draw [] s j h le = refl
  enqueue_all-in_bounds draw (skb ∷ rest) s j h le =
      enqueue_all-in_bounds draw rest _ j (enqueue-IsRecording draw skb s h) le
      ∙ enqueue-show draw skb s j (omega arith)

  -- The packet path writes nothing of the parameters but the history, and that when it samples.
  pub enqueue-params :
      (draw : ℕ → ℕ) (skb : Skb) (s : State D Q B)
      → (rbfgrad_enqueue k draw skb s).1.params
        ≡ (if s.cyc_count + 1 == cyc_max then update_history s.qlen s.params else s.params)
  unfolding rbfgrad_enqueue
  enqueue-params draw skb s =
      let a = action_now draw s in
      let s' = record s { pkg_number = u32 (s.pkg_number + 1); drawn = s.drawn + 1 } in
      (act-SameSamples a skb s').params ∙ count_cycle-params a s'
