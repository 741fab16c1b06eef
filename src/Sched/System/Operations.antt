-- ===== src/Sched/System/Operations.antt =====
-- The packet operations of modules/sch_rbfgrad.c and the invariant of the system.
use gapso_rbf_pid.Prelude.{
  ℕ, ◌+◌, ◌≡◌, ◌∙◌, refl, if◌then◌else◌, sym, ap, Bool, true, false, Option, none, some, inl, inr,
  arith, ◌==◌, u32, Bool-cases, Option-cases,
}
use gapso_rbf_pid.Double.{Double}
use gapso_rbf_pid.Params.Init.{rbfgrad_restart}
use gapso_rbf_pid.Params.Action.{Action, dont_mark, prob_mark}
use gapso_rbf_pid.Sched.{Kernel, State, IsQueue, cyc_max}
use gapso_rbf_pid.Sched.Admin.{stop_prob}
use gapso_rbf_pid.Sched.Reports.{rbfgrad_dump, rbfgrad_graft}
use gapso_rbf_pid.Sched.Packets.{
  rbfgrad_enqueue, rbfgrad_dequeue, rbfgrad_peek, rbfgrad_drop, rbfgrad_reset, rbfgrad_use_ecn,
  update_history,
}
use gapso_rbf_pid.Sched.Samples.{IsRecording, enqueue-IsRecording, enqueue-params}
use gapso_rbf_pid.Sched.Marking.{Outcome, MarkOutcome, enqueue-Outcome}
use gapso_rbf_pid.Sched.Changes.{IsLengthCounted, graft-length}
use gapso_rbf_pid.Sched.System.{
  IsConsistent, Operation, enqueues, dequeues, peeks, drops, resets, grafts, dumps, stops,
}

module _ {D Q Skb B : Type 0} ⦃d : Double D⦄ (k : Kernel Q Skb B) (draw : ℕ → ℕ) where
  -- The counters of the samples are those of another state.
  same_counters :
      (s t : State D Q B)
      → t.array_element ≡ s.array_element
      → t.cyc_count ≡ s.cyc_count
      → IsRecording s
      → IsRecording t
  same_counters s t e e' h = record { array_element = omega arith; cyc_count = omega arith }

  dequeue-params : (s : State D Q B) → (rbfgrad_dequeue k s).1.params ≡ s.params
  unfolding rbfgrad_dequeue
  dequeue-params s = elim (Option-cases (k.dequeue s.qdisc).0) [
    | inl e ↦ rw (e, rbfgrad_dequeue) refl
    | inr (skb, e) ↦ rw (e, rbfgrad_dequeue) refl
  ]

  drop-params : (s : State D Q B) → (rbfgrad_drop k s).1.params ≡ s.params
  unfolding rbfgrad_drop
  drop-params s = elim (Option-cases (k.drop s.qdisc)) [
    | inl e ↦ rw (e, rbfgrad_drop) refl
    | inr ((n, q), e) ↦ elim (Bool-cases (n == 0)) [
      | inl e' ↦ rw (e, rbfgrad_drop, e') refl
      | inr e' ↦ rw (e, rbfgrad_drop, e') refl
    ]
  ]

  module _ (laws : IsQueue k) where
    open laws use {
      enqueue_ok, enqueue_fails, dequeue_some, dequeue_none, drop_some, drop_none, peek_same,
      reset_empty, noop_empty,
    }

    Outcome-length :
        (a : Action) (skb : Skb) (s : State D Q B) (r : ℕ × State D Q B)
        → Outcome k a skb s r
        → IsLengthCounted k s
        → IsLengthCounted k r.1
    Outcome-length dont_mark skb s r (q, m) c =
        ground (arith, enqueue_ok skb s.qdisc, enqueue_fails skb s.qdisc)
    Outcome-length prob_mark skb s r o c = marked (rbfgrad_use_ecn s) (k.set_ce skb) o
      where
        marked :
            (ecn : Bool) (field : Option Skb)
            → MarkOutcome k ecn field skb s r
            → IsLengthCounted k r.1
        marked true (some skb') (q, m) =
            ground (arith, enqueue_ok skb' s.qdisc, enqueue_fails skb' s.qdisc)
        marked true none (q, m) = q.qlen ∙ c ∙ ap (λ x. u32 (k.qlen x)) (sym q.child)
        marked false field (q, m) = q.qlen ∙ c ∙ ap (λ x. u32 (k.qlen x)) (sym q.child)

    enqueue-IsConsistent :
        (skb : Skb) (s : State D Q B)
        → IsConsistent k draw s
        → IsConsistent k draw (rbfgrad_enqueue k draw skb s).1
    enqueue-IsConsistent skb s i = record {
      recording = enqueue-IsRecording k draw skb s i.recording;
      counted = Outcome-length _ skb s _ (enqueue-Outcome k draw skb s) i.counted;
    }

    dequeue-IsConsistent :
        (s : State D Q B) → IsConsistent k draw s → IsConsistent k draw (rbfgrad_dequeue k s).1
    unfolding rbfgrad_dequeue
    dequeue-IsConsistent s i = elim (Option-cases (k.dequeue s.qdisc).0) [
      | inl e ↦
          rw (e, rbfgrad_dequeue)
            (record {
              recording = same_counters s _ refl refl i.recording;
              counted = i.counted ∙ ap u32 (sym (dequeue_none s.qdisc e).0);
            })
      | inr (skb, e) ↦
          rw (e, rbfgrad_dequeue)
            (record {
              recording = same_counters s _ refl refl i.recording;
              counted = omega (arith, dequeue_some s.qdisc skb e, i.counted);
            })
    ]

    drop-IsConsistent :
        (s : State D Q B) → IsConsistent k draw s → IsConsistent k draw (rbfgrad_drop k s).1
    unfolding rbfgrad_drop
    drop-IsConsistent s i = elim (Option-cases (k.drop s.qdisc)) [
      | inl e ↦ rw (e, rbfgrad_drop) i
      | inr ((n, q), e) ↦ elim (Bool-cases (n == 0)) [
        | inl e' ↦
            rw (e, rbfgrad_drop, e')
              (record {
                recording = same_counters s _ refl refl i.recording;
                counted = grind (arith, drop_none s.qdisc q);
              })
        | inr e' ↦
            rw (e, rbfgrad_drop, e')
              (record {
                recording = same_counters s _ refl refl i.recording;
                counted = grind (arith, drop_some s.qdisc q n e);
              })
      ]
    ]

    -- Each of these operations keeps the counters in range and the length that of the child.
    pub Operation-IsConsistent :
        (s t : State D Q B) → Operation k draw s t → IsConsistent k draw s → IsConsistent k draw t
    unfolding rbfgrad_peek rbfgrad_reset rbfgrad_graft rbfgrad_dump stop_prob
    Operation-IsConsistent _ _ (enqueues skb s) i = enqueue-IsConsistent skb s i
    Operation-IsConsistent _ _ (dequeues s) i = dequeue-IsConsistent s i
    Operation-IsConsistent _ _ (drops s) i = drop-IsConsistent s i
    Operation-IsConsistent _ _ (peeks s) i = record {
      recording = same_counters s _ refl refl i.recording;
      counted = i.counted ∙ ap u32 (sym (peek_same s.qdisc).0);
    }
    Operation-IsConsistent _ _ (resets s) i = record {
      recording = record { array_element = omega arith; cyc_count = i.recording.cyc_count };
      counted = ap u32 (sym (reset_empty s.qdisc).0);
    }
    Operation-IsConsistent _ _ (grafts new s h) i = record {
      recording = same_counters s _ refl refl i.recording;
      counted = graft-length k laws new s h i.counted;
    }
    Operation-IsConsistent _ _ (dumps room s) i = record {
      recording = same_counters s _ refl refl i.recording;
      counted = i.counted;
    }
    Operation-IsConsistent _ _ (stops s e) i = record {
      recording = same_counters s _ refl refl i.recording;
      counted = i.counted;
    }

  -- Of the parameters, each writes at most the history, by one sample.
  pub Operation-params :
      (s t : State D Q B)
      → Operation k draw s t
      → (b : Bool) × (n : ℕ) × (t.params ≡ (if b then update_history n s.params else s.params))
  unfolding rbfgrad_peek rbfgrad_reset rbfgrad_restart rbfgrad_graft rbfgrad_dump stop_prob
  Operation-params _ _ (enqueues skb s) =
      (s.cyc_count + 1 == cyc_max, s.qlen, enqueue-params k draw skb s)
  Operation-params _ _ (dequeues s) = (false, 0, dequeue-params s)
  Operation-params _ _ (drops s) = (false, 0, drop-params s)
  Operation-params _ _ (peeks s) = (false, 0, refl)
  Operation-params _ _ (resets s) = (false, 0, refl)
  Operation-params _ _ (grafts new s h) = (false, 0, refl)
  Operation-params _ _ (dumps room s) = (false, 0, refl)
  Operation-params _ _ (stops s e) = (false, 0, refl)
