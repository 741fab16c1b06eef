-- ===== src/Sched/Order.antt =====
-- The order of the packets in modules/sch_rbfgrad.c: the discipline beside a plain queue.
use gapso_rbf_pid.Prelude.{
  ℕ, ◌<◌, ◌≡◌, ◌∙◌, sym, refl, ap, List, [], ◌∷◌, ◌++◌, Bool, true, false, Option, none, some, ◌⊎◌,
  inl, inr, arith, ◌==◌, if◌then◌else◌, Bool-cases, Option-cases,
}
use mathlib.Core.List.{append_assoc, append-nil}
use mathlib.Core.Path.{subst}
use gapso_rbf_pid.Double.{Double}
use gapso_rbf_pid.Params.Init.{random32}
use gapso_rbf_pid.Params.Action.{Action, dont_mark, prob_mark, rbfgrad_action}
use gapso_rbf_pid.Sched.{Kernel, State}
use gapso_rbf_pid.Sched.Packets.{rbfgrad_enqueue, rbfgrad_dequeue, rbfgrad_peek, rbfgrad_use_ecn}
use gapso_rbf_pid.Sched.Admin.{thread_round}
use gapso_rbf_pid.Sched.Marking.{IsQueued, IsDropped, MarkOutcome, Outcome, enqueue-Outcome}

-- Documented behaviour of the child, a `bfifo`: `contents` are its packets, the oldest first.
pub record IsOrderly {Q Skb B : Type 0} (k : Kernel Q Skb B) (contents : Q → List Skb)
    : Type 0 where
  pub enqueue_ok :
      (s : Skb) (q : Q)
      → (k.enqueue s q).0 ≡ 0
      → contents (k.enqueue s q).1 ≡ contents q ++ (s ∷ [])
  pub enqueue_fails :
      (s : Skb) (q : Q) → 0 < (k.enqueue s q).0 → contents (k.enqueue s q).1 ≡ contents q
  pub dequeue_some :
      (q : Q) (s : Skb) → (k.dequeue q).0 ≡ some s → contents q ≡ s ∷ contents (k.dequeue q).1
  pub dequeue_none : (q : Q) → (k.dequeue q).0 ≡ none → contents (k.dequeue q).1 ≡ contents q
  pub peek_same : (q : Q) → contents (k.peek q).1 ≡ contents q

abbrev pub handed {ℓ} : {A : Type ℓ} → Option A → List A
handed none = []
handed (some x) = x ∷ []

-- What the kernel asks of the discipline, and a round of the controller.
pub data Request (Skb : Type 0) : Type 0 where
  offers : Skb → Request Skb
  takes looks controls : Request Skb

module _ {D Q Skb B : Type 0} ⦃d : Double D⦄ (k : Kernel Q Skb B) (draw : ℕ → ℕ) where
  abbrev pub serve : Request Skb → State D Q B → State D Q B
  serve (offers skb) s = (rbfgrad_enqueue k draw skb s).1
  serve takes s = (rbfgrad_dequeue k s).1
  serve looks s = (rbfgrad_peek k s).1
  serve controls s = thread_round draw s

  -- the packets that the request hands out
  abbrev pub given : Request Skb → State D Q B → List Skb
  given takes s = handed (rbfgrad_dequeue k s).0
  given r s = []

  -- the packets that it accepts, which is when NET_XMIT_SUCCESS is returned
  abbrev pub accepted : Request Skb → State D Q B → List Skb
  accepted (offers skb) s = if (rbfgrad_enqueue k draw skb s).0 == 0 then skb ∷ [] else []
  accepted r s = []

  abbrev pub serve_all : List (Request Skb) → State D Q B → State D Q B
  serve_all [] s = s
  serve_all (r ∷ rs) s = serve_all rs (serve r s)

  abbrev pub all_given : List (Request Skb) → State D Q B → List Skb
  all_given [] s = []
  all_given (r ∷ rs) s = given r s ++ all_given rs (serve r s)

  abbrev pub all_accepted : List (Request Skb) → State D Q B → List Skb
  all_accepted [] s = []
  all_accepted (r ∷ rs) s = accepted r s ++ all_accepted rs (serve r s)

module _ {Q Skb B : Type 0} (k : Kernel Q Skb B) where
  -- each packet as it was offered, or with its ECN field set
  abbrev pub AsOffered : List Skb → List Skb → Type 0
  AsOffered [] [] = Unit
  AsOffered [] (y ∷ ys) = ⊥
  AsOffered (x ∷ xs) [] = ⊥
  AsOffered (x ∷ xs) (y ∷ ys) = ((y ≡ x) ⊎ (k.set_ce x ≡ some y)) × AsOffered xs ys

  AsOffered-append :
      (xs ys xs' ys' : List Skb)
      → AsOffered xs ys
      → AsOffered xs' ys'
      → AsOffered (xs ++ xs') (ys ++ ys')
  AsOffered-append [] [] xs' ys' a b = b
  AsOffered-append [] (y ∷ ys) xs' ys' a b = absurd a
  AsOffered-append (x ∷ xs) [] xs' ys' a b = absurd a
  AsOffered-append (x ∷ xs) (y ∷ ys) xs' ys' (h, a) b = (h, AsOffered-append xs ys xs' ys' a b)

module _ {Q Skb B : Type 0} (k : Kernel Q Skb B) (contents : Q → List Skb)
    (laws : IsOrderly k contents) where
  open laws use {dequeue_some, dequeue_none}

  child_handed : (q : Q) → handed (k.dequeue q).0 ++ contents (k.dequeue q).1 ≡ contents q
  child_handed q = elim (Option-cases (k.dequeue q).0) [
    | inl e ↦ ap (λ o. handed o ++ contents (k.dequeue q).1) e ∙ dequeue_none q e
    | inr (skb, e) ↦ ap (λ o. handed o ++ contents (k.dequeue q).1) e ∙ sym (dequeue_some q skb e)
  ]

module _ {D Q Skb B : Type 0} ⦃d : Double D⦄ (k : Kernel Q Skb B) (draw : ℕ → ℕ)
    (contents : Q → List Skb) where
  -- what became of one request
  Kept : Request Skb → State D Q B → Type 0
  Kept r s =
      (stored : List Skb) × AsOffered k (accepted k draw r s) stored
      × (given k draw r s ++ contents (serve k draw r s).qdisc ≡ contents s.qdisc ++ stored)

  -- of one packet that is offered, with the result `r`
  Offered : Skb → State D Q B → ℕ × State D Q B → Type 0
  Offered skb s r =
      (stored : List Skb) × AsOffered k (if r.0 == 0 then skb ∷ [] else []) stored
      × (contents r.1.qdisc ≡ contents s.qdisc ++ stored)

  module _ (laws : IsOrderly k contents) where
    open laws use {enqueue_ok, enqueue_fails, dequeue_some, dequeue_none, peek_same}

    queued-Offered :
        (skb put : Skb) (s : State D Q B) (r : ℕ × State D Q B)
        → (put ≡ skb) ⊎ (k.set_ce skb ≡ some put)
        → IsQueued k put s r
        → Offered skb s r
    unfolding Offered
    queued-Offered skb put s r h q = elim (Bool-cases (r.0 == 0)) [
      | inl e ↦ (
        put ∷ [],
        rw e (h, tt),
        ap contents q.child ∙ enqueue_ok put s.qdisc (sym q.code ∙ is_zero r.0 e),
      )
      | inr e ↦ (
        [],
        rw e tt,
        ap contents q.child
            ∙ enqueue_fails put s.qdisc (subst (λ c. 0 < c) q.code (is_positive r.0 e))
            ∙ sym (append-nil (contents s.qdisc)),
      )
    ]
      where
        is_zero : (n : ℕ) → (n == 0) ≡ true → n ≡ 0
        is_zero n e = ground arith

        is_positive : (n : ℕ) → (n == 0) ≡ false → 0 < n
        is_positive n e = ground arith

    dropped-Offered :
        (skb : Skb) (s : State D Q B) (r : ℕ × State D Q B) → IsDropped k skb s r → Offered skb s r
    unfolding Offered
    dropped-Offered skb s r q =
        ([], rw q.code tt, ap contents q.child ∙ sym (append-nil (contents s.qdisc)))

    Outcome-Offered :
        (a : Action) (skb : Skb) (s : State D Q B) (r : ℕ × State D Q B)
        → Outcome k a skb s r
        → Offered skb s r
    Outcome-Offered dont_mark skb s r o = queued-Offered skb skb s r (inl refl) o.0
    Outcome-Offered prob_mark skb s r o = marked (rbfgrad_use_ecn s) (k.set_ce skb) refl o
      where
        marked :
            (ecn : Bool) (field : Option Skb)
            → k.set_ce skb ≡ field
            → MarkOutcome k ecn field skb s r
            → Offered skb s r
        marked true (some put) e m = queued-Offered skb put s r (inr e) m.0
        marked true none e m = dropped-Offered skb s r m.0
        marked false field e m = dropped-Offered skb s r m.0

    dequeue-child :
        (s : State D Q B)
        → ((rbfgrad_dequeue k s).0 ≡ (k.dequeue s.qdisc).0)
          × ((rbfgrad_dequeue k s).1.qdisc ≡ (k.dequeue s.qdisc).1)
    unfolding rbfgrad_dequeue
    dequeue-child s = ground arith

    takes-Kept : (s : State D Q B) → Kept takes s
    unfolding Kept
    takes-Kept s =
        let (found, child) = dequeue-child s in
        (
          [],
          tt,
          ap (λ o. handed o ++ contents (rbfgrad_dequeue k s).1.qdisc) found
              ∙ ap (λ q. handed (k.dequeue s.qdisc).0 ++ contents q) child
              ∙ child_handed k contents laws s.qdisc
              ∙ sym (append-nil (contents s.qdisc)),
        )

    serve-Kept : (r : Request Skb) (s : State D Q B) → Kept r s
    unfolding Kept
    serve-Kept (offers skb) s =
        unfold Offered in
        Outcome-Offered (rbfgrad_action s.params (random32 draw s.drawn)) skb s
          (rbfgrad_enqueue k draw skb s) (enqueue-Outcome k draw skb s)
    serve-Kept takes s = takes-Kept s
    serve-Kept looks s =
        unfold rbfgrad_peek in ([], tt, peek_same s.qdisc ∙ sym (append-nil (contents s.qdisc)))
    serve-Kept controls s = unfold thread_round in ([], tt, sym (append-nil (contents s.qdisc)))

    -- With a child that keeps its packets in order: whatever the requests, with rounds of the
    -- controller among them, the packets handed out and then those still in the child are the
    -- packets that were in the child and then the accepted ones, in the order in which they were
    -- offered, each as it was offered or with its ECN field set.
    pub serve_all-order :
        (rs : List (Request Skb)) (s : State D Q B)
        → (stored : List Skb) × AsOffered k (all_accepted k draw rs s) stored
          × (all_given k draw rs s ++ contents (serve_all k draw rs s).qdisc
              ≡ contents s.qdisc ++ stored)
    unfolding Kept
    serve_all-order [] s = ([], tt, sym (append-nil (contents s.qdisc)))
    serve_all-order (r ∷ rs) s =
        let (one, same, e) = serve-Kept r s in
        let (rest, bs, e') = serve_all-order rs (serve k draw r s) in
        (
          one ++ rest,
          AsOffered-append k (accepted k draw r s) one _ rest same bs,
          append_assoc (given k draw r s) _ _
              ∙ ap (λ xs. given k draw r s ++ xs) e'
              ∙ sym (append_assoc (given k draw r s) _ rest)
              ∙ ap (λ xs. xs ++ rest) e
              ∙ append_assoc (contents s.qdisc) one rest,
        )
