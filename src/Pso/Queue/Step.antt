-- ===== src/Pso/Queue/Step.antt =====
-- The steps of one work of a batch of `pso_learn` in include/pso.h, without steps of others.
use mathlib.Core.Path.{subst}
use gapso_rbf_pid.Prelude.{ℕ, ◌≡◌, ◌≢◌, ◌∙◌, sym, refl, Option, arith}
use gapso_rbf_pid.Double.{Double}
use gapso_rbf_pid.Pso.{Pso}
use gapso_rbf_pid.Pso.Queue.{Job, Batch, update, WorkStep}

pub update-here {ℓ} : {A : Type ℓ} (f : ℕ → A) (i : ℕ) (a : A) → update f i a i ≡ a
update-here f i a = ground arith

update-there {ℓ} : {A : Type ℓ} (f : ℕ → A) (i j : ℕ) (a : A) → j ≢ i → update f i a j ≡ f j
update-there f i j a ne = ground arith

-- steps of the work `i` alone
pub data Alone {D : Type 0} ⦃d : Double D⦄ (units i : ℕ) : Batch D → Batch D → Type 0 where
  rests : (b : Batch D) → Alone units i b b
  goes :
      (b c e : Batch D) (a : Job D)
      → b.jobs i ≡ a
      → WorkStep units i b a c
      → Alone units i c e
      → Alone units i b e

module _ {D : Type 0} ⦃d : Double D⦄ where
  -- Apart from the work `i`, whose job is now `a`, only the arrays and SSE may have changed.
  pub record After (i : ℕ) (b c : Batch D) (a : Job D) (p : Pso D) (sse : ℕ → Option D)
      : Type 0 where
    pub job : c.jobs i ≡ a
    pub others : (j : ℕ) → j ≢ i → c.jobs j ≡ b.jobs j
    pub pso : c.pso ≡ p
    pub sse_is : c.sse ≡ sse
    pub count : c.count ≡ b.count
    pub waiter : c.waiter ≡ b.waiter

  -- What the work `i` reaches alone.
  abbrev pub Reaches : ℕ → ℕ → Batch D → Job D → Pso D → (ℕ → Option D) → Type 0
  Reaches units i b a p sse = (c : Batch D) × Alone units i b c × After i b c a p sse

  pub stay :
      (units i : ℕ) (b : Batch D) (a : Job D) → b.jobs i ≡ a → Reaches units i b a b.pso b.sse
  stay units i b a e = (
    b,
    rests b,
    record {
      job = e;
      others = λ j ne. refl;
      pso = refl;
      sse_is = refl;
      count = refl;
      waiter = refl;
    },
  )

  -- one step that sets the job, and then more
  pub step_then :
      (units i : ℕ) (b : Batch D) (a a' a'' : Job D) (q p : Pso D) (s sse : ℕ → Option D)
      → b.jobs i ≡ a
      → WorkStep units i b a (record b { pso = q; sse = s; jobs = update b.jobs i a' })
      → Reaches units i (record b { pso = q; sse = s; jobs = update b.jobs i a' }) a'' p sse
      → Reaches units i b a'' p sse
  step_then units i b a a' a'' q p s sse e w (c, r, h) = (
    c,
    goes b _ c a e w r,
    record {
      job = h.job;
      others = λ j ne. h.others j ne ∙ update-there b.jobs i j a' ne;
      pso = h.pso;
      sse_is = h.sse_is;
      count = h.count;
      waiter = h.waiter;
    },
  )

  Alone-trans :
      (units i : ℕ) (b c e : Batch D) → Alone units i b c → Alone units i c e → Alone units i b e
  Alone-trans units i _ c e (rests b) r = r
  Alone-trans units i _ c e (goes b b' _ a j w r) r' =
      goes b b' e a j w (Alone-trans units i b' c e r r')

  pub and_then :
      (units i : ℕ) (b : Batch D) (a a' : Job D) (p p' : Pso D) (s s' : ℕ → Option D)
      → Reaches units i b a p s
      → ((c : Batch D) → c.jobs i ≡ a → Reaches units i (record c { pso = p; sse = s }) a' p' s')
      → Reaches units i b a' p' s'
  and_then units i b a a' p p' s s' (c, r, h) next =
      let (e, r', h') = next c h.job in
      let same : record c { pso = p; sse = s } ≡ c =
        λ t. record c { pso = sym h.pso t; sse = sym h.sse_is t } in
      (
        e,
        Alone-trans units i b c e r (subst (λ x. Alone units i x e) same r'),
        record {
          job = h'.job;
          others = λ j ne. h'.others j ne ∙ h.others j ne;
          pso = h'.pso;
          sse_is = h'.sse_is;
          count = h'.count ∙ h.count;
          waiter = h'.waiter ∙ h.waiter;
        },
      )
