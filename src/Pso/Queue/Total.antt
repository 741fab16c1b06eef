-- ===== src/Pso/Queue/Total.antt =====
-- Sums over the works of a batch of `pso_learn` in include/pso.h.
use gapso_rbf_pid.Prelude.{
  ℕ, zero, suc, ◌+◌, ◌*◌, ◌≤◌, ◌<◌, ◌≡◌, ◌≢◌, sym, refl, true, false, ◌==◌, arith, Bool-cases, inl,
  inr,
}
use mathlib.Core.Path.{subst}
use gapso_rbf_pid.Pso.Queue.{
  Job, unused, queued, reading, learning, storing, computed, finished, Waiter, queueing, waiting,
  interrupted, passed, update,
}

-- the turns that a job has had, with `units` units, or more if it has left out the learning
abbrev pub turns_of : {D : Type 0} → ℕ → Job D → ℕ
turns_of units unused = 0
turns_of units queued = 1
turns_of units (reading k dists outs) = 2 + k
turns_of units (learning k sse es dists outs) = 3 + units + k
turns_of units (storing sse) = 4 + 2 * units
turns_of units computed = 5 + 2 * units
turns_of units finished = 6 + 2 * units

-- whether it has counted down
abbrev pub counted_of : {D : Type 0} → Job D → ℕ
counted_of unused = 0
counted_of queued = 0
counted_of (reading k dists outs) = 0
counted_of (learning k sse es dists outs) = 0
counted_of (storing sse) = 0
counted_of computed = 0
counted_of finished = 1

-- whether it has stored its error
abbrev pub stored_of : {D : Type 0} → Job D → ℕ
stored_of unused = 0
stored_of queued = 0
stored_of (reading k dists outs) = 0
stored_of (learning k sse es dists outs) = 0
stored_of (storing sse) = 0
stored_of computed = 1
stored_of finished = 1

-- not beyond the last unit
abbrev pub InUnits : {D : Type 0} → ℕ → Job D → Type 0
InUnits units (reading k dists outs) = k ≤ units
InUnits units (learning k sse es dists outs) = k ≤ units
InUnits units _ = Unit

abbrev pub waiter_turns : Waiter → ℕ
waiter_turns (queueing i) = 0
waiter_turns waiting = 1
waiter_turns interrupted = 2
waiter_turns passed = 2

abbrev pub has_passed : Waiter → ℕ
has_passed (queueing i) = 0
has_passed waiting = 0
has_passed interrupted = 0
has_passed passed = 1

-- the works that are queued, of `n`
abbrev pub queued_to : ℕ → Waiter → ℕ
queued_to n (queueing i) = i
queued_to n waiting = n
queued_to n interrupted = n
queued_to n passed = n

abbrev pub total : {A : Type 0} → (A → ℕ) → (ℕ → A) → ℕ → ℕ
total f jobs zero = 0
total f jobs (suc n) = total f jobs n + f (jobs n)

total-beyond :
    {A : Type 0} (f : A → ℕ) (jobs : ℕ → A) (i : ℕ) (a : A) (n : ℕ)
    → n ≤ i
    → total f (update jobs i a) n ≡ total f jobs n
total-beyond f jobs i a zero h = refl
total-beyond f jobs i a (suc n) h =
    let rest = total-beyond f jobs i a n (omega arith) in ground arith

pub total-update :
    {A : Type 0} (f : A → ℕ) (jobs : ℕ → A) (i : ℕ) (a : A) (n : ℕ)
    → i < n
    → total f (update jobs i a) n + f (jobs i) ≡ total f jobs n + f a
total-update f jobs i a zero h = elim h [ ]
total-update f jobs i a (suc n) h = elim (Bool-cases (n == i)) [
  | inl e ↦
      let e' = n_eq n i e in
      let same = total-beyond f jobs i a n (omega arith) in
      rw e (
        subst
          (λ j. total f (update jobs i a) n + f a + f (jobs i) ≡ total f jobs n + f (jobs j) + f a)
          (sym e') (omega arith))
  | inr e ↦ let rest = total-update f jobs i a n (omega (arith, n_ne n i e)) in rw e (omega arith)
]
  where
    n_eq : (n i : ℕ) → (n == i) ≡ true → n ≡ i
    n_eq n i e = ground arith

    n_ne : (n i : ℕ) → (n == i) ≡ false → n ≢ i
    n_ne n i e = λ h. ground arith

pub total-le :
    {A : Type 0} (f : A → ℕ) (k : ℕ) (jobs : ℕ → A) (n : ℕ)
    → ((j : ℕ) → f (jobs j) ≤ k)
    → total f jobs n ≤ k * n
total-le f k jobs zero h = omega arith
total-le f k jobs (suc n) h = omega (arith, total-le f k jobs n h, h n)

pub turns_of-le :
    {D : Type 0} (units : ℕ) (j : Job D) → InUnits units j → turns_of units j ≤ 6 + 2 * units
turns_of-le units unused h = omega arith
turns_of-le units queued h = omega arith
turns_of-le units (reading k dists outs) h = omega arith
turns_of-le units (learning k sse es dists outs) h = omega arith
turns_of-le units (storing sse) h = omega arith
turns_of-le units computed h = omega arith
turns_of-le units finished h = omega arith

pub counted_of-le : {D : Type 0} (j : Job D) → counted_of j ≤ 1
counted_of-le unused = omega arith
counted_of-le queued = omega arith
counted_of-le (reading k dists outs) = omega arith
counted_of-le (learning k sse es dists outs) = omega arith
counted_of-le (storing sse) = omega arith
counted_of-le computed = omega arith
counted_of-le finished = omega arith

pub total-unused : {D : Type 0} (f : Job D → ℕ) (n : ℕ) → f unused ≡ 0 → total f (λ i. unused) n ≡ 0
total-unused f zero h = refl
total-unused f (suc n) h = omega (arith, total-unused f n h)

-- Who has not been queued has not counted down.
pub idle_uncounted : {D : Type 0} (units : ℕ) (a : Job D) → turns_of units a ≡ 0 → counted_of a ≡ 0
idle_uncounted units unused z = refl
idle_uncounted units queued z = refl
idle_uncounted units (reading k dists outs) z = refl
idle_uncounted units (learning k sse es dists outs) z = refl
idle_uncounted units (storing sse) z = refl
idle_uncounted units computed z = refl
idle_uncounted units finished z = absurd (omega arith)
