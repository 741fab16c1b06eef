-- ===== src/Pso/Queue/Counted.antt =====
-- The works of a batch that have counted down, and the first that has not.
use gapso_rbf_pid.Prelude.{ℕ, zero, suc, ◌≤◌, ◌<◌, ◌≡◌, ◌∙◌, refl, ap, arith, ◌⊎◌, inl, inr}
use mathlib.Core.Path.{subst}
use gapso_rbf_pid.Pso.Queue.{Job, unused, queued, reading, learning, storing, computed, finished}
use gapso_rbf_pid.Pso.Queue.Total.{counted_of, total, total-le, counted_of-le}

pub counted_all :
    {D : Type 0} (jobs : ℕ → Job D) (n i : ℕ)
    → n ≤ total counted_of jobs n
    → i < n
    → counted_of (jobs i) ≡ 1
counted_all jobs zero i h lt = absurd (omega arith)
counted_all jobs (suc n) i h lt =
    let rest = total-le counted_of 1 jobs n (λ j. counted_of-le (jobs j)) in
    let one = counted_of-le (jobs n) in
    elim (below n i lt) [
      | inl lt' ↦ counted_all jobs n i (omega arith) lt'
      | inr e ↦ subst (λ j. counted_of (jobs j) ≡ 1) {x = n} {y = i} (omega arith) (omega arith)
    ]
  where
    below : (n i : ℕ) → i < suc n → (i < n) ⊎ (i ≡ n)
    below n i lt = ground arith

pub counted-finished : {D : Type 0} (a : Job D) → counted_of a ≡ 1 → a ≡ finished
counted-finished unused e = absurd (omega arith)
counted-finished queued e = absurd (omega arith)
counted-finished (reading k dists outs) e = absurd (omega arith)
counted-finished (learning k sse es dists outs) e = absurd (omega arith)
counted-finished (storing sse) e = absurd (omega arith)
counted-finished computed e = absurd (omega arith)
counted-finished finished e = refl

-- The first work that is not finished, if there is one.
pub unfinished :
    {D : Type 0} (jobs : ℕ → Job D) (n : ℕ)
    → (n ≤ total counted_of jobs n) ⊎ ((i : ℕ) × (i < n) × (counted_of (jobs i) ≡ 0))
unfinished {D} jobs zero = inl (omega arith)
unfinished {D} jobs (suc n) = elim (unfinished jobs n) [
  | inl h ↦ last (jobs n) refl h
  | inr (i, lt, e) ↦ inr (i, omega arith, e)
]
  where
    found :
        (a : Job D)
        → jobs n ≡ a
        → counted_of a ≡ 0
        → (suc n ≤ total counted_of jobs (suc n))
          ⊎ ((i : ℕ) × (i < suc n) × (counted_of (jobs i) ≡ 0))
    found a e z = inr (n, omega arith, ap counted_of e ∙ z)

    last :
        (a : Job D)
        → jobs n ≡ a
        → n ≤ total counted_of jobs n
        → (suc n ≤ total counted_of jobs (suc n))
          ⊎ ((i : ℕ) × (i < suc n) × (counted_of (jobs i) ≡ 0))
    last unused e h = found unused e refl
    last queued e h = found queued e refl
    last (reading k dists outs) e h = found (reading k dists outs) e refl
    last (learning k sse es dists outs) e h = found (learning k sse es dists outs) e refl
    last (storing sse) e h = found (storing sse) e refl
    last computed e h = found computed e refl
    last finished e h = inl (omega (arith, ap counted_of e))
