-- ===== src/Swarm/Best.antt =====
-- The search for the least value, and the arrays of the best values and places.
use gapso_rbf_pid.Prelude.{
  ℕ, suc, ◌+◌, ◌-◌, ◌<◌, ◌≤◌, ◌≡◌, ◌⊎◌, inl, inr, refl, sym, ◌∙◌, true, false, List, [], ◌∷◌, arith,
  if◌then◌else◌, get_or, length, All, Bool-cases,
}
use gapso_rbf_pid.Double.{Double, IsOrdered, ◌≺◌, num}
use gapso_rbf_pid.Swarm.{least_from, least, better_vals}

module _ {D : Type 0} ⦃d : Double D⦄ where
  -- `x` is `v`, or below it.
  abbrev pub Descends : D → D → Type 0
  Descends v x = (x ≡ v) ⊎ ((x ≺ v) ≡ true)

  -- No member of the list is below `v`.
  abbrev pub IsLeast : D → List D → Type 0
  IsLeast v = All (λ x. (x ≺ v) ≡ false)

  module _ (laws : IsOrdered D) where
    open laws use {lt_irrefl, lt_trans}

    pub Descends-trans : (u v w : D) → Descends u v → Descends v w → Descends u w
    Descends-trans u v w a b = ground (arith, lt_trans w v u)

    step-Descends : (v x : D) → Descends v (if x ≺ v then x else v)
    step-Descends v x = ground arith

    -- what stays out of reach of a smaller bound
    pub not-below_of_Descends : (x v w : D) → Descends v w → (x ≺ v) ≡ false → (x ≺ w) ≡ false
    not-below_of_Descends x v w a b = ground (arith, lt_trans x w v)

    pub least_from-Descends :
        (v : D) (index j : ℕ) (xs : List D) → Descends v (least_from v index j xs).0
    unfolding least_from
    least_from-Descends v index j [] = inl refl
    least_from-Descends v index j (x ∷ xs) =
        Descends-trans v _ _ (step-Descends v x)
          (least_from-Descends (if x ≺ v then x else v) (if x ≺ v then j else index) (suc j) xs)

    least_from-IsLeast :
        (v : D) (index j : ℕ) (xs : List D) → IsLeast (least_from v index j xs).0 xs
    unfolding least_from
    least_from-IsLeast v index j [] = tt
    least_from-IsLeast v index j (x ∷ xs) = (
      not-below_of_Descends x (if x ≺ v then x else v) _
          (least_from-Descends (if x ≺ v then x else v) (if x ≺ v then j else index) (suc j) xs)
          (ground (arith, lt_irrefl x)),
      least_from-IsLeast (if x ≺ v then x else v) (if x ≺ v then j else index) (suc j) xs,
    )

-- Reads at an offset.
get_or_from_start {ℓ} :
    {A : Type ℓ} (xs : List A) (z : A) (i : ℕ) → get_or xs (i - 0) z ≡ get_or xs i z
get_or_from_start xs z i = let e : i - 0 ≡ i = omega arith in rw e

module _ {ℓ} {A : Type ℓ} (x z : A) (xs : List A) (i j : ℕ) where
  get_or_here : i ≡ j → get_or (x ∷ xs) (i - j) z ≡ x
  get_or_here e = let e' : i - j ≡ 0 = omega arith in rw e'

  get_or_later : suc j ≤ i → get_or (x ∷ xs) (i - j) z ≡ get_or xs (i - suc j) z
  get_or_later h = let e : i - j ≡ suc (i - suc j) = omega arith in rw e

module _ {D : Type 0} ⦃d : Double D⦄ where
  -- Where a result comes from: the start, or the list, at the index that is returned.
  abbrev Found : D → D → ℕ → ℕ → List D → D × ℕ → Type 0
  Found z v index j xs r =
      ((r.0 ≡ v) × (r.1 ≡ index))
      ⊎ ((j ≤ r.1) × (r.1 < j + length xs) × (get_or xs (r.1 - j) z ≡ r.0))

  Found-later :
      (z v x : D) (index j : ℕ) (xs : List D) (r : D × ℕ)
      → Found z v index (suc j) xs r
      → Found z v index j (x ∷ xs) r
  Found-later z v x index j xs r (inl h) = inl h
  Found-later z v x index j xs r (inr (a, b, c)) =
      inr (omega arith, omega arith, get_or_later x z xs r.1 j a ∙ c)

  Found-here :
      (z v x : D) (index j : ℕ) (xs : List D) (r : D × ℕ)
      → Found z x j (suc j) xs r
      → Found z v index j (x ∷ xs) r
  Found-here z v x index j xs r (inl (e, h)) =
      inr (omega arith, omega arith, get_or_here x z xs r.1 j h ∙ sym e)
  Found-here z v x index j xs r (inr (a, b, c)) =
      inr (omega arith, omega arith, get_or_later x z xs r.1 j a ∙ c)

  least_from-Found :
      (z v : D) (index j : ℕ) (xs : List D) → Found z v index j xs (least_from v index j xs)
  unfolding least_from
  least_from-Found z v index j [] = inl (refl, refl)
  least_from-Found z v index j (x ∷ xs) =
      let better = least_from-Found z x j (suc j) xs in
      let same = least_from-Found z v index (suc j) xs in
      elim (Bool-cases (x ≺ v)) [
        | inl e ↦ rw (e, least_from) (Found-here z v x index j xs _ better)
        | inr e ↦ rw (e, least_from) (Found-later z v x index j xs _ same)
      ]

  -- The least value of an array that is not empty stands at the index that is found with it.
  pub get_or-least :
      (vals : List D) (z : D)
      → 0 < length vals
      → let (v, i) = least vals in (i < length vals) × (get_or vals i z ≡ v)
  unfolding least
  get_or-least [] z h = elim h [ ]
  get_or-least (x ∷ xs) z h = elim (least_from-Found z x 0 0 (x ∷ xs)) [
    | inl (e, e') ↦ (omega arith, rw e' (sym e))
    | inr (a, b, c) ↦ (omega arith, sym (get_or_from_start (x ∷ xs) z _) ∙ c)
  ]

  module _ (laws : IsOrdered D) where
    open laws use {lt_irrefl, lt_trans}

    pub least-IsLeast : (vals : List D) → IsLeast (least vals).0 vals
    unfolding least
    least-IsLeast vals = least_from-IsLeast laws (get_or vals 0 (num 0)) 0 0 vals

  -- Each value of the second array descends from that of the first.
  abbrev pub Descend : List D → List D → Type 0
  Descend (v ∷ vs) (x ∷ xs) = Descends v x × Descend vs xs
  Descend [] [] = Unit
  Descend _ _ = ⊥

  Descend-refl : (vals : List D) → Descend vals vals
  Descend-refl [] = tt
  Descend-refl (v ∷ vs) = (inl refl, Descend-refl vs)

  pub better_vals-Descend : (vals sse : List D) → Descend vals (better_vals vals sse)
  unfolding better_vals
  better_vals-Descend [] sse = tt
  better_vals-Descend (v ∷ vs) [] = (inl refl, Descend-refl vs)
  better_vals-Descend (v ∷ vs) (s ∷ ss) = (ground arith, better_vals-Descend vs ss)
