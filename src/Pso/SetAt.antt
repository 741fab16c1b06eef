-- ===== src/Pso/SetAt.antt =====
-- Writes of one entry of a list, as include/pso.h makes them of its arrays.
use gapso_rbf_pid.Prelude.{
  ℕ, zero, suc, ◌<◌, ◌≡◌, ap, refl, List, [], ◌∷◌, ◌++◌, length, get_or, arith,
}
use gapso_rbf_pid.Pso.{set_at}

pub get_or-append {ℓ} :
    {A : Type ℓ} (xs ys : List A) (k : ℕ) (x y : A)
    → length xs ≡ k
    → get_or (xs ++ (x ∷ ys)) k y ≡ x
get_or-append [] ys zero x y e = refl
get_or-append [] ys (suc k) x y e = absurd (omega arith)
get_or-append (z ∷ xs) ys zero x y e = absurd (omega arith)
get_or-append (z ∷ xs) ys (suc k) x y e = get_or-append xs ys k x y (omega arith)

pub set_at-append {ℓ} :
    {A : Type ℓ} (xs ys : List A) (k : ℕ) (x y : A)
    → length xs ≡ k
    → set_at k y (xs ++ (x ∷ ys)) ≡ (xs ++ (y ∷ [])) ++ ys
unfolding set_at
set_at-append [] ys zero x y e = refl
set_at-append [] ys (suc k) x y e = absurd (omega arith)
set_at-append (z ∷ xs) ys zero x y e = absurd (omega arith)
set_at-append (z ∷ xs) ys (suc k) x y e = ap (◌∷◌ z) (set_at-append xs ys k x y (omega arith))

pub get_or-set_at {ℓ} :
    {A : Type ℓ} (xs : List A) (i : ℕ) (x y : A) → i < length xs → get_or (set_at i x xs) i y ≡ x
unfolding set_at
get_or-set_at [] i x y h = elim h [ ]
get_or-set_at (z ∷ xs) zero x y h = refl
get_or-set_at (z ∷ xs) (suc i) x y h = get_or-set_at xs i x y (omega arith)

pub set_at-set_at {ℓ} :
    {A : Type ℓ} (xs : List A) (i : ℕ) (x y : A) → set_at i x (set_at i y xs) ≡ set_at i x xs
unfolding set_at
set_at-set_at [] i x y = refl
set_at-set_at (z ∷ xs) zero x y = refl
set_at-set_at (z ∷ xs) (suc i) x y = ap (◌∷◌ z) (set_at-set_at xs i x y)

pub length-set_at {ℓ} :
    {A : Type ℓ} (xs : List A) (i : ℕ) (x : A) → length (set_at i x xs) ≡ length xs
unfolding set_at
length-set_at [] i x = refl
length-set_at (z ∷ xs) zero x = refl
length-set_at (z ∷ xs) (suc i) x = ap suc (length-set_at xs i x)

pub set_at-same {ℓ} : {A : Type ℓ} (xs : List A) (i : ℕ) (y : A) → set_at i (get_or xs i y) xs ≡ xs
unfolding set_at
set_at-same [] i y = refl
set_at-same (z ∷ xs) zero y = refl
set_at-same (z ∷ xs) (suc i) y = ap (◌∷◌ z) (set_at-same xs i y)
