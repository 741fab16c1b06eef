-- ===== src/Report/Ring/Fifo.antt =====
-- A ring of bytes is a queue of structures.
use mathlib.Core.List.{cons-ne-nil}
use gapso_rbf_pid.Prelude.{
  ℕ, zero, suc, ◌-◌, ◌≤◌, ◌<◌, ◌≡◌, ◌∙◌, sym, ap, refl, List, [], ◌∷◌, none, some, length, take,
  drop, arith,
}
use gapso_rbf_pid.Report.Probe.{IsFifo}
use gapso_rbf_pid.Report.Ring.{Ring, IsRing, Layout, IsLayout, overlay, got, structures, ring_fifo}

take-nil : {A : Type 0} (n : ℕ) → take {A = A} n [] ≡ []
take-nil zero = refl
take-nil (suc n) = refl

pub length-drop : {A : Type 0} (n : ℕ) (xs : List A) → length (drop n xs) ≡ length xs - n
length-drop zero xs = omega arith
length-drop (suc n) [] = omega arith
length-drop (suc n) (x ∷ xs) = omega (arith, length-drop n xs)

module _ {A : Type 0} (l : Layout A) (init : A) (layout : IsLayout l) where
  -- More than one for each byte is not needed.
  pub structures_enough :
      (n m : ℕ) (b : List ℕ)
      → length b ≤ n
      → length b ≤ m
      → structures l init n b ≡ structures l init m b
  unfolding structures
  structures_enough zero zero b h h' = refl
  structures_enough zero (suc m) [] h h' = refl
  structures_enough (suc n) zero [] h h' = refl
  structures_enough (suc n) (suc m) [] h h' = refl
  structures_enough zero m (c ∷ b) h h' = absurd (omega arith)
  structures_enough (suc n) zero (c ∷ b) h h' = absurd (omega arith)
  structures_enough (suc n) (suc m) (c ∷ b) h h' =
      let shorter = length-drop l.size (c ∷ b) in
      let less = layout.positive in
      ap (◌∷◌ (overlay l init (take l.size (c ∷ b))))
        (structures_enough n m (drop l.size (c ∷ b)) (omega arith) (omega arith))

  got-take :
      (n c : ℕ) (b : List ℕ)
      → 0 < n
      → got l init (take n (c ∷ b)) ≡ some (overlay l init (take n (c ∷ b)))
  unfolding got
  got-take zero c b h = absurd (omega arith)
  got-take (suc n) c b h = refl

  get_bytes :
      (b : List ℕ) (x : A) (xs : List A)
      → structures l init (length b) b ≡ x ∷ xs
      → (got l init (take l.size b) ≡ some x)
        × (structures l init (length (drop l.size b)) (drop l.size b) ≡ xs)
  unfolding structures
  get_bytes [] x xs e = absurd (cons-ne-nil x xs (sym e))
  get_bytes (c ∷ b) x xs e =
      let shorter = length-drop l.size (c ∷ b) in
      let less = layout.positive in
      let head : overlay l init (take l.size (c ∷ b)) ≡ x = cc in
      let tail : structures l init (length b) (drop l.size (c ∷ b)) ≡ xs = cc in
      (
        got-take l.size c b less ∙ ap some head,
        structures_enough (length (drop l.size (c ∷ b))) (length b) (drop l.size (c ∷ b))
              (omega arith) (omega arith)
            ∙ tail,
      )

  no_bytes : (b : List ℕ) → structures l init (length b) b ≡ [] → b ≡ []
  unfolding structures
  no_bytes [] e = refl
  no_bytes (c ∷ b) e = absurd (cons-ne-nil _ _ e)

module _ {A F : Type 0} (k : Ring F) (l : Layout A) (init : A) (ring : IsRing k)
    (layout : IsLayout l) where
  ring_empty : (f : F) → k.bytes f ≡ [] → (ring_fifo k l init).get f ≡ (none, f)
  unfolding ring_fifo got
  ring_empty f e =
      let nothing : (k.kfifo_out l.size f).0 ≡ [] =
        ring.out_bytes l.size f ∙ ap (take l.size) e ∙ take-nil l.size in
      cc (nothing, ring.out_empty l.size f e)

  ring_oldest :
      (f : F) (x : A) (xs : List A)
      → structures l init (length (k.bytes f)) (k.bytes f) ≡ x ∷ xs
      → (((ring_fifo k l init).get f).0 ≡ some x)
        × ((ring_fifo k l init).contents ((ring_fifo k l init).get f).1 ≡ xs)
  unfolding ring_fifo
  ring_oldest f x xs e =
      let (head, tail) = get_bytes l init layout (k.bytes f) x xs e in
      (
        ap (got l init) (ring.out_bytes l.size f) ∙ head,
        ap (λ b. structures l init (length b) b) (ring.out_left l.size f) ∙ tail,
      )

  pub ring_fifo-IsFifo : IsFifo (ring_fifo k l init)
  unfolding ring_fifo
  ring_fifo-IsFifo = record {
    get_empty = λ f e. ring_empty f (no_bytes l init layout (k.bytes f) e);
    get_oldest = λ f x xs e. ring_oldest f x xs e;
  }
