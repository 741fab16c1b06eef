-- ===== src/Report/Ring/Kept.antt =====
-- Which structures a ring keeps of those that are put into it.
use mathlib.Core.List.{append-nil, append_assoc}
use gapso_rbf_pid.Prelude.{
  ℕ, zero, suc, ◌-◌, ◌≤◌, ◌<◌, ◌≡◌, ◌∙◌, sym, ap, refl, List, [], ◌∷◌, ◌++◌, length, take, drop,
  arith, leb, ◌==◌, if◌then◌else◌, inl, inr, ◌⊎◌, length-append, length-take_of_le,
}
use gapso_rbf_pid.Report.Ring.{Ring, IsRing, Layout, IsLayout, overlay, structures, ring_fifo}
use gapso_rbf_pid.Report.Ring.Fifo.{length-drop, structures_enough}

module _ {A : Type 0} where
  take_all : (n : ℕ) (xs : List A) → length xs ≤ n → take n xs ≡ xs
  take_all zero [] h = refl
  take_all zero (x ∷ xs) h = absurd (omega arith)
  take_all (suc n) [] h = refl
  take_all (suc n) (x ∷ xs) h = ap (◌∷◌ x) (take_all n xs (omega arith))

  drop_all : (n : ℕ) (xs : List A) → length xs ≤ n → drop n xs ≡ []
  drop_all zero [] h = refl
  drop_all zero (x ∷ xs) h = absurd (omega arith)
  drop_all (suc n) [] h = refl
  drop_all (suc n) (x ∷ xs) h = drop_all n xs (omega arith)

  take-append : (n : ℕ) (xs ys : List A) → length xs ≡ n → take n (xs ++ ys) ≡ xs
  take-append zero [] ys e = refl
  take-append zero (x ∷ xs) ys e = absurd (omega arith)
  take-append (suc n) [] ys e = absurd (omega arith)
  take-append (suc n) (x ∷ xs) ys e = ap (◌∷◌ x) (take-append n xs ys (omega arith))

  drop-append : (n : ℕ) (xs ys : List A) → length xs ≡ n → drop n (xs ++ ys) ≡ ys
  drop-append zero [] ys e = refl
  drop-append zero (x ∷ xs) ys e = absurd (omega arith)
  drop-append (suc n) [] ys e = absurd (omega arith)
  drop-append (suc n) (x ∷ xs) ys e = drop-append n xs ys (omega arith)

module _ {A : Type 0} (l : Layout A) (init : A) where
  -- As long as there is room for a whole structure it is kept; the one for which there is less room
  -- is cut, and none is kept behind it.
  abbrev pub kept : ℕ → List A → List A
  kept room [] = []
  kept room (t ∷ ts) =
      if leb l.size room
      then t ∷ kept (room - l.size) ts
      else if room == 0
      then []
      else overlay l init (take room (l.to_bytes t)) ∷ []

  -- the bytes that go in
  abbrev flow : ℕ → List A → List ℕ
  flow room [] = []
  flow room (t ∷ ts) = take room (l.to_bytes t) ++ flow (room - l.size) ts

  flow_full : (room : ℕ) (ts : List A) → room ≡ 0 → flow room ts ≡ []
  flow_full room [] e = refl
  flow_full zero (t ∷ ts) e = flow_full (0 - l.size) ts (omega arith)
  flow_full (suc room) (t ∷ ts) e = absurd (omega arith)

module _ {A : Type 0} (l : Layout A) (init : A) (layout : IsLayout l) where
  structures_cons :
      (b : List ℕ)
      → 0 < length b
      → structures l init (length b) b
        ≡ overlay l init (take l.size b)
          ∷ structures l init (length (drop l.size b)) (drop l.size b)
  unfolding structures
  structures_cons [] h = absurd (omega arith)
  structures_cons (c ∷ b) h =
      let shorter = length-drop l.size (c ∷ b) in
      let less = layout.positive in
      ap (◌∷◌ (overlay l init (take l.size (c ∷ b)))) (
        structures_enough l init layout (length b) (length (drop l.size (c ∷ b)))
          (drop l.size (c ∷ b)) (omega arith) (omega arith))

  overlay-to_bytes : (t : A) → overlay l init (l.to_bytes t) ≡ t
  unfolding overlay
  overlay-to_bytes t =
      ap (λ b. l.of_bytes (l.to_bytes t ++ b))
        (drop_all (length (l.to_bytes t)) (l.to_bytes init)
          (omega (arith, layout.length-to_bytes t, layout.length-to_bytes init)))
      ∙ ap l.of_bytes (append-nil (l.to_bytes t))
      ∙ layout.of_bytes-to_bytes t

  -- a whole structure in front
  structures_whole :
      (t : A) (rest : List ℕ)
      → structures l init (length (l.to_bytes t ++ rest)) (l.to_bytes t ++ rest)
        ≡ t ∷ structures l init (length rest) rest
  structures_whole t rest =
      let whole = layout.length-to_bytes t in
      let more = length-append (l.to_bytes t) rest in
      let less = layout.positive in
      structures_cons (l.to_bytes t ++ rest) (omega arith)
      ∙ (λ i.
          overlay l init (take-append l.size (l.to_bytes t) rest whole i)
          ∷ structures l init (length (drop-append l.size (l.to_bytes t) rest whole i))
              (drop-append l.size (l.to_bytes t) rest whole i))
      ∙ ap (λ a. a ∷ structures l init (length rest) rest) (overlay-to_bytes t)

  -- less than a structure
  structures_cut :
      (b : List ℕ)
      → 0 < length b
      → length b ≤ l.size
      → structures l init (length b) b ≡ overlay l init b ∷ []
  unfolding structures
  structures_cut b h h' = structures_cons b h ∙ (λ i.
      overlay l init (take_all l.size b h' i)
      ∷ structures l init (length (drop_all l.size b h' i)) (drop_all l.size b h' i))

  abbrev all_structures : List ℕ → List A
  all_structures b = structures l init (length b) b

  structures-flow :
      (ts : List A) (room : ℕ) → all_structures (flow l init room ts) ≡ kept l init room ts
  unfolding structures
  structures-flow [] room = refl
  structures-flow (t ∷ ts) room = elim (split room) [
    | inl (inl le) ↦
        ap (λ b. all_structures (b ++ flow l init (room - l.size) ts))
          (take_all room (l.to_bytes t) (omega (arith, layout.length-to_bytes t)))
        ∙ structures_whole t (flow l init (room - l.size) ts)
        ∙ ap (◌∷◌ t) (structures-flow ts (room - l.size))
        ∙ ground arith
    | inl (inr (lt, h)) ↦
        ap (λ b. all_structures (take room (l.to_bytes t) ++ b))
          (flow_full l init (room - l.size) ts (omega arith))
        ∙ ap all_structures (append-nil (take room (l.to_bytes t)))
        ∙ structures_cut (take room (l.to_bytes t)) (omega (arith, cut_length t room lt))
            (omega (arith, cut_length t room lt))
        ∙ ground arith
    | inr e ↦
        let less = layout.positive in
        ap all_structures (flow_full l init room (t ∷ ts) e) ∙ ground arith
  ]
    where
      split : (room : ℕ) → ((l.size ≤ room) ⊎ ((room < l.size) × (0 < room))) ⊎ (room ≡ 0)
      split room = ground arith

      cut_length : (t : A) (room : ℕ) → room < l.size → length (take room (l.to_bytes t)) ≡ room
      cut_length t room lt =
          length-take_of_le room (l.to_bytes t) (omega (arith, layout.length-to_bytes t))

module _ {A F : Type 0} (k : Ring F) (l : Layout A) (init : A) where
  -- structures put in one after the other
  abbrev pub put_all : List A → F → F
  put_all [] f = f
  put_all (t ∷ ts) f = put_all ts ((ring_fifo k l init).put t f)

module _ {A F : Type 0} (k : Ring F) (l : Layout A) (init : A) (ring : IsRing k)
    (layout : IsLayout l) where
  put_all-flow :
      (ts : List A) (f : F)
      → k.bytes (put_all k l init ts f) ≡ k.bytes f ++ flow l init (k.room f) ts
  unfolding ring_fifo
  put_all-flow [] f = sym (append-nil (k.bytes f))
  put_all-flow (t ∷ ts) f =
      let next = (k.kfifo_in (l.to_bytes t) f).1 in
      put_all-flow ts next
      ∙ (λ i. ring.in_bytes (l.to_bytes t) f i ++ flow l init (room_left t f i) ts)
      ∙ append_assoc (k.bytes f) (take (k.room f) (l.to_bytes t))
          (flow l init (k.room f - l.size) ts)
    where
      room_left : (t : A) (f : F) → k.room (k.kfifo_in (l.to_bytes t) f).1 ≡ k.room f - l.size
      room_left t f =
          ring.in_room (l.to_bytes t) f ∙ ap (λ n. k.room f - n) (layout.length-to_bytes t)

  -- What can be taken out of an empty ring behind these calls.
  pub put_all-kept :
      (ts : List A) (f : F)
      → k.bytes f ≡ []
      → (ring_fifo k l init).contents (put_all k l init ts f) ≡ kept l init (k.room f) ts
  unfolding ring_fifo
  put_all-kept ts f e =
      ap (λ b. structures l init (length b) b)
        (put_all-flow ts f ∙ ap (λ b. b ++ flow l init (k.room f) ts) e)
      ∙ structures-flow l init layout ts (k.room f)
