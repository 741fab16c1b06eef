-- ===== src/Report/Drain.antt =====
-- One read of the /proc file of modules/tracepoint-probe-rbfgrad.c. The kernel's seq_read shows records
-- in a buffer of one page. It asks for the next record before it knows whether there is room for it,
-- and what does not fit is dropped: the next read starts with the position alone. The read asks for a
-- page at least.
use gapso_rbf_pid.Prelude.{
  ℕ, ◌+◌, ◌-◌, ◌≤◌, ◌<◌, ◌≡◌, List, [], ◌∷◌, Option, none, some, length, arith, ltb, if◌then◌else◌,
  Bool-cases, inl, inr, true, false,
}
use gapso_rbf_pid.Report.Probe.{Kfifo, IsFifo, take_next, max_to_get}

-- PAGE_SIZE
abbrev pub page_size : ℕ
page_size = 4096

module _ {A F : Type 0} (show : A → List ℕ) (next : ℕ → F → Option A × ℕ × F) where
  -- The calls behind the first record, where the buffer has `room` bytes left: the records shown, the
  -- one that was dropped, if any, and the queue that is left.
  pub data Fill : ℕ → ℕ → F → List A → List A → F → Type 0 where
    stops :
        (room index index' : ℕ) (f f' : F)
        → next index f ≡ (none, index', f')
        → Fill room index f [] [] f'
    full :
        (room index index' : ℕ) (t : A) (f f' : F)
        → next index f ≡ (some t, index', f')
        → room ≤ length (show t)
        → Fill room index f [] (t ∷ []) f'
    shows :
        (room index index' : ℕ) (t : A) (f f' f'' : F) (out lost : List A)
        → next index f ≡ (some t, index', f')
        → length (show t) < room
        → Fill (room - length (show t)) index' f' out lost f''
        → Fill room index f (t ∷ out) lost f''

  -- One read, from the record that `start` found.
  pub data Drain : Option A → ℕ → F → List A → List A → F → Type 0 where
    nothing : (index : ℕ) (f : F) → Drain none index f [] [] f
    first :
        (t : A) (index : ℕ) (f f' : F) (out lost : List A)
        → length (show t) < page_size
        → Fill (page_size - length (show t)) index f out lost f'
        → Drain (some t) index f (t ∷ out) lost f'

module _ {A : Type 0} (show : A → List ℕ) where
  -- Of these records: those that fit in so many bytes,
  abbrev pub fitting : ℕ → List A → List A
  fitting room [] = []
  fitting room (t ∷ ts) =
      let rest = fitting (room - length (show t)) ts in
      if ltb (length (show t)) room then t ∷ rest else []

  -- the one behind them,
  abbrev pub first_over : ℕ → List A → List A
  first_over room [] = []
  first_over room (t ∷ ts) =
      let rest = first_over (room - length (show t)) ts in
      if ltb (length (show t)) room then rest else t ∷ []

  -- and those behind that one.
  abbrev pub beyond : ℕ → List A → List A
  beyond room [] = []
  beyond room (t ∷ ts) =
      let rest = beyond (room - length (show t)) ts in
      if ltb (length (show t)) room then rest else ts

module _ {A F : Type 0} (k : Kfifo A F) (laws : IsFifo k) where
  open laws use {get_empty, get_oldest}

  pub next-empty :
      (index : ℕ) (f : F)
      → index + 1 < max_to_get
      → k.contents f ≡ []
      → take_next k index f ≡ (none, index + 1, f)
  unfolding take_next
  next-empty index f h e = ground (arith, get_empty f e)

  next-oldest :
      (index : ℕ) (f : F) (x : A) (xs : List A)
      → index + 1 < max_to_get
      → k.contents f ≡ x ∷ xs
      → take_next k index f ≡ (some x, index + 1, (k.get f).1)
  unfolding take_next
  next-oldest index f x xs h e = ground (arith, get_oldest f x xs e)

  ltb-lt : (a b : ℕ) → ltb a b ≡ true → a < b
  ltb-lt a b e = ground arith

  ltb-ge : (a b : ℕ) → ltb a b ≡ false → b ≤ a
  ltb-ge a b e = ground arith

  -- What fits is shown, the record behind it is dropped, and the others are left in the queue.
  pub Fill-from :
      (show : A → List ℕ) (room index : ℕ) (f : F) (xs : List A)
      → k.contents f ≡ xs
      → index + length xs + 1 < max_to_get
      → (f' : F) × Fill show
          (take_next k)
          room
          index
          f
          (fitting show room xs)
          (first_over show room xs)
          f'
        × (k.contents f' ≡ beyond show room xs)
  Fill-from show room index f [] e h =
      (f, stops room index (index + 1) f f (next-empty index f (omega arith) e), e)
  Fill-from show room index f (x ∷ xs) e h =
      let got = next-oldest index f x xs (omega arith) e in
      let left = (get_oldest f x xs e).1 in
      elim (Bool-cases (ltb (length (show x)) room)) [
        | inl q ↦
            let (f', run, same) =
              Fill-from show (room - length (show x)) (index + 1) (k.get f).1 xs left
                (omega arith) in
            rw q (
              f',
              shows room index (index + 1) x f _ f' _ _ got (ltb-lt (length (show x)) room q) run,
              same,
            )
        | inr q ↦ rw q (
          (k.get f).1,
          full room index (index + 1) x f _ got (ltb-ge (length (show x)) room q),
          left,
        )
      ]
