-- ===== src/Report/Cat.antt =====
-- What `cat` gets of the /proc file of queuedata/seqfile_queuedata_rbfgrad.c. The kernel's seq_read has
-- a buffer of one page: it shows entries until one does not fit behind the others, which is left for
-- the next read; only the first entry of a read always fits. Whether an entry fits is left open.
use mathlib.Core.List.{append-nil}
use mathlib.Core.Path.{subst}
use gapso_rbf_pid.Prelude.{
  ℕ, suc, ◌+◌, ◌≤◌, ◌<◌, ◌≡◌, ◌∙◌, ap, refl, List, [], ◌∷◌, ◌++◌, Option, none, some, arith, Bool,
}
use gapso_rbf_pid.Report.QueueData.{Counters, Next, l_start, l_next}
use gapso_rbf_pid.Report.Session.{count_up, batch}

-- The rest of a read, at an entry that `l_next` has found: the entries shown, the position that is
-- left and the counters.
pub data Fill (a : ℕ) : Option ℕ → ℕ → Counters → List ℕ → ℕ → Counters → Type 0 where
  stops : (index : ℕ) (c : Counters) → Fill a none index c [] index c
  full : (l index : ℕ) (c : Counters) → Fill a (some l) index c [] index c
  shows :
      (l index : ℕ) (c : Counters) (out : List ℕ) (index' : ℕ) (c' : Counters) (n : Next)
      → l_next a l index c ≡ n
      → Fill a n.entry n.index n.counters out index' c'
      → Fill a (some l) index c (l ∷ out) index' c'

-- Reads one after the other from a position, until one gets nothing.
pub data Cat (a : ℕ) : ℕ → Counters → List ℕ → Counters → Type 0 where
  ends :
      (index : ℕ) (c : Counters) (header : Bool)
      → l_start a index c ≡ (header, none, c)
      → Cat a index c [] c
  reads :
      (l index : ℕ) (c c1 : Counters) (header : Bool) (n : Next) (out : List ℕ) (index' : ℕ)
      (c' : Counters) (out' : List ℕ) (c'' : Counters)
      → l_start a index c ≡ (header, some l, c1)
      → l_next a l index c1 ≡ n
      → Fill a n.entry n.index n.counters out index' c'
      → Cat a index' c' out' c''
      → Cat a index c (l ∷ (out ++ out')) c''

-- Where the read that began at entry `start` stands at an entry that was found, or at its end.
abbrev Stands : ℕ → ℕ → Option ℕ → ℕ → Counters → Type 0
Stands a start none index c =
    (0 < index) × (c.queue_array_count ≡ start + index + 1) × (index + 1 ≤ batch a start)
Stands a start (some l) index c =
    (0 < index)
    × (l ≡ start + index)
    × (c.queue_array_count ≡ l)
    × (c.count ≡ index + 1)
    × (index + 1 ≤ batch a start)

l_next-Stands :
    (a start l index : ℕ) (c : Counters)
    → start < a
    → l ≡ start + index
    → c.queue_array_count ≡ l
    → c.count ≡ index + 1
    → index + 1 ≤ batch a start
    → Stands a start
        (l_next a l index c).entry
        (l_next a l index c).index
        (l_next a l index c).counters
unfolding l_next
l_next-Stands a start l index c lt e q k h = ground arith

-- how many entries were shown before
abbrev shown_of : Option ℕ → ℕ → ℕ
shown_of none index = index + 1
shown_of (some l) index = index

l_next-shown_of :
    (a l index : ℕ) (c : Counters)
    → shown_of (l_next a l index c).entry (l_next a l index c).index ≡ index + 1
unfolding l_next
l_next-shown_of a l index c = ground arith

-- Behind the read: `k` more entries were shown, and the counter is behind the last of them.
record Shown (a start shown : ℕ) (out : List ℕ) (index : ℕ) (c : Counters) : Type 0 where
  k : ℕ
  entries : out ≡ count_up (start + shown) k
  counted : c.queue_array_count ≡ start + shown + k
  bounded : shown + k ≤ batch a start
  moved : 0 < index

Fill-Shown :
    (a start : ℕ) (e : Option ℕ) (index : ℕ) (c : Counters) (out : List ℕ) (index' : ℕ)
    (c' : Counters)
    → start < a
    → Fill a e index c out index' c'
    → Stands a start e index c
    → Shown a start (shown_of e index) out index' c'
Fill-Shown a start _ _ _ _ _ _ lt (stops index c) (i, q, h) = record {
  k = 0;
  entries = refl;
  counted = omega arith;
  bounded = omega arith;
  moved = i;
}
Fill-Shown a start _ _ _ _ _ _ lt (full l index c) (i, e, q, k, h) = record {
  k = 0;
  entries = refl;
  counted = omega arith;
  bounded = omega arith;
  moved = i;
}
Fill-Shown a start _ _ _ _ _ _ lt (shows l index c out index' c' n e f) (i, el, q, k, h) =
    let stands =
      subst (λ (m : Next). Stands a start m.entry m.index m.counters) e
        (l_next-Stands a start l index c lt el q k h) in
    let next =
      subst (λ (m : Next). shown_of m.entry m.index ≡ index + 1) e (l_next-shown_of a l index c) in
    let rest = Fill-Shown a start n.entry n.index n.counters out index' c' lt f stands in
    record {
      k = suc rest.k;
      entries =
          ap (◌∷◌ l) (rest.entries ∙ ap (λ m. count_up m rest.k) {y = suc l} (omega arith))
          ∙ ap (λ m. m ∷ count_up (suc m) rest.k) el;
      counted = omega (arith, rest.counted, next);
      bounded = omega (arith, rest.bounded, next);
      moved = rest.moved;
    }

Cat-later :
    (a index : ℕ) (c : Counters) (out : List ℕ) (c' : Counters)
    → 0 < index
    → Cat a index c out c'
    → (out ≡ []) × (c' ≡ c)
unfolding l_start
Cat-later a _ _ _ _ h (ends index c header e) = (refl, refl)
Cat-later a _ _ _ _ h (reads l index c c1 header n out index' c' out' c'' e e' f r) =
    absurd (no_entry (ap (λ (t : Bool × Option ℕ × Counters). t.1) e))
  where
    no_entry : ¬ ((l_start a index c).1 ≡ some l)
    no_entry e = ground arith

l_start-some :
    (a l : ℕ) (c c1 : Counters) (header : Bool)
    → l_start a 0 c ≡ (header, some l, c1)
    → (c.queue_array_count < a)
      × (l ≡ c.queue_array_count)
      × (c1.queue_array_count ≡ l)
      × (c1.count ≡ 1)
unfolding l_start
l_start-some a l c c1 header e = ground arith

l_start-none :
    (a : ℕ) (c : Counters) (header : Bool)
    → l_start a 0 c ≡ (header, none, c)
    → a ≤ c.queue_array_count
unfolding l_start
l_start-none a c header e = ground arith

-- what one `cat` shows
pub record Shows (a : ℕ) (c : Counters) (out : List ℕ) (c' : Counters) : Type 0 where
  pub k : ℕ
  pub entries : out ≡ count_up c.queue_array_count k
  pub counted : c'.queue_array_count ≡ c.queue_array_count + k
  pub nothing : a ≤ c.queue_array_count → k ≡ 0
  pub something : c.queue_array_count < a → (1 ≤ k) × (k ≤ batch a c.queue_array_count)

pub Cat-Shows :
    (a : ℕ) (c : Counters) (out : List ℕ) (c' : Counters) → Cat a 0 c out c' → Shows a c out c'
Cat-Shows a _ _ _ (ends _ c header e) =
    let le = l_start-none a c header e in
    record {
      k = 0;
      entries = refl;
      counted = omega arith;
      nothing = λ h. refl;
      something = λ h. absurd (omega arith);
    }
Cat-Shows a _ _ _ (reads l _ c c1 header n out index' c' out' c'' e e' f r) =
    let q = c.queue_array_count in
    let (lt, el, counted, one) = l_start-some a l c c1 header e in
    let stands =
      subst (λ (m : Next). Stands a q m.entry m.index m.counters) e'
        (l_next-Stands a q l 0 c1 lt (omega arith) counted (omega arith) (omega arith)) in
    let first = subst (λ (m : Next). shown_of m.entry m.index ≡ 1) e' (l_next-shown_of a l 0 c1) in
    let rest = Fill-Shown a q n.entry n.index n.counters out index' c' lt f stands in
    let (none_left, same) = Cat-later a index' c' out' c'' rest.moved r in
    record {
      k = suc rest.k;
      entries =
          ap (λ o. l ∷ (out ++ o)) none_left
          ∙ ap (◌∷◌ l) (append-nil out)
          ∙ ap (◌∷◌ l) (rest.entries ∙ ap (λ m. count_up m rest.k) {y = suc l} (omega arith))
          ∙ ap (λ m. m ∷ count_up (suc m) rest.k) el;
      counted = ap (λ (m : Counters). m.queue_array_count) same ∙ omega (arith, rest.counted);
      nothing = λ h. absurd (omega arith);
      something = λ h. (omega arith, omega (arith, rest.bounded));
    }
