-- ===== src/Report/Cats.antt =====
-- Several `cat`s of the /proc file of queuedata/seqfile_queuedata_rbfgrad.c, one after the other.
use gapso_rbf_pid.Prelude.{ℕ, zero, suc, ◌+◌, ◌≡◌, ◌∙◌, refl, ap, List, [], ◌∷◌, ◌++◌, arith}
use gapso_rbf_pid.Report.QueueData.{Counters}
use gapso_rbf_pid.Report.Session.{count_up}
use gapso_rbf_pid.Report.Cat.{Cat, Cat-Shows}

-- Any number of `cat`s on the module while it is loaded; the number of samples may be another each
-- time. The entries shown, and the counters at the end.
pub data Cats : Counters → List ℕ → Counters → Type 0 where
  done : (c : Counters) → Cats c [] c
  cat :
      (a : ℕ) (c : Counters) (out : List ℕ) (c' : Counters) (out' : List ℕ) (c'' : Counters)
      → Cat a 0 c out c'
      → Cats c' out' c''
      → Cats c (out ++ out') c''

count_up-append : (l k m j : ℕ) → j ≡ l + k → count_up l k ++ count_up j m ≡ count_up l (k + m)
count_up-append l zero m j e =
    ap (λ x. count_up x m) {y = l} (omega arith) ∙ ap (count_up l) {y = 0 + m} (omega arith)
count_up-append l (suc k) m j e =
    ap (◌∷◌ l) (count_up-append (suc l) k m j (omega arith))
    ∙ ap (count_up l) {x = suc (k + m)} {y = suc k + m} (omega arith)

-- Over any number of `cat`s on the module while it is loaded, whatever entries fit in a page and
-- however many samples there are at each: the entries shown are consecutive ones from the first that
-- was not shown before, each once, and the count of entries read is behind the last of them.
pub Cats-count_up :
    (c : Counters) (out : List ℕ) (c' : Counters)
    → Cats c out c'
    → (k : ℕ) × (out ≡ count_up c.queue_array_count k)
      × (c'.queue_array_count ≡ c.queue_array_count + k)
Cats-count_up _ _ _ (done c) = (0, refl, omega arith)
Cats-count_up _ _ _ (cat a c out c' out' c'' r rs) =
    let s = Cat-Shows a c out c' r in
    let (k, e, counted) = Cats-count_up c' out' c'' rs in
    (
      s.k + k,
      ap (λ o. o ++ out') s.entries
          ∙ ap (◌++◌ (count_up c.queue_array_count s.k)) e
          ∙ count_up-append c.queue_array_count s.k k c'.queue_array_count s.counted,
      omega (arith, s.counted, counted),
    )
