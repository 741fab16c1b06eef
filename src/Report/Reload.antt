-- ===== src/Report/Reload.antt =====
-- queuedata/read.sh: the module is loaded with a number of entries to leave out, the file is read by
-- one `cat`, the module is removed, and the number goes up by 40.
use gapso_rbf_pid.Prelude.{
  inl, inr, ◌⊎◌, ℕ, zero, suc, ◌+◌, ◌≤◌, ◌<◌, ◌≡◌, ◌∙◌, refl, ap, List, [], ◌∷◌, ◌++◌, Bool, true,
  false, ◌||◌, any, arith, ◌==◌,
}
use gapso_rbf_pid.Report.QueueData.{Counters}
use gapso_rbf_pid.Report.Session.{count_up}
use gapso_rbf_pid.Report.Cat.{Cat, Cat-Shows}

-- insmod seqfile_queuedata_rbfgrad.ko queue_array_count=$i
abbrev pub loaded : ℕ → Counters
loaded i = record { queue_array_count = i; count = 1 }

abbrev pub has : ℕ → List ℕ → Bool
has e xs = any (λ x. x == e) xs

has-append : (e : ℕ) (xs ys : List ℕ) → has e (xs ++ ys) ≡ has e xs || has e ys
has-append e [] ys = refl
has-append e (x ∷ xs) ys = ground (arith, has-append e xs ys)

has-below : (l k e : ℕ) → e < l → has e (count_up l k) ≡ false
has-below l zero e h = refl
has-below l (suc k) e h = ground (arith, has-below (suc l) k e)

has-above : (l k e : ℕ) → l + k ≤ e → has e (count_up l k) ≡ false
has-above l zero e h = refl
has-above l (suc k) e h = ground (arith, has-above (suc l) k e)

has-within : (l k e : ℕ) → l ≤ e → e < l + k → has e (count_up l k) ≡ true
has-within l zero e h h' = absurd (omega arith)
has-within l (suc k) e h h' = ground (arith, has-within (suc l) k e)

-- Where the module is loaded with `i`, read, and loaded with `i + 40` and read again: of the 40 entries
-- from `i` on, the text has those that the first read showed, and none of those that did not fit in its
-- page.
pub Cat-gap :
    (a a' i e : ℕ) (out out' : List ℕ) (c c' : Counters)
    → Cat a 0 (loaded i) out c
    → Cat a' 0 (loaded (i + 40)) out' c'
    → i ≤ e
    → e < i + 40
    → ((e < c.queue_array_count) × (has e (out ++ out') ≡ true))
      ⊎ ((c.queue_array_count ≤ e) × (has e (out ++ out') ≡ false))
Cat-gap a a' i e out out' c c' r r' h h' =
    let s = Cat-Shows a (loaded i) out c r in
    let s' = Cat-Shows a' (loaded (i + 40)) out' c' r' in
    let later : has e out' ≡ false = ap (has e) s'.entries ∙ has-below (i + 40) s'.k e h' in
    elim (below e c.queue_array_count) [
      | inl lt ↦ inl (
        lt,
        has-append e out out'
            ∙ ap (λ b. b || has e out')
                (ap (has e) s.entries ∙ has-within i s.k e h (omega (arith, s.counted))),
      )
      | inr le ↦ inr (
        le,
        has-append e out out'
            ∙ ap (λ b. b || has e out')
                (ap (has e) s.entries ∙ has-above i s.k e (omega (arith, s.counted)))
            ∙ later,
      )
    ]
  where
    below : (e q : ℕ) → (e < q) ⊎ (q ≤ e)
    below e q = ground arith
