-- ===== src/Report/QueueData.antt =====
-- queuedata/seqfile_queuedata_rbfgrad.c: the iterator of the /proc file over the array of samples. An
-- entry is given by its index in the array, where the source has a pointer to it.
use gapso_rbf_pid.Prelude.{
  ℕ, ◌+◌, List, [], ◌∷◌, ◌++◌, Bool, false, not, ◌&&◌, ◌||◌, Option, none, some, ltb, leb, ◌==◌,
  if◌then◌else◌,
}
use gapso_rbf_pid.Params.Action.{Action, dont_mark, prob_mark}
use gapso_rbf_pid.Sched.{QueueShow}
use gapso_rbf_pid.Report.Text.{codes, each_with, print_unsigned, print_int, print_long}

-- the two counters of the module, which no caller makes negative
pub record Counters : Type 0 where
  pub queue_array_count : ℕ
  pub count : ℕ

-- `array_element_rbfgrad` is the first argument; the result says whether the header is printed.
unfoldable pub l_start : ℕ → ℕ → Counters → Bool × Option ℕ × Counters
l_start array_element index c =
    if index == 0
    then (if ltb c.queue_array_count array_element
        then (c.queue_array_count == 0, some c.queue_array_count, record c { count = 1 })
        else (c.queue_array_count == 0, none, c))
    else (false, none, c)

-- The entry after `l`, the new value of `*pos`, and the counters.
pub record Next : Type 0 where
  pub entry : Option ℕ
  pub index : ℕ
  pub counters : Counters

unfoldable pub l_next : ℕ → ℕ → ℕ → Counters → Next
l_next array_element l index c =
    if not (index == 0) && (leb array_element (c.queue_array_count + 1) || ltb 40 (c.count + 1))
    then record {
      entry = none;
      index = index;
      counters = record { queue_array_count = c.queue_array_count + 1; count = c.count + 1 };
    }
    else record {
      entry = some (l + 1);
      index = index + 1;
      counters = record { queue_array_count = c.queue_array_count + 1; count = c.count + 1 };
    }

abbrev pub mark_number : Action → ℕ
mark_number dont_mark = 0
mark_number prob_mark = 1

-- the two lines that the first read begins with
abbrev pub header_title : List ℕ
header_title = codes "Show queue length:\n"

abbrev pub header_names : List ℕ
header_names = codes "numbers\tqueue_length\tmark_type\tprobability\tkp\tki\tkd\tjacobian\tNetOut\n"

abbrev pub header : List ℕ
header = header_title ++ header_names

unfoldable pub l_show : QueueShow → List ℕ
l_show s =
    each_with b'\t' (
      print_unsigned s.numbers
      ∷ print_unsigned s.length
      ∷ print_unsigned (mark_number s.mark_type)
      ∷ print_long s.p
      ∷ print_long s.kp
      ∷ print_long s.ki
      ∷ print_long s.kd
      ∷ print_long s.jacobian
      ∷ print_long s.net_out
      ∷ print_int s.e_k
      ∷ print_int s.e_k_1
      ∷ print_int s.e_k_2
      ∷ [])
    ++ (b'\n' ∷ [])
