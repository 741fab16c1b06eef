-- ===== src/Examples/Reports.antt =====
-- Examples of the theorems on options and reports.
use gapso_rbf_pid.Report.Probe.{Kfifo, IsFifo}
use Prim.Native.String.{String}
use text.Mathlib.Text.{◌==◌}
use gapso_rbf_pid.Prelude.{
  ap, sym, ◌∙◌, ℕ, ◌≡◌, refl, List, [], ◌∷◌, ◌++◌, true, Option, none, some, inr, if◌then◌else◌,
}
use gapso_rbf_pid.Prelude.Int.{pos}
use gapso_rbf_pid.Double.{num}
use gapso_rbf_pid.Sched.Admin.{rbfgrad_change}
use gapso_rbf_pid.Sched.Reports.{dump_options}
use gapso_rbf_pid.Sched.Dump.{dump_options-change}
use gapso_rbf_pid.Tc.{Scanner, accepted, rbfgrad_parse_opt}
use gapso_rbf_pid.Tc.Words.{Texts, Spells, words, parse_opt-words}
use gapso_rbf_pid.Tc.Accepted.{SendsAccepted, parse_opt-SendsAccepted}
use gapso_rbf_pid.Examples.Binary64.{Binary64}
use gapso_rbf_pid.Examples.Fifo.{fifo}
use gapso_rbf_pid.Examples.Inputs.{draws, options, table, busy}

dump_options-change_example :
    dump_options
      (rbfgrad_change fifo draws
        (some (inr (record { parms = some options; stab = some table })))
        busy).1
    ≡ record options { p_init = num 0; p_min = num 0; scell_log = 0; flags = 0 }
dump_options-change_example =
    dump_options-change fifo draws options table (record { limit = 6000; packets = [] }) busy refl

-- reads a few words
abbrev scan_word {ℓ} : {A : Type ℓ} → List (String × A) → String → Option A
scan_word [] s = none
scan_word ((t, a) ∷ rest) s = let found = scan_word rest s in if s == t then some a else found

abbrev scanner : Scanner ℕ
scanner = record {
  get_size = scan_word (("6000", 6000) ∷ []);
  scan_int = scan_word (("300", pos 300) ∷ ("10", pos 10) ∷ ("6", pos 6) ∷ ("1", pos 1) ∷ []);
  scan_double = scan_word (
      ("0.1", 0x3fb9_9999_9999_999a)
      ∷ ("0.3", 0x3fd3_3333_3333_3333)
      ∷ ("0.5", 0x3fe0_0000_0000_0000)
      ∷ ("1", 0x3ff0_0000_0000_0000)
      ∷ ("0", 0)
      ∷ []);
}

abbrev texts : Texts
texts = record {
  limit = "6000";
  q_ref = "300";
  n = "10";
  m = "6";
  p_init = "0.1";
  p_min = "0";
  p_max = "0.3";
  eta_p = "0.1";
  eta_i = "0.1";
  eta_d = "0.1";
  alpha = "0";
  eta = "0";
  kp_k = "1";
  ki_k = "0.5";
  kd_k = "0";
  sampl_period = "1";
}

texts-Spells : Spells scanner texts options
texts-Spells = record {
  limit = refl;
  q_ref = refl;
  n = refl;
  m = refl;
  p_init = refl;
  p_min = refl;
  p_max = refl;
  eta_p = refl;
  eta_i = refl;
  eta_d = refl;
  alpha = refl;
  eta = refl;
  kp_k = refl;
  ki_k = refl;
  kd_k = refl;
  sampl_period = refl;
}

parse_opt-words_example :
    rbfgrad_parse_opt scanner table (words texts true)
    ≡ accepted (record {
      parms = some (record options { flags = if true then 1 else 0; scell_log = 0 });
      stab = some table;
    })
parse_opt-words_example = parse_opt-words scanner table texts options true texts-Spells refl

parse_opt-SendsAccepted_example :
    SendsAccepted table (rbfgrad_parse_opt scanner table ("ecn" ∷ "q_ref" ∷ "300" ∷ []))
parse_opt-SendsAccepted_example =
    parse_opt-SendsAccepted scanner table ("ecn" ∷ "q_ref" ∷ "300" ∷ [])

abbrev pub take_first {ℓ} : {A : Type ℓ} → List A → Option A × List A
take_first [] = (none, [])
take_first (x ∷ xs) = (some x, xs)

abbrev pub list_fifo : {A : Type 0} → Kfifo A (List A)
list_fifo = record { put = λ ctl f. f ++ (ctl ∷ []); get = take_first; contents = λ f. f }

pub list_fifo-IsFifo : {A : Type 0} → IsFifo (list_fifo {A = A})
list_fifo-IsFifo = record {
  get_empty = λ f e. ap take_first e ∙ ap (λ g. (none, g)) (sym e);
  get_oldest = λ f x xs e. (ap (λ g. (take_first g).0) e, ap (λ g. (take_first g).1) e);
}
