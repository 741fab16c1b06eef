-- ===== src/Tc.antt =====
-- iproute2-3.1.0/tc/q_rbfgrad.c: the options of the command `tc`, from its words to the attributes
-- that the kernel gets. get_size and sscanf are not part of the repository: they are the fields of
-- `Scanner`.
pub mod Accepted
pub mod Words
pub mod Print
use Prim.Native.Nat.{bit_or}
use Prim.Native.String.{String}
use text.Mathlib.Text.{◌==◌}
use mathlib.Core.Option.{map}
use gapso_rbf_pid.Prelude.{
  ℕ, zero, suc, ◌*◌, ◌+◌, ◌-◌, ◌/◌, ◌%◌, List, [], ◌∷◌, ◌++◌, Bool, true, false, not, ◌&&◌, leb,
  ◌^◌, Option, none, some, if◌then◌else◌,
}
use gapso_rbf_pid.Prelude.Int.{ℤ, pos, negsuc, ltb_ℤ}
use gapso_rbf_pid.Double.{Double, num}
use gapso_rbf_pid.Params.{Qopt}
use gapso_rbf_pid.Sched.Admin.{Attributes}
use gapso_rbf_pid.Sched.Reports.{Xstats}

-- get_size, and sscanf with %d and with %lf: `none` where they read no value
pub record Scanner (D : Type 0) : Type 0 where
  pub get_size : String → Option ℕ
  pub scan_int : String → Option ℤ
  pub scan_double : String → Option D

-- the members of `opt` that words set, by the type of their value
pub data Field : Type 0 where
  limit_field : Field
  q_ref_field n_field m_field period_field : Field
  p_init_field p_min_field p_max_field : Field
  eta_p_field eta_i_field eta_d_field alpha_field eta_field : Field
  kp_field ki_field kd_field : Field

pub data Kind : Type 0 where
  value : Field → Kind
  ecn_flag help_flag unknown : Kind

-- the chain of strcmp
unfoldable pub kind : String → Kind
kind word =
    if word == "limit"
    then value limit_field
    else if word == "q_ref"
    then value q_ref_field
    else if word == "_n"
    then value n_field
    else if word == "m"
    then value m_field
    else if word == "p_init"
    then value p_init_field
    else if word == "p_min"
    then value p_min_field
    else if word == "p_max"
    then value p_max_field
    else if word == "eta_p"
    then value eta_p_field
    else if word == "eta_i"
    then value eta_i_field
    else if word == "eta_d"
    then value eta_d_field
    else if word == "alpha"
    then value alpha_field
    else if word == "eta"
    then value eta_field
    else if word == "kp_k"
    then value kp_field
    else if word == "ki_k"
    then value ki_field
    else if word == "kd_k"
    then value kd_field
    else if word == "sampl_period"
    then value period_field
    else if word == "ecn"
    then ecn_flag
    else if word == "help"
    then help_flag
    else unknown

-- Why -1 is returned: a value that could not be read, the word `help`, another word, or the reference
-- length
pub data Complaint : Type 0 where
  illegal : Field → Complaint
  usage : Complaint
  what_is : String → Complaint
  q_ref_too_small : Complaint

-- the keyword of a member
unfoldable pub keyword : Field → String
keyword limit_field = "limit"
keyword q_ref_field = "q_ref"
keyword n_field = "_n"
keyword m_field = "m"
keyword p_init_field = "p_init"
keyword p_min_field = "p_min"
keyword p_max_field = "p_max"
keyword eta_p_field = "eta_p"
keyword eta_i_field = "eta_i"
keyword eta_d_field = "eta_d"
keyword alpha_field = "alpha"
keyword eta_field = "eta"
keyword kp_field = "kp_k"
keyword ki_field = "ki_k"
keyword kd_field = "kd_k"
keyword period_field = "sampl_period"

abbrev pub explain : List String
explain =
    "Usage: ... rbfgrad limit BYTES sampl_period INTEGER  q_ref PACKETS p_init PROBABILITY "
    ∷ "p_min PROBABILITY p_max PROBABILITY\n"
    ∷ "                kp_k COEFFICIENT ki_k COEFFICIENT kd_k COEFFICIENT eta_p COEFFICIENT "
    ∷ "eta_i COEFFICIENT eta_d COEFFICIENT\n"
    ∷ "                n INTEGER m INTEGER alpha COEFFICIENT  eta COEFFICIENT\n"
    ∷ "                [ ecn ]\n" ∷ []

-- what is written to stderr, in pieces
unfoldable pub message : Complaint → List String
unfolding keyword
message (illegal f) = "Illegal \"" ∷ keyword f ∷ "\"\n" ∷ []
message usage = explain
message (what_is word) = "What is \"" ∷ word ∷ "\"?\n" ∷ explain
message q_ref_too_small = "RBFGRAD: q_ref must be > 0.\n" ∷ []

-- What becomes of the command: the attributes are sent, -1 is returned, or NEXT_ARG finds no word
-- and ends the program.
pub data Answer (D : Type 0) : Type 0 where
  accepted : Attributes D → Answer D
  refused : Complaint → Answer D
  exits : Answer D

module _ {D : Type 0} (c : Scanner D) where
  -- the word after a keyword
  unfoldable pub take_value : Field → String → Qopt D → Option (Qopt D)
  take_value limit_field v o = map (λ x. record o { limit = x }) (c.get_size v)
  take_value q_ref_field v o = map (λ x. record o { q_ref = x }) (c.scan_int v)
  take_value n_field v o = map (λ x. record o { n = x }) (c.scan_int v)
  take_value m_field v o = map (λ x. record o { m = x }) (c.scan_int v)
  take_value period_field v o = map (λ x. record o { sampl_period = x }) (c.scan_int v)
  take_value p_init_field v o = map (λ x. record o { p_init = x }) (c.scan_double v)
  take_value p_min_field v o = map (λ x. record o { p_min = x }) (c.scan_double v)
  take_value p_max_field v o = map (λ x. record o { p_max = x }) (c.scan_double v)
  take_value eta_p_field v o = map (λ x. record o { eta_p = x }) (c.scan_double v)
  take_value eta_i_field v o = map (λ x. record o { eta_i = x }) (c.scan_double v)
  take_value eta_d_field v o = map (λ x. record o { eta_d = x }) (c.scan_double v)
  take_value alpha_field v o = map (λ x. record o { alpha = x }) (c.scan_double v)
  take_value eta_field v o = map (λ x. record o { eta = x }) (c.scan_double v)
  take_value kp_field v o = map (λ x. record o { kp_k = x }) (c.scan_double v)
  take_value ki_field v o = map (λ x. record o { ki_k = x }) (c.scan_double v)
  take_value kd_field v o = map (λ x. record o { kd_k = x }) (c.scan_double v)

  -- What follows the loop. The tests of the probabilities there read three locals that nothing sets
  -- (`p_max` alone has a value) and only print; `stack` is what `sbuf` holds, which nothing sets.
  unfoldable pub finish : List ℕ → Bool → Qopt D → Answer D
  finish stack ecn o =
      if ltb_ℤ (pos 0) o.q_ref
      then accepted (record {
        parms = some (if ecn then record o { flags = bit_or o.flags 1 } else o);
        stab = some stack;
      })
      else refused q_ref_too_small

  -- `while (argc > 0)`; the second argument is the keyword that waits for its value
  unfoldable pub parse_words : List ℕ → Option Field → Bool → Qopt D → List String → Answer D
  parse_words stack none ecn o [] = finish stack ecn o
  parse_words stack (some f) ecn o [] = exits
  parse_words stack (some f) ecn o (v ∷ rest) = elim (take_value f v o) [
    | some o' ↦ parse_words stack none ecn o' rest
    | none ↦ refused (illegal f)
  ]
  parse_words stack none ecn o (word ∷ rest) = elim (kind word) [
    | value f ↦ parse_words stack (some f) ecn o rest
    | ecn_flag ↦ parse_words stack none true o rest
    | help_flag ↦ refused usage
    | unknown ↦ refused (what_is word)
  ]

module _ {D : Type 0} ⦃d : Double D⦄ where
  -- memset(&opt, 0, sizeof(opt))
  abbrev pub no_options : Qopt D
  no_options = record {
    q_ref = pos 0;
    p_init = num 0;
    p_min = num 0;
    p_max = num 0;
    kp_k = num 0;
    ki_k = num 0;
    kd_k = num 0;
    eta_p = num 0;
    eta_i = num 0;
    eta_d = num 0;
    n = pos 0;
    m = pos 0;
    alpha = num 0;
    eta = num 0;
    sampl_period = pos 0;
    scell_log = 0;
    limit = 0;
    flags = 0;
  }

  unfoldable pub rbfgrad_parse_opt : Scanner D → List ℕ → List String → Answer D
  rbfgrad_parse_opt c stack argv = parse_words c stack none false no_options argv
