-- ===== src/Tc/Words.antt =====
-- The command line that gives every option, and what it is read as.
use Prim.Native.Nat.{bit_or}
use Prim.Native.String.{String}
use mathlib.Core.Option.{map}
use mathlib.Core.Path.{subst}
use gapso_rbf_pid.Prelude.{
  ℕ, ◌≡◌, refl, sym, ap, ◌∙◌, List, [], ◌∷◌, Bool, true, false, none, some, if◌then◌else◌,
}
use gapso_rbf_pid.Prelude.Int.{pos, ltb_ℤ}
use gapso_rbf_pid.Double.{Double}
use gapso_rbf_pid.Params.{Qopt}
use gapso_rbf_pid.Tc.{
  Scanner, kind, accepted, refused, illegal, usage, what_is, ecn_flag, help_flag, unknown,
  take_value, finish, parse_words, rbfgrad_parse_opt, no_options, Field, value, limit_field,
  q_ref_field, n_field, m_field, p_init_field, p_min_field, p_max_field, eta_p_field, eta_i_field,
  eta_d_field, alpha_field, eta_field, kp_field, ki_field, kd_field, period_field,
}

-- the word for the value of each option
pub record Texts : Type 0 where
  pub limit : String
  pub q_ref : String
  pub n : String
  pub m : String
  pub p_init : String
  pub p_min : String
  pub p_max : String
  pub eta_p : String
  pub eta_i : String
  pub eta_d : String
  pub alpha : String
  pub eta : String
  pub kp_k : String
  pub ki_k : String
  pub kd_k : String
  pub sampl_period : String

-- The words are read as the values of these options.
pub record Spells {D : Type 0} (c : Scanner D) (t : Texts) (o : Qopt D) : Type 0 where
  pub limit : c.get_size t.limit ≡ some o.limit
  pub q_ref : c.scan_int t.q_ref ≡ some o.q_ref
  pub n : c.scan_int t.n ≡ some o.n
  pub m : c.scan_int t.m ≡ some o.m
  pub p_init : c.scan_double t.p_init ≡ some o.p_init
  pub p_min : c.scan_double t.p_min ≡ some o.p_min
  pub p_max : c.scan_double t.p_max ≡ some o.p_max
  pub eta_p : c.scan_double t.eta_p ≡ some o.eta_p
  pub eta_i : c.scan_double t.eta_i ≡ some o.eta_i
  pub eta_d : c.scan_double t.eta_d ≡ some o.eta_d
  pub alpha : c.scan_double t.alpha ≡ some o.alpha
  pub eta : c.scan_double t.eta ≡ some o.eta
  pub kp_k : c.scan_double t.kp_k ≡ some o.kp_k
  pub ki_k : c.scan_double t.ki_k ≡ some o.ki_k
  pub kd_k : c.scan_double t.kd_k ≡ some o.kd_k
  pub sampl_period : c.scan_int t.sampl_period ≡ some o.sampl_period

abbrev pub words : Texts → Bool → List String
words t ecn =
    "limit"
    ∷ t.limit
    ∷ "q_ref"
    ∷ t.q_ref
    ∷ "_n"
    ∷ t.n
    ∷ "m"
    ∷ t.m
    ∷ "p_init"
    ∷ t.p_init
    ∷ "p_min"
    ∷ t.p_min
    ∷ "p_max"
    ∷ t.p_max
    ∷ "eta_p"
    ∷ t.eta_p
    ∷ "eta_i"
    ∷ t.eta_i
    ∷ "eta_d"
    ∷ t.eta_d
    ∷ "alpha"
    ∷ t.alpha
    ∷ "eta"
    ∷ t.eta
    ∷ "kp_k"
    ∷ t.kp_k
    ∷ "ki_k"
    ∷ t.ki_k
    ∷ "kd_k"
    ∷ t.kd_k
    ∷ "sampl_period"
    ∷ t.sampl_period
    ∷ (if ecn then "ecn" ∷ [] else [])

module _ {D : Type 0} (c : Scanner D) (stack : List ℕ) where
  -- a keyword and the word for its value
  read_pair :
      (f : Field) (w v : String) (o o' : Qopt D) (rest : List String)
      → kind w ≡ value f
      → take_value c f v o ≡ some o'
      → parse_words c stack none false o (w ∷ v ∷ rest) ≡ parse_words c stack none false o' rest
  unfolding parse_words
  read_pair f w v o o' rest e e' =
      subst
        (λ k.
          elim k [
            | value f' ↦ parse_words c stack (some f') false o (v ∷ rest)
            | ecn_flag ↦ parse_words c stack none true o (v ∷ rest)
            | help_flag ↦ refused usage
            | unknown ↦ refused (what_is w)
          ]
          ≡ parse_words c stack none false o' rest)
        (sym e)
        (subst
          (λ x.
            elim x [
              | some o'' ↦ parse_words c stack none false o'' rest
              | none ↦ refused (illegal f)
            ]
            ≡ parse_words c stack none false o' rest)
          (sym e') refl)

  end_words :
      (o : Qopt D) (ecn : Bool)
      → ltb_ℤ (pos 0) o.q_ref ≡ true
      → parse_words c stack none false o (if ecn then "ecn" ∷ [] else [])
        ≡ accepted (record {
          parms = some (if ecn then record o { flags = bit_or o.flags 1 } else o);
          stab = some stack;
        })
  unfolding parse_words kind finish
  end_words o true h = rw h refl
  end_words o false h = rw h refl

module _ {D : Type 0} ⦃d : Double D⦄ where
  -- the sixteen keywords
  all_pairs :
      (c : Scanner D) (stack : List ℕ) (t : Texts) (o : Qopt D) (ecn : Bool)
      → Spells c t o
      → rbfgrad_parse_opt c stack (words t ecn)
        ≡ parse_words c stack none false
            (record o { flags = 0; scell_log = 0 })
            (if ecn then "ecn" ∷ [] else [])
  unfolding rbfgrad_parse_opt kind take_value
  all_pairs c stack t o ecn s =
      let start = no_options {D = D} in
      let o1 = record start { limit = o.limit } in
      let o2 = record o1 { q_ref = o.q_ref } in
      let o3 = record o2 { n = o.n } in
      let o4 = record o3 { m = o.m } in
      let o5 = record o4 { p_init = o.p_init } in
      let o6 = record o5 { p_min = o.p_min } in
      let o7 = record o6 { p_max = o.p_max } in
      let o8 = record o7 { eta_p = o.eta_p } in
      let o9 = record o8 { eta_i = o.eta_i } in
      let o10 = record o9 { eta_d = o.eta_d } in
      let o11 = record o10 { alpha = o.alpha } in
      let o12 = record o11 { eta = o.eta } in
      let o13 = record o12 { kp_k = o.kp_k } in
      let o14 = record o13 { ki_k = o.ki_k } in
      let o15 = record o14 { kd_k = o.kd_k } in
      let o16 = record o15 { sampl_period = o.sampl_period } in
      read_pair c stack limit_field "limit" t.limit start o1 _ refl
        (ap (map (λ x. record start { limit = x })) s.limit)
      ∙ read_pair c stack q_ref_field "q_ref" t.q_ref o1 o2 _ refl
          (ap (map (λ x. record o1 { q_ref = x })) s.q_ref)
      ∙ read_pair c stack n_field "_n" t.n o2 o3 _ refl (ap (map (λ x. record o2 { n = x })) s.n)
      ∙ read_pair c stack m_field "m" t.m o3 o4 _ refl (ap (map (λ x. record o3 { m = x })) s.m)
      ∙ read_pair c stack p_init_field "p_init" t.p_init o4 o5 _ refl
          (ap (map (λ x. record o4 { p_init = x })) s.p_init)
      ∙ read_pair c stack p_min_field "p_min" t.p_min o5 o6 _ refl
          (ap (map (λ x. record o5 { p_min = x })) s.p_min)
      ∙ read_pair c stack p_max_field "p_max" t.p_max o6 o7 _ refl
          (ap (map (λ x. record o6 { p_max = x })) s.p_max)
      ∙ read_pair c stack eta_p_field "eta_p" t.eta_p o7 o8 _ refl
          (ap (map (λ x. record o7 { eta_p = x })) s.eta_p)
      ∙ read_pair c stack eta_i_field "eta_i" t.eta_i o8 o9 _ refl
          (ap (map (λ x. record o8 { eta_i = x })) s.eta_i)
      ∙ read_pair c stack eta_d_field "eta_d" t.eta_d o9 o10 _ refl
          (ap (map (λ x. record o9 { eta_d = x })) s.eta_d)
      ∙ read_pair c stack alpha_field "alpha" t.alpha o10 o11 _ refl
          (ap (map (λ x. record o10 { alpha = x })) s.alpha)
      ∙ read_pair c stack eta_field "eta" t.eta o11 o12 _ refl
          (ap (map (λ x. record o11 { eta = x })) s.eta)
      ∙ read_pair c stack kp_field "kp_k" t.kp_k o12 o13 _ refl
          (ap (map (λ x. record o12 { kp_k = x })) s.kp_k)
      ∙ read_pair c stack ki_field "ki_k" t.ki_k o13 o14 _ refl
          (ap (map (λ x. record o13 { ki_k = x })) s.ki_k)
      ∙ read_pair c stack kd_field "kd_k" t.kd_k o14 o15 _ refl
          (ap (map (λ x. record o14 { kd_k = x })) s.kd_k)
      ∙ read_pair c stack period_field "sampl_period" t.sampl_period o15 o16 _ refl
          (ap (map (λ x. record o15 { sampl_period = x })) s.sampl_period)

  -- Every set of options whose reference length is positive can be given on the command line: for
  -- words that are read as the values of the options, the command with each keyword and its word, and
  -- with or without the word `ecn`, sends these options, with the flag of ECN as given, Scell_log 0,
  -- and the table that was on the stack.
  pub parse_opt-words :
      (c : Scanner D) (stack : List ℕ) (t : Texts) (o : Qopt D) (ecn : Bool)
      → Spells c t o
      → ltb_ℤ (pos 0) o.q_ref ≡ true
      → rbfgrad_parse_opt c stack (words t ecn)
        ≡ accepted (record {
          parms = some (record o { flags = if ecn then 1 else 0; scell_log = 0 });
          stab = some stack;
        })
  parse_opt-words c stack t o true s h =
      all_pairs c stack t o true s
      ∙ end_words c stack (record o { flags = 0; scell_log = 0 }) true h
  parse_opt-words c stack t o false s h =
      all_pairs c stack t o false s
      ∙ end_words c stack (record o { flags = 0; scell_log = 0 }) false h
