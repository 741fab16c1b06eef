-- ===== src/Tc/Accepted.antt =====
-- What the kernel gets of a command that was accepted.
use Prim.Native.Nat.{bit_or}
use Prim.Native.String.{String}
use mathlib.Core.Option.{map}
use mathlib.Core.Path.{subst}
use gapso_rbf_pid.Prelude.{
  ℕ, ◌<◌, ◌≡◌, refl, sym, List, [], ◌∷◌, Bool, true, false, Option, none, some, inl, inr, arith,
  Bool-cases,
}
use gapso_rbf_pid.Prelude.Int.{pos, ltb_ℤ}
use gapso_rbf_pid.Double.{Double}
use gapso_rbf_pid.Params.{Qopt}
use gapso_rbf_pid.Sched.Admin.{Attributes}
use gapso_rbf_pid.Tc.{
  Scanner, Field, limit_field, q_ref_field, n_field, m_field, period_field, p_init_field,
  p_min_field, p_max_field, eta_p_field, eta_i_field, eta_d_field, alpha_field, eta_field, kp_field,
  ki_field, kd_field, Kind, value, ecn_flag, help_flag, unknown, kind, Answer, accepted, refused,
  exits, illegal, usage, what_is, take_value, finish, parse_words, no_options, rbfgrad_parse_opt,
}

-- both attributes are there, the reference length is positive, and of flags and Scell_log only the
-- bit of ECN may be set
pub record IsAccepted {D : Type 0} (stack : List ℕ) (a : Attributes D) : Type 0 where
  pub options : Qopt D
  pub parms : a.parms ≡ some options
  pub stab : a.stab ≡ some stack
  pub q_ref : ltb_ℤ (pos 0) options.q_ref ≡ true
  pub flags : options.flags < 2
  pub scell_log : options.scell_log ≡ 0

-- Of an answer: that it sends no other attributes.
abbrev pub SendsAccepted : {D : Type 0} → List ℕ → Answer D → Type 0
SendsAccepted stack (accepted a) = IsAccepted stack a
SendsAccepted stack (refused x) = Unit
SendsAccepted stack exits = Unit

-- Nothing has been written to these two; of a value that was read.
record IsPlain {D : Type 0} (o : Qopt D) : Type 0 where
  flags : o.flags ≡ 0
  scell_log : o.scell_log ≡ 0

abbrev AllPlain : {D : Type 0} → Option (Qopt D) → Type 0
AllPlain none = Unit
AllPlain (some o) = IsPlain o

map-AllPlain :
    {A D : Type 0} (g : A → Qopt D) (x : Option A) → ((a : A) → IsPlain (g a)) → AllPlain (map g x)
map-AllPlain g none h = tt
map-AllPlain g (some a) h = h a

module _ {D : Type 0} (c : Scanner D) where
  take_value-AllPlain :
      (f : Field) (v : String) (o : Qopt D) → IsPlain o → AllPlain (take_value c f v o)
  unfolding take_value
  take_value-AllPlain limit_field v o p =
      map-AllPlain _ (c.get_size v) (λ x. record { flags = p.flags; scell_log = p.scell_log })
  take_value-AllPlain q_ref_field v o p =
      map-AllPlain _ (c.scan_int v) (λ x. record { flags = p.flags; scell_log = p.scell_log })
  take_value-AllPlain n_field v o p =
      map-AllPlain _ (c.scan_int v) (λ x. record { flags = p.flags; scell_log = p.scell_log })
  take_value-AllPlain m_field v o p =
      map-AllPlain _ (c.scan_int v) (λ x. record { flags = p.flags; scell_log = p.scell_log })
  take_value-AllPlain period_field v o p =
      map-AllPlain _ (c.scan_int v) (λ x. record { flags = p.flags; scell_log = p.scell_log })
  take_value-AllPlain p_init_field v o p =
      map-AllPlain _ (c.scan_double v) (λ x. record { flags = p.flags; scell_log = p.scell_log })
  take_value-AllPlain p_min_field v o p =
      map-AllPlain _ (c.scan_double v) (λ x. record { flags = p.flags; scell_log = p.scell_log })
  take_value-AllPlain p_max_field v o p =
      map-AllPlain _ (c.scan_double v) (λ x. record { flags = p.flags; scell_log = p.scell_log })
  take_value-AllPlain eta_p_field v o p =
      map-AllPlain _ (c.scan_double v) (λ x. record { flags = p.flags; scell_log = p.scell_log })
  take_value-AllPlain eta_i_field v o p =
      map-AllPlain _ (c.scan_double v) (λ x. record { flags = p.flags; scell_log = p.scell_log })
  take_value-AllPlain eta_d_field v o p =
      map-AllPlain _ (c.scan_double v) (λ x. record { flags = p.flags; scell_log = p.scell_log })
  take_value-AllPlain alpha_field v o p =
      map-AllPlain _ (c.scan_double v) (λ x. record { flags = p.flags; scell_log = p.scell_log })
  take_value-AllPlain eta_field v o p =
      map-AllPlain _ (c.scan_double v) (λ x. record { flags = p.flags; scell_log = p.scell_log })
  take_value-AllPlain kp_field v o p =
      map-AllPlain _ (c.scan_double v) (λ x. record { flags = p.flags; scell_log = p.scell_log })
  take_value-AllPlain ki_field v o p =
      map-AllPlain _ (c.scan_double v) (λ x. record { flags = p.flags; scell_log = p.scell_log })
  take_value-AllPlain kd_field v o p =
      map-AllPlain _ (c.scan_double v) (λ x. record { flags = p.flags; scell_log = p.scell_log })

  finish-SendsAccepted :
      (stack : List ℕ) (ecn : Bool) (o : Qopt D)
      → IsPlain o
      → SendsAccepted stack (finish c stack ecn o)
  unfolding finish
  finish-SendsAccepted stack true o p = elim (Bool-cases (ltb_ℤ (pos 0) o.q_ref)) [
    | inl e ↦ rw e (record {
      options = record o { flags = bit_or o.flags 1 };
      parms = refl;
      stab = refl;
      q_ref = e;
      flags = subst (λ x. bit_or x 1 < 2) (sym p.flags) (omega arith);
      scell_log = p.scell_log;
    })
    | inr e ↦ rw e tt
  ]
  finish-SendsAccepted stack false o p = elim (Bool-cases (ltb_ℤ (pos 0) o.q_ref)) [
    | inl e ↦ rw e (record {
      options = o;
      parms = refl;
      stab = refl;
      q_ref = e;
      flags = subst (λ x. x < 2) (sym p.flags) (omega arith);
      scell_log = p.scell_log;
    })
    | inr e ↦ rw e tt
  ]

  after_value :
      (stack : List ℕ) (ecn : Bool) (f : Field) (x : Option (Qopt D)) (rest : List String)
      → AllPlain x
      → ((o' : Qopt D) → IsPlain o' → SendsAccepted stack (parse_words c stack none ecn o' rest))
      → SendsAccepted stack
          (elim x [ some o' ↦ parse_words c stack none ecn o' rest | none ↦ refused (illegal f) ])
  after_value stack ecn f none rest p h = tt
  after_value stack ecn f (some o') rest p h = h o' p

  after_word :
      (stack : List ℕ) (ecn : Bool) (o : Qopt D) (k : Kind) (word : String) (rest : List String)
      → ((f : Option Field) (b : Bool) → SendsAccepted stack (parse_words c stack f b o rest))
      → SendsAccepted stack (elim k [
        | value f ↦ parse_words c stack (some f) ecn o rest
        | ecn_flag ↦ parse_words c stack none true o rest
        | help_flag ↦ refused usage
        | unknown ↦ refused (what_is word)
      ])
  after_word stack ecn o (value f) word rest h = h (some f) ecn
  after_word stack ecn o ecn_flag word rest h = h none true
  after_word stack ecn o help_flag word rest h = tt
  after_word stack ecn o unknown word rest h = tt

  parse_words-SendsAccepted :
      (stack : List ℕ) (f : Option Field) (ecn : Bool) (o : Qopt D) (argv : List String)
      → IsPlain o
      → SendsAccepted stack (parse_words c stack f ecn o argv)
  unfolding parse_words
  parse_words-SendsAccepted stack none ecn o [] p = finish-SendsAccepted stack ecn o p
  parse_words-SendsAccepted stack (some f) ecn o [] p = tt
  parse_words-SendsAccepted stack (some f) ecn o (v ∷ rest) p =
      after_value stack ecn f (take_value c f v o) rest (take_value-AllPlain f v o p)
        (λ o' p'. parse_words-SendsAccepted stack none ecn o' rest p')
  parse_words-SendsAccepted stack none ecn o (word ∷ rest) p =
      after_word stack ecn o (kind word) word rest
        (λ f b. parse_words-SendsAccepted stack f b o rest p)

module _ {D : Type 0} ⦃d : Double D⦄ where
  -- Whatever the words of the command, in whatever order: if it sends attributes, both are there, the
  -- reference length is positive, no flag but that of ECN is set, and Scell_log is 0. The table is
  -- what happened to be on the stack.
  pub parse_opt-SendsAccepted :
      (c : Scanner D) (stack : List ℕ) (argv : List String)
      → SendsAccepted stack (rbfgrad_parse_opt c stack argv)
  unfolding rbfgrad_parse_opt
  parse_opt-SendsAccepted c stack argv =
      parse_words-SendsAccepted c stack none false no_options argv
        (record { flags = refl; scell_log = refl })
