-- ===== src/Report/Loading.antt =====
-- The loading and unloading of modules/tracepoint-probe-rbfgrad.c and of
-- modules/tracepoint-probe-rbfgrad-vars.c. The calls of the kernel are operations on a state `W`.
use gapso_rbf_pid.Prelude.{arith, ◌≡◌, refl, ◌∙◌, ℕ, Bool, true, false, ◌==◌, ◌||◌, if◌then◌else◌}

-- what a module holds of the kernel
pub record Held : Type 0 where
  -- its probe is registered with the tracepoint
  pub probe : Bool
  -- its file is there
  pub entry : Bool
  -- its kfifo has a buffer
  pub buffer : Bool

abbrev pub nothing : Held
nothing = record { probe = false; entry = false; buffer = false }

-- The calls for one module; an error number is 0 where the call succeeds.
pub record ProbeKernel (W : Type 0) : Type 0 where
  pub register_trace : W → ℕ × W
  -- whether an entry is returned
  pub proc_create : W → Bool × W
  -- the assignments to members of the entry
  pub set_write_proc : W → W
  pub set_proc_fops : W → W
  pub kfifo_alloc : W → ℕ × W
  pub unregister_trace : W → W
  pub tracepoint_synchronize_unregister : W → W
  pub remove_proc_entry : W → W
  pub kfifo_free : W → W
  -- what the module holds
  pub held : W → Held

-- Documented behaviour: a call that fails takes nothing, and each call is about one thing that is held.
pub record IsProbeKernel {W : Type 0} (k : ProbeKernel W) : Type 0 where
  pub register_trace_held :
      (w : W)
      → let (ret, w') = k.register_trace w in
        k.held w' ≡ record (k.held w) { probe = (ret == 0) || (k.held w).probe }
  pub proc_create_held :
      (w : W)
      → let (made, w') = k.proc_create w in
        k.held w' ≡ record (k.held w) { entry = made || (k.held w).entry }
  pub set_write_proc_held : (w : W) → k.held (k.set_write_proc w) ≡ k.held w
  pub set_proc_fops_held : (w : W) → k.held (k.set_proc_fops w) ≡ k.held w
  pub kfifo_alloc_held :
      (w : W)
      → let (ret, w') = k.kfifo_alloc w in k.held w' ≡ record (k.held w) { buffer = ret == 0 }
  pub unregister_trace_held :
      (w : W) → k.held (k.unregister_trace w) ≡ record (k.held w) { probe = false }
  pub synchronize_held : (w : W) → k.held (k.tracepoint_synchronize_unregister w) ≡ k.held w
  pub remove_proc_entry_held :
      (w : W) → k.held (k.remove_proc_entry w) ≡ record (k.held w) { entry = false }
  pub kfifo_free_held : (w : W) → k.held (k.kfifo_free w) ≡ record (k.held w) { buffer = false }

module _ {W : Type 0} (k : ProbeKernel W) where
  -- what is assigned to the entry, if there is one
  unfoldable pub set_entry : Bool → W → W
  set_entry made w = if made then k.set_proc_fops (k.set_write_proc w) else w

  unfoldable pub set_vars_entry : Bool → W → W
  set_vars_entry made w = if made then k.set_proc_fops w else w

  -- the value that is returned, and the state
  unfoldable pub tp_rbfgrad_trace_init : W → ℕ × W
  tp_rbfgrad_trace_init w =
      let (ret, registered) = k.register_trace w in
      let (made, created) = k.proc_create registered in
      (0, (k.kfifo_alloc (set_entry made created)).1)

  unfoldable pub tp_rbfgrad_vars_trace_init : W → ℕ × W
  tp_rbfgrad_vars_trace_init w =
      let (ret, registered) = k.register_trace w in
      let (made, created) = k.proc_create registered in
      (0, (k.kfifo_alloc (set_vars_entry made created)).1)

  unfoldable pub tp_rbfgrad_trace_exit : W → W
  tp_rbfgrad_trace_exit w =
      k.kfifo_free
        (k.remove_proc_entry (k.tracepoint_synchronize_unregister (k.unregister_trace w)))

  -- What the calls of a loading return is what is held after it.
  abbrev pub Loads : (Bool → W → W) → (W → ℕ × W) → W → Type 0
  Loads set init w =
      let (ret, registered) = k.register_trace w in
      let (made, created) = k.proc_create registered in
      let (failed, allocated) = k.kfifo_alloc (set made created) in
      ((init w).0 ≡ 0)
      × (k.held (init w).1 ≡ record { probe = ret == 0; entry = made; buffer = failed == 0 })
      × (k.held (tp_rbfgrad_trace_exit (init w).1) ≡ nothing)

  module _ (laws : IsProbeKernel k) where
    exit-nothing : (w : W) → k.held (tp_rbfgrad_trace_exit w) ≡ nothing
    unfolding tp_rbfgrad_trace_exit
    exit-nothing w =
        rw
          (
            laws.kfifo_free_held, laws.remove_proc_entry_held, laws.synchronize_held,
            laws.unregister_trace_held,
          )
          refl

    set_entry_held : (b : Bool) (w : W) → k.held (set_entry b w) ≡ k.held w
    unfolding set_entry
    set_entry_held true w = laws.set_proc_fops_held _ ∙ laws.set_write_proc_held w
    set_entry_held false w = refl

    set_vars_entry_held : (b : Bool) (w : W) → k.held (set_vars_entry b w) ≡ k.held w
    unfolding set_vars_entry
    set_vars_entry_held true w = laws.set_proc_fops_held w
    set_vars_entry_held false w = refl

    or_false : (b : Bool) → (b || false) ≡ b
    or_false b = ground arith

    all_held :
        (set : Bool → W → W) (w : W)
        → ((b : Bool) (w : W) → k.held (set b w) ≡ k.held w)
        → k.held w ≡ nothing
        → let (ret, registered) = k.register_trace w in
          let (made, created) = k.proc_create registered in
          let (failed, allocated) = k.kfifo_alloc (set made created) in
          k.held allocated ≡ record { probe = ret == 0; entry = made; buffer = failed == 0 }
    all_held set w same e =
        rw
          (
            laws.kfifo_alloc_held, same, laws.proc_create_held, laws.register_trace_held, e,
            or_false, or_false,
          )
          refl

    -- Where the kernel's calls behave as documented: from a state in which nothing is held, both
    -- loadings return 0 whatever their calls return; they then hold the probe, the file and the
    -- buffer, each exactly if the call for it succeeded; and the unloading leaves nothing held.
    pub trace_init-Loads :
        (w : W)
        → k.held w ≡ nothing
        → Loads set_entry tp_rbfgrad_trace_init w
          × Loads set_vars_entry tp_rbfgrad_vars_trace_init w
    unfolding tp_rbfgrad_trace_init tp_rbfgrad_vars_trace_init
    trace_init-Loads w e = (
      (refl, all_held set_entry w set_entry_held e, exit-nothing _),
      (refl, all_held set_vars_entry w set_vars_entry_held e, exit-nothing _),
    )
