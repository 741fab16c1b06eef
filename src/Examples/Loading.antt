-- ===== src/Examples/Loading.antt =====
-- A kernel that may be short of memory for the buffer of a kfifo, and a loading under it.
use gapso_rbf_pid.Prelude.{ℕ, ◌==◌, ◌≡◌, refl, Bool, true, false}
use gapso_rbf_pid.Report.Loading.{
  Held, nothing, ProbeKernel, IsProbeKernel, Loads, set_entry, set_vars_entry,
  tp_rbfgrad_trace_init, tp_rbfgrad_vars_trace_init, trace_init-Loads,
}

record Machine : Type 0 where
  held : Held
  memory : Bool

abbrev change_held : (Held → Held) → Machine → Machine
change_held f w = record w { held = f w.held }

abbrev alloc : Held → Bool → ℕ × Machine
alloc h true = (0, record { held = record h { buffer = true }; memory = true })
alloc h false = (12, record { held = record h { buffer = false }; memory = false })

abbrev kernel : ProbeKernel Machine
kernel = record {
  register_trace = λ w. (0, change_held (λ h. record h { probe = true }) w);
  proc_create = λ w. (true, change_held (λ h. record h { entry = true }) w);
  set_write_proc = λ w. w;
  set_proc_fops = λ w. w;
  kfifo_alloc = λ w. alloc w.held w.memory;
  unregister_trace = change_held (λ h. record h { probe = false });
  tracepoint_synchronize_unregister = λ w. w;
  remove_proc_entry = change_held (λ h. record h { entry = false });
  kfifo_free = change_held (λ h. record h { buffer = false });
  held = λ w. w.held;
}

alloc_held :
    (h : Held) (m : Bool) → let (ret, w) = alloc h m in w.held ≡ record h { buffer = ret == 0 }
alloc_held h true = refl
alloc_held h false = refl

kernel-IsProbeKernel : IsProbeKernel kernel
kernel-IsProbeKernel = record {
  register_trace_held = λ w. refl;
  proc_create_held = λ w. refl;
  set_write_proc_held = λ w. refl;
  set_proc_fops_held = λ w. refl;
  kfifo_alloc_held = λ w. alloc_held w.held w.memory;
  unregister_trace_held = λ w. refl;
  synchronize_held = λ w. refl;
  remove_proc_entry_held = λ w. refl;
  kfifo_free_held = λ w. refl;
}

abbrev short_of_memory : Machine
short_of_memory = record { held = nothing; memory = false }

trace_init-Loads_example :
    Loads kernel (set_entry kernel) (tp_rbfgrad_trace_init kernel) short_of_memory
    × Loads kernel (set_vars_entry kernel) (tp_rbfgrad_vars_trace_init kernel) short_of_memory
trace_init-Loads_example = trace_init-Loads kernel kernel-IsProbeKernel short_of_memory refl
