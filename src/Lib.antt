-- ===== src/Lib.antt =====
-- A Linux queueing discipline, `rbfgrad`, that marks packets with a probability which a PID controller
-- sets. The controller's coefficients follow a radial basis function (RBF) network, whose weights a
-- particle swarm (PSO) trains before every step.
--
-- Parts of the program and the files that model them:
-- * include/rbfgrad.h, `struct rbfgrad_parms`, `rbfgrad_set_parms`, `rbfgrad_cmp_prob`,
--   `rbfgrad_action`: Params, Params/Init, Params/Action.
-- * include/exp.h and fabs.h, the exponential by the words of a double: Exp.
-- * modules/sch_rbfgrad.c, `get_rbf_SSE` and the search of `rbfgrad_mark_probability`: Swarm; the rest
--   of that function: Control.
-- * modules/sch_rbfgrad.c, the discipline: Sched (its state, and the kernel's functions on a child
--   queue), Sched/Packets (the packet path), Sched/Admin (options, life cycle, the bodies of the
--   threads), Sched/Reports (what user space reads, the class operations).
-- * iproute2-3.1.0/tc/q_rbfgrad.c, the options of the command tc: Tc.
-- * queuedata/seqfile_queuedata_rbfgrad.c, the /proc file of the samples: Report/QueueData, and its
--   reader test/transfer.c: Report/Transfer.
-- * read_proc_rbfgrad_/read_proc_rbfgrad.c and read_proc_rbfgrad_vars_/read_proc_rbfgrad_vars.c, the
--   readers of the two /proc files below: Report/Readers. What these programs and the kernel's
--   seq_printf use of the C library on texts (integers in decimal, fgets) is in Report/Text.
-- * modules/tracepoint-probe-rbfgrad.c, the /proc file of the options that were set: Report/Probe;
--   modules/tracepoint-probe-rbfgrad-vars.c, that of the controller's variables: Report/Vars. The
--   kfifo between the probe and the file is in Report/Ring, and the loading of the two modules in
--   Report/Loading, both with the kernel's functions as parameters.
-- * queuedata/read.sh, which loads the module of the samples' file again and again: Report/Reload.
-- * include/pso.h, an older search on a work queue, which no file includes: Pso (the training of one
--   particle), Pso/Queue (a batch of works), Pso/Learn (the search).
-- * The other files beside these hold proofs, each named for what it proves. Sched/System has the
--   operations and the threads as a step relation. Examples has a concrete double, a concrete child
--   queue, and each theorem at concrete inputs.
--
-- How code and model correspond. A C function is a definition of the same name. `struct Qdisc`, `struct
-- rbfgrad_sched_data` and the module's globals are one record, `State`, which an operation takes and
-- returns. `u32` is a number below 2 ^ 32 with its wrap-around written out, `int` an integer; an array
-- is a list, and a text the list of its bytes. The random numbers are a function `draw` from the
-- number of the call. A double is a value of a type with the operations of `Double`: its arithmetic
-- is the compiler's and not code of the repository, and its decimal form is left to the C library;
-- the theorems that rely on its order name the laws of IEEE 754 that they use. The kernel's
-- functions are the fields of `Kernel`, with their documented behaviour in `IsQueue`.
--
-- Loops over an array are structural recursion on its list, and the main loop of the search is
-- recursion on the number of its rounds, so no fuel is used there. Only the main loop of Pso/Learn,
-- which need not end, takes the number of rounds that it is allowed; the theorem on it is for every
-- number.
--
-- A call of the controller is one step in Sched/System. Sched/Round has it in parts: packets and
-- changes of the options come in between the inputs, the rounds of the search, the coefficients, the
-- new probability and its tests.
--
-- The kernel's seq_read, through which the /proc files are read, has a buffer of one page. In
-- Report/Cat it is left open which entries fit in it; in Report/Drain it has 4096 bytes.
--
-- In Pso/Queue the works of a batch compute at the same time, one unit of the network after the other.
-- Pso/Learn takes what a batch leaves as an argument, or that the wait for it never ends.
--
-- Not modelled: what comes in in the midst of one of the parts of the controller's call, or while a
-- work reads or writes one unit; allocations that fail, apart from those of the probes' loading; the
-- registration of modules/sch_rbfgrad.c and of queuedata with the kernel; the messages of the modules
-- to the kernel's log; tc's warnings on the probabilities, which test locals that the words never set;
-- iproute2-3.1.0, a copy of another project, apart from its section on this discipline;
-- code that is commented out.
pub mod Prelude
pub mod Double
pub mod Params
pub mod Exp
pub mod Swarm
pub mod Control
pub mod Sched
pub mod Tc
pub mod Report
pub mod Pso
pub mod Examples
