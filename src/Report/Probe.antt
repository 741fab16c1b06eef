-- ===== src/Report/Probe.antt =====
-- modules/tracepoint-probe-rbfgrad.c: the probe that queues the options of each change, and the /proc
-- file that takes them out again. The kernel's kfifo is not part of the repository: a queue is a value
-- of a type `F` with the two operations that the module calls.
use gapso_rbf_pid.Prelude.{ℕ, ◌+◌, ◌≡◌, List, [], ◌∷◌, Option, none, some, leb, ◌==◌, if◌then◌else◌}
use gapso_rbf_pid.Double.{Double}
use gapso_rbf_pid.Params.{Qopt}
use gapso_rbf_pid.Tc.{no_options}
use gapso_rbf_pid.Report.Text.{each_with, print_int, print_long}

abbrev pub max_to_get : ℕ
max_to_get = 10000

-- a queue of records of type `A`
pub record Kfifo (A F : Type 0) : Type 0 where
  -- kfifo_in of one record
  pub put : A → F → F
  -- kfifo_out of one record: `none` where it returns 0
  pub get : F → Option A × F
  -- the records that are in the queue, the oldest first
  pub contents : F → List A

-- Documented behaviour: the oldest record comes out first.
pub record IsFifo {A F : Type 0} (k : Kfifo A F) : Type 0 where
  pub get_empty : (f : F) → k.contents f ≡ [] → k.get f ≡ (none, f)
  pub get_oldest :
      (f : F) (x : A) (xs : List A)
      → k.contents f ≡ x ∷ xs
      → ((k.get f).0 ≡ some x) × (k.contents (k.get f).1 ≡ xs)

-- The record after this one, the new `*pos` and the queue.
unfoldable pub take_next : {A F : Type 0} → Kfifo A F → ℕ → F → Option A × ℕ × F
take_next k index f =
    if leb max_to_get (index + 1)
    then (none, index + 1, f)
    else ((k.get f).0, index + 1, (k.get f).1)

module _ {D F : Type 0} ⦃d : Double D⦄ (k : Kfifo (Qopt D) F) where
  -- what is copied to `ctl_temp` is queued
  unfoldable pub probe_rbfgrad_output : Qopt D → F → F
  probe_rbfgrad_output ctl f = k.put ctl f

  -- ctl_init is all zero
  unfoldable pub rbfgrad_start : ℕ → Option (Qopt D)
  rbfgrad_start index = if index == 0 then some no_options else none

  unfoldable pub rbfgrad_next : ℕ → F → Option (Qopt D) × ℕ × F
  unfolding take_next
  rbfgrad_next index f = take_next k index f

module _ {D : Type 0} ⦃d : Double D⦄ where
  open d use {bits}

  -- the ten lines of a record
  unfoldable pub rbfgrad_show : Qopt D → List ℕ
  rbfgrad_show t = each_with b'\n' (
      print_int t.sampl_period
      ∷ print_int t.q_ref
      ∷ print_long (bits t.p_max)
      ∷ print_long (bits t.eta_p)
      ∷ print_long (bits t.eta_i)
      ∷ print_long (bits t.eta_d)
      ∷ print_int t.m
      ∷ print_int t.n
      ∷ print_long (bits t.alpha)
      ∷ print_long (bits t.eta)
      ∷ [])
