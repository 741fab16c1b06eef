-- ===== src/Report/Recorded.antt =====
-- From the calls of the probe of modules/tracepoint-probe-rbfgrad.c to a read of its /proc file.
use gapso_rbf_pid.Prelude.{ℕ, ◌-◌, arith, ◌+◌, ◌<◌, ◌≡◌, ◌∙◌, refl, ap, List, [], ◌∷◌, length}
use gapso_rbf_pid.Double.{Double, num}
use gapso_rbf_pid.Params.{Qopt}
use gapso_rbf_pid.Tc.{no_options}
use gapso_rbf_pid.Report.Text.{each_with, print_int, print_long, print_unsigned, digits_onto}
use gapso_rbf_pid.Report.Probe.{
  Kfifo, rbfgrad_show, rbfgrad_start, rbfgrad_next, probe_rbfgrad_output, max_to_get,
}
use gapso_rbf_pid.Report.Drain.{Drain, first, page_size, fitting, first_over, beyond, Fill-from}
use gapso_rbf_pid.Report.Ring.{Ring, IsRing, Layout, IsLayout, ring_fifo}
use gapso_rbf_pid.Report.Ring.Fifo.{ring_fifo-IsFifo}
use gapso_rbf_pid.Report.Ring.Kept.{kept, put_all, put_all-kept}

module _ {D F : Type 0} ⦃d : Double D⦄ (k : Ring F) (l : Layout (Qopt D)) where
  open d use {bits}

  -- ctl_init is all zero
  abbrev pub options_fifo : Kfifo (Qopt D) F
  options_fifo = ring_fifo k l no_options

  -- the calls of the probe, one after the other
  abbrev pub probe_all : List (Qopt D) → F → F
  probe_all [] f = f
  probe_all (t ∷ ts) f = probe_all ts (probe_rbfgrad_output options_fifo t f)

  probe_all-put_all : (ts : List (Qopt D)) (f : F) → probe_all ts f ≡ put_all k l no_options ts f
  unfolding probe_rbfgrad_output
  probe_all-put_all [] f = refl
  probe_all-put_all (t ∷ ts) f = probe_all-put_all ts ((options_fifo).put t f)

  zeros_fit : bits (num 0) ≡ 0 → length (rbfgrad_show (no_options {D = D})) < page_size
  unfolding rbfgrad_show each_with print_int print_long print_unsigned digits_onto
  zeros_fit zero = rw zero (omega arith)

  -- what the kfifo keeps of these options
  abbrev pub kept_of : List (Qopt D) → F → List (Qopt D)
  kept_of ts f = kept l no_options (k.room f) ts

  -- the bytes of the page behind the record of zeros
  abbrev pub room_left : ℕ
  room_left = page_size - length (rbfgrad_show (no_options {D = D}))

  -- Where the pattern of 0 is 0, and the probe was called with any options on an empty kfifo, which
  -- keeps fewer than 9999 of them: those kept are the options in the order of the calls, as long as a
  -- whole record had room, and the first one that had less room, with zeros in its last bytes. One
  -- read of the file ends and shows a record of zeros and then those that fit behind it in a page; the
  -- one that does not fit is taken out and dropped, and those behind it are left in the kfifo.
  pub probe_all-Drain :
      (ring : IsRing k) (layout : IsLayout l) (ts : List (Qopt D)) (f : F)
      → k.bytes f ≡ []
      → length (kept_of ts f) + 1 < max_to_get
      → bits (num 0) ≡ 0
      → (f' : F) × Drain rbfgrad_show
          (rbfgrad_next options_fifo)
          (rbfgrad_start options_fifo 0)
          0
          (probe_all ts f)
          (no_options ∷ fitting rbfgrad_show room_left (kept_of ts f))
          (first_over rbfgrad_show room_left (kept_of ts f))
          f'
        × ((options_fifo).contents f' ≡ beyond rbfgrad_show room_left (kept_of ts f))
  unfolding rbfgrad_start rbfgrad_next
  probe_all-Drain ring layout ts f e h zero =
      let shown =
        ap (options_fifo).contents (probe_all-put_all ts f)
        ∙ put_all-kept k l no_options ring layout ts f e in
      let (f', run, left) =
        Fill-from options_fifo (ring_fifo-IsFifo k l no_options ring layout) rbfgrad_show room_left
          0 (probe_all ts f) (kept_of ts f) shown (omega arith) in
      (f', first no_options 0 (probe_all ts f) f' _ _ (zeros_fit zero) run, left)
