-- ===== src/Report/Ring.antt =====
-- The kernel's kfifo as modules/tracepoint-probe-rbfgrad.c and tracepoint-probe-rbfgrad-vars.c use it:
-- a ring of bytes into which structures are copied. The kernel's functions and the layout of a
-- structure in memory, which is the compiler's, are not part of the repository.
pub mod Fifo
pub mod Kept
use gapso_rbf_pid.Prelude.{
  ℕ, zero, suc, ◌+◌, ◌-◌, ◌*◌, ◌≤◌, ◌<◌, ◌≡◌, List, [], ◌∷◌, ◌++◌, Option, none, some, length, take,
  drop,
}
use gapso_rbf_pid.Report.Probe.{Kfifo}

pub record Ring (F : Type 0) : Type 0 where
  -- the number of bytes copied, and the ring behind the call
  pub kfifo_in : List ℕ → F → ℕ × F
  -- the bytes copied out, at most as many as are asked for
  pub kfifo_out : ℕ → F → List ℕ × F
  pub bytes : F → List ℕ
  -- how many more bytes fit
  pub room : F → ℕ

-- Documented behaviour: bytes go in as far as there is room, and come out in order.
pub record IsRing {F : Type 0} (k : Ring F) : Type 0 where
  pub in_bytes : (b : List ℕ) (f : F) → k.bytes (k.kfifo_in b f).1 ≡ k.bytes f ++ take (k.room f) b
  pub in_room : (b : List ℕ) (f : F) → k.room (k.kfifo_in b f).1 ≡ k.room f - length b
  pub out_bytes : (n : ℕ) (f : F) → (k.kfifo_out n f).0 ≡ take n (k.bytes f)
  pub out_left : (n : ℕ) (f : F) → k.bytes (k.kfifo_out n f).1 ≡ drop n (k.bytes f)
  -- nothing happens where there is nothing to take
  pub out_empty : (n : ℕ) (f : F) → k.bytes f ≡ [] → (k.kfifo_out n f).1 ≡ f

-- How a structure lies in memory.
pub record Layout (A : Type 0) : Type 0 where
  pub size : ℕ
  pub to_bytes : A → List ℕ
  pub of_bytes : List ℕ → A

pub record IsLayout {A : Type 0} (l : Layout A) : Type 0 where
  pub positive : 0 < l.size
  pub length-to_bytes : (t : A) → length (l.to_bytes t) ≡ l.size
  pub of_bytes-to_bytes : (t : A) → l.of_bytes (l.to_bytes t) ≡ t

module _ {A : Type 0} (l : Layout A) (init : A) where
  -- `ctl_temp` behind kfifo_out, when it held `ctl_init` and these bytes were copied over it
  unfoldable pub overlay : List ℕ → A
  overlay b = l.of_bytes (b ++ drop (length b) (l.to_bytes init))

  unfoldable pub got : List ℕ → Option A
  got [] = none
  got (c ∷ b) = some (overlay (c ∷ b))

  -- the structures that can be taken out, of which the last may be cut short; at most as many as the
  -- first argument says
  unfoldable pub structures : ℕ → List ℕ → List A
  structures zero b = []
  structures (suc n) [] = []
  structures (suc n) (c ∷ b) = overlay (take l.size (c ∷ b)) ∷ structures n (drop l.size (c ∷ b))

-- kfifo_in and kfifo_out of one structure
unfoldable pub ring_fifo : {A F : Type 0} → Ring F → Layout A → A → Kfifo A F
unfolding got structures overlay
ring_fifo k l init = record {
  put = λ t f. (k.kfifo_in (l.to_bytes t) f).1;
  get = λ f. (got l init (k.kfifo_out l.size f).0, (k.kfifo_out l.size f).1);
  contents = λ f. structures l init (length (k.bytes f)) (k.bytes f);
}
