-- ===== src/Report/Readers.antt =====
-- read_proc_rbfgrad_/read_proc_rbfgrad.c and read_proc_rbfgrad_vars_/read_proc_rbfgrad_vars.c: the
-- programs that turn the lines of the two /proc files into text.
use gapso_rbf_pid.Prelude.{
  ℕ, ◌+◌, ◌-◌, ◌%◌, ◌^◌, List, [], ◌∷◌, Bool, true, false, ◌||◌, Option, none, some, length, ltb,
  ◌==◌, if◌then◌else◌, int_of_u32,
}
use gapso_rbf_pid.Double.{Double}
use gapso_rbf_pid.Report.Text.{long_of_int, atoll, all_lines}
use gapso_rbf_pid.Report.Transfer.{Cell, whole, real}

-- MAX, which fgets is given, and the number of bytes of the array `s`
abbrev pub line_max : ℕ
line_max = 10000

abbrev pub s_size : ℕ
s_size = 20

-- atoi
unfoldable pub atoi : List ℕ → ℕ
atoi line = long_of_int (int_of_u32 (atoll line % 2 ^ 32))

-- What the loop of a reader does, up to its end or to a line that is longer than the array that it is
-- read into: from there on C leaves the behaviour undefined.
pub record Reading (D : Type 0) : Type 0 where
  -- the cells that are printed, in order
  pub cells : List (Cell D)
  -- whether there was such a line
  pub overrun : Bool

-- with its final zero
unfoldable pub is_long : List ℕ → Bool
is_long line = ltb s_size (length line + 1)

module _ {D : Type 0} ⦃d : Double D⦄ where
  open d use {of_bits}

  -- the switch of read_proc_rbfgrad.c, on the count of lines within a group of ten
  unfoldable pub params_cell : ℕ → List ℕ → Cell D
  params_cell count_line line =
      if count_line == 1 || count_line == 2 || count_line == 7 || count_line == 8
      then whole (atoi line)
      else real (of_bits (atoll line))

  -- its loop, from a line with the number `count_line` on
  unfoldable pub params_loop : ℕ → List (List ℕ) → Reading D
  params_loop count_line [] = record { cells = []; overrun = false }
  params_loop count_line (line ∷ lines) =
      let rest = params_loop (if count_line == 10 then 1 else count_line + 1) lines in
      if is_long line
      then record { cells = []; overrun = true }
      else record { cells = params_cell count_line line ∷ rest.cells; overrun = rest.overrun }

  -- `main`: the text of the /proc file and whether the file to write could be opened. `none` is the
  -- end with the value 1.
  unfoldable pub read_proc_rbfgrad : Option (List ℕ) → Bool → Option (Reading D)
  read_proc_rbfgrad none opened = none
  read_proc_rbfgrad (some text) false = none
  read_proc_rbfgrad (some text) true =
      some (params_loop 1 (all_lines (line_max - 1) (line_max - 1) text))

  -- the loop of read_proc_rbfgrad_vars.c, where each of the eleven lines of a group is a double
  unfoldable pub vars_loop : List (List ℕ) → Reading D
  vars_loop [] = record { cells = []; overrun = false }
  vars_loop (line ∷ lines) =
      let rest = vars_loop lines in
      if is_long line
      then record { cells = []; overrun = true }
      else record { cells = real (of_bits (atoll line)) ∷ rest.cells; overrun = rest.overrun }

  unfoldable pub read_proc_rbfgrad_vars : Option (List ℕ) → Bool → Option (Reading D)
  read_proc_rbfgrad_vars none opened = none
  read_proc_rbfgrad_vars (some text) false = none
  read_proc_rbfgrad_vars (some text) true =
      some (vars_loop (all_lines (line_max - 1) (line_max - 1) text))
