-- ===== src/Report/Transfer.antt =====
-- test/transfer.c: the program that turns the numbers of the samples' file into text for the plots. The
-- text of a double is the C library's: a cell is a number to be printed, with its format.
use gapso_rbf_pid.Prelude.{
  ℕ, zero, suc, ◌+◌, ◌-◌, List, [], ◌∷◌, ◌&&◌, Option, none, some, leb, ◌==◌, if◌then◌else◌,
}
use gapso_rbf_pid.Double.{Double, num, ◌⊗◌}
use gapso_rbf_pid.Report.Text.{scan_long, fgets}

-- printed with %lld or %d, given as the pattern of a `long long`, or with %lf
pub data Cell (D : Type 0) : Type 0 where
  whole : ℕ → Cell D
  real : D → Cell D

abbrev pub row_count : ℕ
row_count = 20000

abbrev pub col_count : ℕ
col_count = 12

abbrev pub cur_max : ℕ
cur_max = 4095

abbrev pub get_scanned : ℕ → Option ℕ → ℕ
get_scanned a none = a
get_scanned a (some b) = b

pub record Row (D : Type 0) : Type 0 where
  pub cells : List (Cell D)
  -- the value of `a` behind the row
  pub last : ℕ
  pub left : List ℕ

-- the file that is written
pub record Plot (D : Type 0) : Type 0 where
  pub comment : List ℕ
  pub rows : List (List (Cell D))

module _ {D : Type 0} ⦃d : Double D⦄ where
  open d use {of_bits}

  -- the switch on the column
  unfoldable pub transfer_cell : ℕ → ℕ → Cell D
  transfer_cell j a =
      if leb 3 j && leb j 7
      then real (of_bits a)
      else if j == 8
      then real (of_bits a ⊗ num 6500)
      else whole a

  -- the inner loop: `n` columns from column `j` on; where fscanf finds no number, `a` keeps its value
  unfoldable pub transfer_row : ℕ → ℕ → ℕ → List ℕ → Row D
  transfer_row zero j a text = record { cells = []; last = a; left = text }
  transfer_row (suc n) j a text =
      let s = scan_long text in
      let b = get_scanned a s.found in
      let rest = transfer_row n (j + 1) b s.left in
      record { cells = transfer_cell j b ∷ rest.cells; last = rest.last; left = rest.left }

  -- the outer loop, `n` rows
  unfoldable pub transfer_rows : ℕ → ℕ → List ℕ → List (List (Cell D))
  transfer_rows zero a text = []
  transfer_rows (suc n) a text =
      let r = transfer_row col_count 0 a text in r.cells ∷ transfer_rows n r.last r.left

  -- `main` for a file that can be opened and has two lines: they are read first, and the second one
  -- is written as a comment. `a` is not set before the first fscanf.
  unfoldable pub transfer : ℕ → List ℕ → Plot D
  transfer a text =
      let first = fgets (cur_max - 1) text in
      let second = fgets (cur_max - 1) first.left in
      record { comment = b'#' ∷ second.line; rows = transfer_rows row_count a second.left }
