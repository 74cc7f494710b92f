-- ===== src/Report/Table.antt =====
-- `tabulate` of VMM_Hygine_Report.py: the grid of cells and the widths of its columns.
pub mod Modify
pub mod Place
pub mod Fits
use linuxtools.Base.{
  ℕ, zero, suc, ◌+◌, ◌-◌, max, Bool, true, false, List, [], ◌∷◌, ◌++◌, Option, none, some,
  if◌then◌else◌, ltb, length, get_elem?, get_or, set, replicate,
}
use linuxtools.Str.{Text, codes}
use linuxtools.Str.Number.{decimal}
use linuxtools.Dict.{Dict, lookup}

-- A value of a cell: None, a `str` or a number.
pub data Cell : Type 0 where
  null : Cell
  str : Text → Cell
  num : ℕ → Cell

-- A row of values: a dict, a list or tuple, or something else.
pub data Row : Type 0 where
  fields : Dict Cell → Row
  items : List Cell → Row
  scalar : Row

-- ORIENT_HORIZ and ORIENT_VERT
pub data Orientation : Type 0 where
  horiz vert : Orientation

abbrev pub not_available : Text
not_available = codes "<N/A>"

-- `str(attr_value) if attr_value is not None else "<N/A>"`
unfoldable pub cell_str : Cell → Text
cell_str null = not_available
cell_str (str s) = s
cell_str (num n) = decimal n

abbrev or_default : Cell → Option Cell → Cell
or_default d none = d
or_default d (some c) = c

-- The value of column `j`, named `attr`, or `d` where the row has none.
unfoldable pub attr_value : Cell → Row → ℕ → Text → Cell
attr_value d (fields row) j attr = or_default d (lookup attr row)
attr_value d (items row) j attr = or_default d (get_elem? row j)
attr_value d scalar j attr = d

unfoldable pub cell_text : Row → ℕ → Text → Text
cell_text row j attr = cell_str (attr_value (str not_available) row j attr)

-- `while len(xs) < n: xs.append(d)`, also written as one `extend`.
abbrev pub extend {ℓ} : {A : Type ℓ} → ℕ → A → List A → List A
extend n d xs = xs ++ replicate (n - length xs) d

-- `cell_texts` and `col_widths`; a cell that is None is `none`.
pub record Grid : Type 0 where
  pub cells : List (List (Option Text))
  pub widths : List ℕ

abbrev pub empty_grid : Grid
empty_grid = record { cells = []; widths = [] }

-- `cell_texts[y][x] = text`, after the two extensions.
unfoldable pub put_cell : ℕ → ℕ → Text → List (List (Option Text)) → List (List (Option Text))
put_cell x y text cells =
    let rows = extend (suc y) [] cells in
    set rows y (set (extend (suc x) none (get_or rows y [])) x (some text))

-- `col_widths[x] = max(col_widths[x], n)`, after the extension.
unfoldable pub widen : ℕ → ℕ → List ℕ → List ℕ
widen x n widths = let ws = extend (suc x) 0 widths in set ws x (max (get_or ws x 0) n)

unfoldable pub put : ℕ → ℕ → Text → Grid → Grid
put x y text g = record {
  cells = put_cell x y text g.cells;
  widths = widen x (length text) g.widths;
}

-- A cell at (column, row) for a horizontal table, turned for a vertical one.
unfoldable pub place : Orientation → ℕ → ℕ → Text → Grid → Grid
place horiz j i text g = put j i text g
place vert j i text g = put i j text g

-- The first loop, from column `j`.
unfoldable pub put_header : Orientation → ℕ → List Text → Grid → Grid
put_header o j [] g = g
put_header o j (attr ∷ attrs) g = put_header o (suc j) attrs (place o j 0 attr g)

-- The inner loop of the second, from column `j` of row `i`.
unfoldable pub put_row : Orientation → ℕ → Row → ℕ → List Text → Grid → Grid
put_row o i row j [] g = g
put_row o i row j (attr ∷ attrs) g =
    put_row o i row (suc j) attrs (place o j i (cell_text row j attr) g)

-- The second loop, from row `i`.
unfoldable pub put_rows : Orientation → ℕ → List Row → List Text → Grid → Grid
put_rows o i [] attrs g = g
put_rows o i (row ∷ rows) attrs g = put_rows o (suc i) rows attrs (put_row o i row 0 attrs g)

unfoldable pub build : Orientation → List Text → List Row → Grid
build o attributes values = put_rows o 1 values attributes (put_header o 0 attributes empty_grid)
