-- ===== src/Report/Table/Fits.antt =====
-- No cell of the grid that `tabulate` fills is wider than its column.
use linuxtools.Base.{ℕ, zero, suc, ◌≤◌, max, List, [], ◌∷◌, Option, none, some, arith, length, All}
use linuxtools.Str.{Text}
use linuxtools.Report.Table.{
  Row, Orientation, horiz, vert, cell_text, Grid, empty_grid, put, place, put_header, put_row,
  put_rows, build,
}
use linuxtools.Report.Table.Modify.{modify, put_cell-modify, widen-modify}

-- The width of a cell; one that is None takes none.
abbrev pub cell_length : Option Text → ℕ
cell_length none = 0
cell_length (some t) = length t

-- The cells of a line, each against its column; a column that is missing has width 0.
abbrev pub FitsLine : List ℕ → List (Option Text) → Type 0
FitsLine ws [] = Unit
FitsLine [] (c ∷ line) = (cell_length c ≤ 0) × FitsLine [] line
FitsLine (w ∷ ws) (c ∷ line) = (cell_length c ≤ w) × FitsLine ws line

abbrev pub Fits : Grid → Type 0
Fits g = All (FitsLine g.widths) g.cells

abbrev wider : ℕ → ℕ → List ℕ → List ℕ
wider x n ws = modify x (λ w. max w n) 0 ws

FitsLine-wider :
    (x n : ℕ) (ws : List ℕ) (line : List (Option Text))
    → FitsLine ws line
    → FitsLine (wider x n ws) line
unfolding modify
FitsLine-wider x n ws [] h = tt
FitsLine-wider zero n [] (c ∷ line) (h, hs) = (omega arith, hs)
FitsLine-wider zero n (w ∷ ws) (c ∷ line) (h, hs) = (omega arith, hs)
FitsLine-wider (suc x) n [] (c ∷ line) (h, hs) = (h, FitsLine-wider x n [] line hs)
FitsLine-wider (suc x) n (w ∷ ws) (c ∷ line) (h, hs) = (h, FitsLine-wider x n ws line hs)

FitsLine-modify :
    (x : ℕ) (t : Text) (ws : List ℕ) (line : List (Option Text))
    → FitsLine ws line
    → FitsLine (wider x (length t) ws) (modify x (λ _. some t) none line)
unfolding modify
FitsLine-modify zero t [] [] h = (omega arith, tt)
FitsLine-modify zero t (w ∷ ws) [] h = (omega arith, tt)
FitsLine-modify zero t [] (c ∷ line) (h, hs) = (omega arith, hs)
FitsLine-modify zero t (w ∷ ws) (c ∷ line) (h, hs) = (omega arith, hs)
FitsLine-modify (suc x) t [] [] h = (omega arith, FitsLine-modify x t [] [] tt)
FitsLine-modify (suc x) t (w ∷ ws) [] h = (omega arith, FitsLine-modify x t ws [] tt)
FitsLine-modify (suc x) t [] (c ∷ line) (h, hs) = (h, FitsLine-modify x t [] line hs)
FitsLine-modify (suc x) t (w ∷ ws) (c ∷ line) (h, hs) = (h, FitsLine-modify x t ws line hs)

All-modify :
    (x y : ℕ) (t : Text) (ws : List ℕ) (cells : List (List (Option Text)))
    → All (FitsLine ws) cells
    → All (FitsLine (wider x (length t) ws)) (modify y (modify x (λ _. some t) none) [] cells)
unfolding modify
All-modify x zero t ws [] h = (FitsLine-modify x t ws [] tt, tt)
All-modify x zero t ws (line ∷ cells) (h, hs) = (FitsLine-modify x t ws line h, keep cells hs)
  where
    keep :
        (ls : List (List (Option Text)))
        → All (FitsLine ws) ls
        → All (FitsLine (wider x (length t) ws)) ls
    keep [] k = tt
    keep (l ∷ ls) (k, ks) = (FitsLine-wider x (length t) ws l k, keep ls ks)
All-modify x (suc y) t ws [] h = (tt, All-modify x y t ws [] tt)
All-modify x (suc y) t ws (line ∷ cells) (h, hs) =
    (FitsLine-wider x (length t) ws line h, All-modify x y t ws cells hs)

put-Fits : (x y : ℕ) (t : Text) (g : Grid) → Fits g → Fits (put x y t g)
unfolding put
put-Fits x y t g h =
    rw (put_cell-modify x y t g.cells, widen-modify x (length t) g.widths)
      (All-modify x y t g.widths g.cells h)

place-Fits : (o : Orientation) (j i : ℕ) (t : Text) (g : Grid) → Fits g → Fits (place o j i t g)
unfolding place
place-Fits horiz j i t g h = put-Fits j i t g h
place-Fits vert j i t g h = put-Fits i j t g h

put_header-Fits :
    (o : Orientation) (j : ℕ) (attrs : List Text) (g : Grid)
    → Fits g
    → Fits (put_header o j attrs g)
unfolding put_header
put_header-Fits o j [] g h = h
put_header-Fits o j (attr ∷ attrs) g h =
    put_header-Fits o (suc j) attrs (place o j 0 attr g) (place-Fits o j 0 attr g h)

put_row-Fits :
    (o : Orientation) (i : ℕ) (row : Row) (j : ℕ) (attrs : List Text) (g : Grid)
    → Fits g
    → Fits (put_row o i row j attrs g)
unfolding put_row
put_row-Fits o i row j [] g h = h
put_row-Fits o i row j (attr ∷ attrs) g h =
    put_row-Fits o i row (suc j) attrs _ (place-Fits o j i (cell_text row j attr) g h)

put_rows-Fits :
    (o : Orientation) (i : ℕ) (values : List Row) (attrs : List Text) (g : Grid)
    → Fits g
    → Fits (put_rows o i values attrs g)
unfolding put_rows
put_rows-Fits o i [] attrs g h = h
put_rows-Fits o i (row ∷ values) attrs g h =
    put_rows-Fits o (suc i) values attrs _ (put_row-Fits o i row 0 attrs g h)

-- For any names, values and orientation, no cell of the grid is wider than its column.
pub build-Fits :
    (o : Orientation) (attributes : List Text) (values : List Row)
    → Fits (build o attributes values)
unfolding build
build-Fits o attributes values =
    put_rows-Fits o 1 values attributes _ (put_header-Fits o 0 attributes empty_grid tt)
