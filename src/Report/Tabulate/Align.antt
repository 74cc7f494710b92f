-- ===== src/Report/Tabulate/Align.antt =====
-- The columns of a horizontal table in text are aligned.
use linuxtools.Base.{
  ℕ, zero, suc, ◌+◌, ◌-◌, ◌*◌, ◌≤◌, ◌<◌, ◌≡◌, refl, ◌∙◌, ap, max, List, [], ◌∷◌, ◌++◌, Option, none,
  some, arith, length, All, get_or, length-append, length-replicate, map,
}
use linuxtools.Str.{Text}
use linuxtools.Report.Table.{
  Row, horiz, cell_text, Grid, empty_grid, put, widen, place, put_header, put_row, put_rows, build,
}
use linuxtools.Report.Table.Modify.{modify, widen-modify}
use linuxtools.Report.Table.Place.{row_cells, horizontal, layout, build-layout}
use linuxtools.Report.Table.Fits.{FitsLine, build-Fits}
use linuxtools.Report.Tabulate.{spaces, padded, text_cell, text_cells, sum, table_width}

-- The widths of `n` columns from column `x`.
abbrev column_sum : List ℕ → ℕ → ℕ → ℕ
column_sum ws x zero = 0
column_sum ws x (suc n) = get_or ws x 0 + column_sum ws (suc x) n

-- The cells of a line, from column `x`: all are filled, and none is wider than its column.
abbrev FitsFrom : List ℕ → ℕ → List (Option Text) → Type 0
FitsFrom ws x [] = Unit
FitsFrom ws x (none ∷ line) = ⊥
FitsFrom ws x (some t ∷ line) = (length t ≤ get_or ws x 0) × FitsFrom ws (suc x) line

abbrev Filled : List (Option Text) → Type 0
Filled [] = Unit
Filled (none ∷ line) = ⊥
Filled (some t ∷ line) = Filled line

FitsFrom-cons :
    (w : ℕ) (ws : List ℕ) (x : ℕ) (line : List (Option Text))
    → FitsFrom ws x line
    → FitsFrom (w ∷ ws) (suc x) line
FitsFrom-cons w ws x [] h = tt
FitsFrom-cons w ws x (none ∷ line) h = h
FitsFrom-cons w ws x (some t ∷ line) (h, hs) = (h, FitsFrom-cons w ws (suc x) line hs)

FitsFrom-nil :
    (x : ℕ) (line : List (Option Text)) → FitsLine [] line → Filled line → FitsFrom [] x line
FitsFrom-nil x [] h f = tt
FitsFrom-nil x (none ∷ line) h f = f
FitsFrom-nil x (some t ∷ line) (h, hs) f = (h, FitsFrom-nil (suc x) line hs f)

FitsLine-from :
    (ws : List ℕ) (line : List (Option Text)) → FitsLine ws line → Filled line → FitsFrom ws 0 line
FitsLine-from ws [] h f = tt
FitsLine-from [] (c ∷ line) h f = FitsFrom-nil 0 (c ∷ line) h f
FitsLine-from (w ∷ ws) (none ∷ line) h f = f
FitsLine-from (w ∷ ws) (some t ∷ line) (h, hs) f =
    (h, FitsFrom-cons w ws 0 line (FitsLine-from ws line hs f))

length-padded : (w : ℕ) (t : Text) → length t ≤ w → length (padded w t) ≡ w + 2
unfolding padded
length-padded w t h = omega (
  arith,
  length-append {0} t (spaces (w + 2 - length t)),
  length-replicate {0} {A = ℕ} (w + 2 - length t) b' ',
)

length-text_cells :
    (ws : List ℕ) (x : ℕ) (line : List (Option Text)) (before : Text)
    → FitsFrom ws x line
    → length (text_cells horiz x ws line before)
      ≡ length before + column_sum ws x (length line) + 2 * length line
unfolding text_cells text_cell
length-text_cells ws x [] before h = omega arith
length-text_cells ws x (none ∷ line) before h = absurd h
length-text_cells ws x (some t ∷ line) before (h, hs) = omega (
  arith,
  length-text_cells ws (suc x) line (before ++ padded (get_or ws x 0) t) hs,
  length-append {0} before (padded (get_or ws x 0) t),
  length-padded (get_or ws x 0) t h,
)

column_sum-cons :
    (w : ℕ) (ws : List ℕ) (x n : ℕ) → column_sum (w ∷ ws) (suc x) n ≡ column_sum ws x n
column_sum-cons w ws x zero = refl
column_sum-cons w ws x (suc n) = ap (λ k. get_or ws x 0 + k) (column_sum-cons w ws (suc x) n)

column_sum-sum : (ws : List ℕ) → column_sum ws 0 (length ws) ≡ sum ws
unfolding sum
column_sum-sum [] = refl
column_sum-sum (w ∷ ws) = omega (arith, column_sum-cons w ws 0 (length ws), column_sum-sum ws)

-- The number of columns.
length-modify {ℓ} :
    {A : Type ℓ} (n : ℕ) (f : A → A) (d : A) (xs : List A)
    → length (modify n f d xs) ≡ max (suc n) (length xs)
unfolding modify
length-modify zero f d [] = omega arith
length-modify zero f d (x ∷ xs) = omega arith
length-modify (suc n) f d [] = omega (arith, length-modify n f d [])
length-modify (suc n) f d (x ∷ xs) = omega (arith, length-modify n f d xs)

length-widen : (x n : ℕ) (ws : List ℕ) → length (widen x n ws) ≡ max (suc x) (length ws)
length-widen x n ws = ap length (widen-modify x n ws) ∙ length-modify x (λ w. max w n) 0 ws

columns-put_header :
    (j : ℕ) (attrs : List Text) (g : Grid)
    → length g.widths ≡ j
    → length (put_header horiz j attrs g).widths ≡ j + length attrs
unfolding put_header place put
columns-put_header j [] g e = omega arith
columns-put_header j (attr ∷ attrs) g e = omega (
  arith,
  columns-put_header (suc j) attrs (place horiz j 0 attr g)
      (omega (arith, length-widen j (length attr) g.widths)),
)

columns-put_row :
    (i : ℕ) (row : Row) (j : ℕ) (attrs : List Text) (g : Grid)
    → j + length attrs ≤ length g.widths
    → length (put_row horiz i row j attrs g).widths ≡ length g.widths
unfolding put_row place put
columns-put_row i row j [] g h = refl
columns-put_row i row j (attr ∷ attrs) g h =
    let grown = length-widen j (length (cell_text row j attr)) g.widths in
    columns-put_row i row (suc j) attrs (place horiz j i (cell_text row j attr) g) (omega arith)
    ∙ omega arith

columns-put_rows :
    (i : ℕ) (values : List Row) (attrs : List Text) (g : Grid)
    → length attrs ≤ length g.widths
    → length (put_rows horiz i values attrs g).widths ≡ length g.widths
unfolding put_rows
columns-put_rows i [] attrs g h = refl
columns-put_rows i (row ∷ values) attrs g h =
    let same = columns-put_row i row 0 attrs g (omega arith) in
    columns-put_rows (suc i) values attrs (put_row horiz i row 0 attrs g) (omega arith) ∙ same

columns-build :
    (attrs : List Text) (values : List Row)
    → length (build horiz attrs values).widths ≡ length attrs
unfolding build
columns-build attrs values =
    let n = columns-put_header 0 attrs empty_grid refl in
    columns-put_rows 1 values attrs (put_header horiz 0 attrs empty_grid) (omega arith)
    ∙ omega arith

row_cells-Filled :
    (row : Row) (j : ℕ) (attrs : List Text)
    → Filled (row_cells row j attrs) × (length (row_cells row j attrs) ≡ length attrs)
unfolding row_cells
row_cells-Filled row j [] = (tt, refl)
row_cells-Filled row j (attr ∷ attrs) =
    let (f, n) = row_cells-Filled row (suc j) attrs in (f, ap suc n)

names-Filled :
    (attrs : List Text) → Filled (map some attrs) × (length (map some attrs) ≡ length attrs)
names-Filled [] = (tt, refl)
names-Filled (attr ∷ attrs) = let (f, n) = names-Filled attrs in (f, ap suc n)

-- A line that has as many cells as there are columns.
abbrev Full : List Text → List (Option Text) → Type 0
Full attrs line = Filled line × (length line ≡ length attrs)

rows-Full :
    (attrs : List Text) (values : List Row)
    → All (Full attrs) (map (λ row. row_cells row 0 attrs) values)
rows-Full attrs [] = tt
rows-Full attrs (row ∷ values) = (row_cells-Filled row 0 attrs, rows-Full attrs values)

cells-Full :
    (attr : Text) (attrs : List Text) (values : List Row)
    → All (Full (attr ∷ attrs)) (build horiz (attr ∷ attrs) values).cells
cells-Full attr attrs values =
    rw (build-layout horiz (attr ∷ attrs) values)
      (unfold layout horizontal in (names-Filled (attr ∷ attrs), rows-Full (attr ∷ attrs) values))

-- The line of text without the end of line.
abbrev pub rendered : List ℕ → List (Option Text) → Text
rendered widths line = text_cells horiz 0 widths line []

lines_aligned :
    (ws : List ℕ) (attrs : List Text) (lines : List (List (Option Text)))
    → length ws ≡ length attrs
    → 0 < length attrs
    → All (FitsLine ws) lines
    → All (Full attrs) lines
    → All (λ line. length (rendered ws line) ≡ table_width ws + 2) lines
unfolding table_width
lines_aligned ws attrs [] n pos h f = tt
lines_aligned ws attrs (line ∷ lines) n pos (h, hs) ((filled, m), fs) =
    let total = length-text_cells ws 0 line [] (FitsLine-from ws line h filled) in
    let e : length line ≡ length ws = omega arith in
    let all_columns : column_sum ws 0 (length line) ≡ sum ws =
      ap (column_sum ws 0) e ∙ column_sum-sum ws in
    (omega arith, lines_aligned ws attrs lines n pos hs fs)

-- In a horizontal table in text with at least one name, every line, that of the names included, has
-- the same length: the width of the rule of `=` under the names and the two spaces of a gutter.
pub rendered_aligned :
    (attr : Text) (attrs : List Text) (values : List Row)
    → let g = build horiz (attr ∷ attrs) values in
      All (λ line. length (rendered g.widths line) ≡ table_width g.widths + 2) g.cells
rendered_aligned attr attrs values =
    lines_aligned (build horiz (attr ∷ attrs) values).widths (attr ∷ attrs)
      (build horiz (attr ∷ attrs) values).cells (columns-build (attr ∷ attrs) values) (omega arith)
      (build-Fits horiz (attr ∷ attrs) values) (cells-Full attr attrs values)
