-- ===== src/Report/Table/Place.antt =====
-- Where the loops of `tabulate` put each cell.
use linuxtools.Base.{
  ℕ, suc, ◌≡◌, refl, ◌∙◌, ap, sym, List, [], ◌∷◌, ◌++◌, Option, none, some, arith, length,
  append_assoc, append-nil, length-append, map,
}
use linuxtools.Str.{Text}
use linuxtools.Report.Table.{
  Row, Orientation, horiz, vert, cell_text, Grid, empty_grid, put_cell, put, widen, place,
  put_header, put_row, put_rows, build,
}
use linuxtools.Report.Table.Modify.{modify-middle, modify-end, put_cell-modify}

abbrev Cells : Type 0
Cells = List (List (Option Text))

-- The texts of a row of values, from column `j`.
unfoldable pub row_cells : Row → ℕ → List Text → List (Option Text)
row_cells row j [] = []
row_cells row j (attr ∷ attrs) = some (cell_text row j attr) ∷ row_cells row (suc j) attrs

-- A horizontal table: the names, and a line for each row of values.
unfoldable pub horizontal : List Text → List Row → List (List (Option Text))
horizontal attrs values = map some attrs ∷ map (λ row. row_cells row 0 attrs) values

-- A vertical one, from column `j`: a line for each name, with its texts in all rows behind it.
unfoldable pub vertical : ℕ → List Text → List Row → List (List (Option Text))
vertical j [] values = []
vertical j (attr ∷ attrs) values =
    (some attr ∷ map (λ row. some (cell_text row j attr)) values) ∷ vertical (suc j) attrs values

put_cell-middle :
    (top : Cells) (row : List (Option Text)) (rest : Cells) (t : Text)
    → put_cell (length row) (length top) t (top ++ (row ∷ rest))
      ≡ top ++ ((row ++ (some t ∷ [])) ∷ rest)
put_cell-middle top row rest t =
    put_cell-modify (length row) (length top) t (top ++ (row ∷ rest))
    ∙ modify-middle top _ [] row rest
    ∙ ap (λ r. top ++ (r ∷ rest)) (modify-end row _ none)

put_cell-end :
    (top : Cells) (t : Text) → put_cell 0 (length top) t top ≡ top ++ ((some t ∷ []) ∷ [])
put_cell-end top t =
    put_cell-modify 0 (length top) t top
    ∙ modify-end top _ []
    ∙ ap (λ r. top ++ (r ∷ [])) (modify-end [] (λ _. some t) none)

-- The length of a list with one more item, as the loops count it.
suc-length {ℓ} : {A : Type ℓ} (xs : List A) (x : A) → suc (length xs) ≡ length (xs ++ (x ∷ []))
suc-length xs x = omega (arith, length-append {ℓ} xs (x ∷ []))

put_row_horiz :
    (top : Cells) (row : Row) (line : List (Option Text)) (attrs : List Text) (ws : List ℕ)
    → (put_row horiz
        (length top)
        row
        (length line)
        attrs
        (record { cells = top ++ (line ∷ []); widths = ws })).cells
      ≡ top ++ ((line ++ row_cells row (length line) attrs) ∷ [])
unfolding put_row place put row_cells
put_row_horiz top row line [] ws = ap (λ l. top ++ (l ∷ [])) (sym (append-nil line))
put_row_horiz top row line (attr ∷ attrs) ws =
    let t = cell_text row (length line) attr in
    let longer = line ++ (some t ∷ []) in
    let wider = widen (length line) (length t) ws in
    ap
      (λ c.
        (put_row horiz (length top) row (suc (length line)) attrs
          (record { cells = c; widths = wider })).cells)
      (put_cell-middle top line [] t)
    ∙ ap
        (λ j.
          (put_row horiz (length top) row j attrs
            (record { cells = top ++ (longer ∷ []); widths = wider })).cells)
        (suc-length line (some t))
    ∙ put_row_horiz top row longer attrs wider
    ∙ ap (λ l. top ++ (l ∷ []))
        (ap (λ j. longer ++ row_cells row j attrs) (sym (suc-length line (some t)))
          ∙ append_assoc line (some t ∷ []) (row_cells row (suc (length line)) attrs))

put_header_horiz :
    (line : List (Option Text)) (attrs : List Text) (ws : List ℕ)
    → (put_header horiz (length line) attrs (record { cells = line ∷ []; widths = ws })).cells
      ≡ (line ++ map some attrs) ∷ []
unfolding put_header place put
put_header_horiz line [] ws = ap (λ l. l ∷ []) (sym (append-nil line))
put_header_horiz line (attr ∷ attrs) ws =
    let longer = line ++ (some attr ∷ []) in
    let wider = widen (length line) (length attr) ws in
    ap
      (λ c.
        (put_header horiz (suc (length line)) attrs (record { cells = c; widths = wider })).cells)
      (put_cell-middle [] line [] attr)
    ∙ ap (λ j. (put_header horiz j attrs (record { cells = longer ∷ []; widths = wider })).cells)
        (suc-length line (some attr))
    ∙ put_header_horiz longer attrs wider
    ∙ ap (λ l. l ∷ []) (append_assoc line (some attr ∷ []) (map some attrs))

put_row_horiz_new :
    (top : Cells) (row : Row) (attr : Text) (attrs : List Text) (g : Grid)
    → g.cells ≡ top
    → (put_row horiz (length top) row 0 (attr ∷ attrs) g).cells
      ≡ top ++ (row_cells row 0 (attr ∷ attrs) ∷ [])
unfolding put_row place put row_cells
put_row_horiz_new top row attr attrs g e =
    let t = cell_text row 0 attr in
    let wider = widen 0 (length t) g.widths in
    ap
      (λ c.
        (put_row horiz (length top) row 1 attrs
          (record { cells = put_cell 0 (length top) t c; widths = wider })).cells)
      e
    ∙ ap
        (λ c. (put_row horiz (length top) row 1 attrs (record { cells = c; widths = wider })).cells)
        (put_cell-end top t)
    ∙ put_row_horiz top row (some t ∷ []) attrs wider

put_rows_horiz :
    (top : Cells) (values : List Row) (attr : Text) (attrs : List Text) (g : Grid)
    → g.cells ≡ top
    → (put_rows horiz (length top) values (attr ∷ attrs) g).cells
      ≡ top ++ map (λ row. row_cells row 0 (attr ∷ attrs)) values
unfolding put_rows
put_rows_horiz top [] attr attrs g e = e ∙ sym (append-nil top)
put_rows_horiz top (row ∷ values) attr attrs g e =
    let line = row_cells row 0 (attr ∷ attrs) in
    let filled = put_row horiz (length top) row 0 (attr ∷ attrs) g in
    ap (λ i. (put_rows horiz i values (attr ∷ attrs) filled).cells) (suc-length top line)
    ∙ put_rows_horiz (top ++ (line ∷ [])) values attr attrs filled
        (put_row_horiz_new top row attr attrs g e)
    ∙ append_assoc top (line ∷ []) (map (λ r. row_cells r 0 (attr ∷ attrs)) values)

put_header_vert :
    (top : Cells) (attrs : List Text) (g : Grid)
    → g.cells ≡ top
    → (put_header vert (length top) attrs g).cells ≡ top ++ vertical (length top) attrs []
unfolding put_header place put vertical
put_header_vert top [] g e = e ∙ sym (append-nil top)
put_header_vert top (attr ∷ attrs) g e =
    let line = some attr ∷ [] in
    let next = place vert (length top) 0 attr g in
    ap (λ j. (put_header vert j attrs next).cells) (suc-length top line)
    ∙ put_header_vert (top ++ (line ∷ [])) attrs next
        (ap (put_cell 0 (length top) attr) e ∙ put_cell-end top attr)
    ∙ ap (λ j. (top ++ (line ∷ [])) ++ vertical j attrs []) (sym (suc-length top line))
    ∙ append_assoc top (line ∷ []) (vertical (suc (length top)) attrs [])

-- The line of one name over some rows of values.
abbrev column : ℕ → Text → List Row → List (Option Text)
column j attr values = some attr ∷ map (λ row. some (cell_text row j attr)) values

length-column :
    (j : ℕ) (attr : Text) (values : List Row) → length (column j attr values) ≡ suc (length values)
length-column j attr [] = refl
length-column j attr (row ∷ values) = ap suc (length-column j attr values)

column-append :
    (j : ℕ) (attr : Text) (values : List Row) (row : Row)
    → column j attr values ++ (some (cell_text row j attr) ∷ [])
      ≡ column j attr (values ++ (row ∷ []))
column-append j attr [] row = refl
column-append j attr (v ∷ values) row =
    ap (λ l. some attr ∷ some (cell_text v j attr) ∷ l) (tail_path values)
  where
    tail_path :
        (vs : List Row)
        → map (λ r. some (cell_text r j attr)) vs ++ (some (cell_text row j attr) ∷ [])
          ≡ map (λ r. some (cell_text r j attr)) (vs ++ (row ∷ []))
    tail_path [] = refl
    tail_path (w ∷ ws) = ap (◌∷◌ (some (cell_text w j attr))) (tail_path ws)

put_row_vert :
    (top : Cells) (before : List Row) (row : Row) (attrs : List Text) (g : Grid)
    → g.cells ≡ top ++ vertical (length top) attrs before
    → (put_row vert (suc (length before)) row (length top) attrs g).cells
      ≡ top ++ vertical (length top) attrs (before ++ (row ∷ []))
unfolding put_row place put vertical
put_row_vert top before row [] g e = e
put_row_vert top before row (attr ∷ attrs) g e =
    let j = length top in
    let t = cell_text row j attr in
    let line = column j attr (before ++ (row ∷ [])) in
    let next = place vert j (suc (length before)) t g in
    ap (λ k. (put_row vert (suc (length before)) row k attrs next).cells) (suc-length top line)
    ∙ put_row_vert (top ++ (line ∷ [])) before row attrs next (
        ap (put_cell (suc (length before)) j t) e
        ∙ ap (λ n. put_cell n j t (top ++ (column j attr before ∷ vertical (suc j) attrs before)))
            (sym (length-column j attr before))
        ∙ put_cell-middle top (column j attr before) (vertical (suc j) attrs before) t
        ∙ ap (λ l. top ++ (l ∷ vertical (suc j) attrs before)) (column-append j attr before row)
        ∙ sym (append_assoc top (line ∷ []) (vertical (suc j) attrs before))
        ∙ ap (λ k. (top ++ (line ∷ [])) ++ vertical k attrs before) (suc-length top line))
    ∙ ap (λ k. (top ++ (line ∷ [])) ++ vertical k attrs (before ++ (row ∷ [])))
        (sym (suc-length top line))
    ∙ append_assoc top (line ∷ []) (vertical (suc j) attrs (before ++ (row ∷ [])))

put_rows_vert :
    (before values : List Row) (attrs : List Text) (g : Grid)
    → g.cells ≡ vertical 0 attrs before
    → (put_rows vert (suc (length before)) values attrs g).cells
      ≡ vertical 0 attrs (before ++ values)
unfolding put_rows
put_rows_vert before [] attrs g e = e ∙ ap (vertical 0 attrs) (sym (append-nil before))
put_rows_vert before (row ∷ values) attrs g e =
    let filled = put_row vert (suc (length before)) row 0 attrs g in
    ap (λ n. (put_rows vert (suc n) values attrs filled).cells) (suc-length before row)
    ∙ put_rows_vert (before ++ (row ∷ [])) values attrs filled
        (put_row_vert [] before row attrs g e)
    ∙ ap (vertical 0 attrs) (append_assoc before (row ∷ []) values)

-- With no names nothing is put anywhere.
put_rows_no_names : (i : ℕ) (values : List Row) (g : Grid) → put_rows horiz i values [] g ≡ g
unfolding put_rows put_row
put_rows_no_names i [] g = refl
put_rows_no_names i (row ∷ values) g = put_rows_no_names (suc i) values g

put_header_horiz_new :
    (attr : Text) (attrs : List Text)
    → (put_header horiz 0 (attr ∷ attrs) empty_grid).cells ≡ map some (attr ∷ attrs) ∷ []
unfolding put_header place put
put_header_horiz_new attr attrs =
    ap
      (λ c.
        (put_header horiz 1 attrs (record { cells = c; widths = widen 0 (length attr) [] })).cells)
      (put_cell-end [] attr)
    ∙ put_header_horiz (some attr ∷ []) attrs (widen 0 (length attr) [])

-- The grid, described without the loops.
unfoldable pub layout : Orientation → List Text → List Row → List (List (Option Text))
layout horiz [] values = []
layout horiz (attr ∷ attrs) values = horizontal (attr ∷ attrs) values
layout vert attrs values = vertical 0 attrs values

-- For any names and values, a horizontal table has the names in its first line and the texts of each
-- row of values in a line of their own, in order; a vertical one has a line for each name, with its
-- texts in all rows behind it. Every cell is filled. Without names there are no lines.
pub build-layout :
    (o : Orientation) (attributes : List Text) (values : List Row)
    → (build o attributes values).cells ≡ layout o attributes values
unfolding build layout
build-layout horiz [] values =
    unfold put_header in ap (λ g. g.cells) (put_rows_no_names 1 values empty_grid)
build-layout horiz (attr ∷ attrs) values =
    unfold horizontal in
    put_rows_horiz (map some (attr ∷ attrs) ∷ []) values attr attrs
      (put_header horiz 0 (attr ∷ attrs) empty_grid) (put_header_horiz_new attr attrs)
build-layout vert attrs values =
    put_rows_vert [] values attrs (put_header vert 0 attrs empty_grid)
      (put_header_vert [] attrs empty_grid refl)
