-- ===== src/Report/Tabulate.antt =====
-- `tabulate` of VMM_Hygine_Report.py: the table in JSON, HTML and text.
pub mod Json
pub mod Align
use linuxtools.Base.{
  ℕ, zero, suc, ◌+◌, ◌-◌, ◌*◌, Bool, true, false, ◌&&◌, ◌||◌, not, List, [], ◌∷◌, ◌++◌, Option,
  none, some, if◌then◌else◌, ◌==◌, length, get_or, replicate,
}
use linuxtools.Str.{Text, codes, lower, replace}
use linuxtools.Str.Number.{decimal}
use linuxtools.Dict.{Dict, lookup, insert}
use linuxtools.Report.Html.{html_encode}
use linuxtools.Report.Output.{is_json, is_html}
use linuxtools.Report.Table.{
  Cell, null, str, Row, Orientation, horiz, vert, Grid, attr_value, build,
}
use linuxtools.Report.Printer.{
  Entry, plain, table, Section, State, write, is_nonempty, print_heading, print_footer,
  print_preformatted,
}

-- `values_fmt == VALUES_FORMAT_PRE` is the flag `pre`.
pub record Table : Type 0 where
  pub title : Text
  pub attributes : List Text
  pub values : List Row
  pub orientation : Orientation
  pub pre : Bool
  pub table_id : Text

abbrev pub is_horiz : Orientation → Bool
is_horiz horiz = true
is_horiz vert = false

abbrev pub is_empty {ℓ} : {A : Type ℓ} → List A → Bool
is_empty [] = true
is_empty (x ∷ xs) = false

-- One dict of the JSON table, from column `j`.
unfoldable pub row_data : Row → ℕ → List Text → Dict Cell → Dict Cell
row_data row j [] d = d
row_data row j (attr ∷ attrs) d =
    row_data row (suc j) attrs (insert attr (attr_value null row j attr) d)

unfoldable pub table_data : List Text → List Row → List (Dict Cell)
table_data attributes [] = []
table_data attributes (row ∷ values) = row_data row 0 attributes [] ∷ table_data attributes values

-- `table_id or title.lower().replace(' ', '_')`
unfoldable pub section_key : Table → Text
section_key t =
    if is_nonempty t.table_id then t.table_id else replace b' ' (codes "_") (lower t.title)

abbrev section_of : Option Section → Section
section_of none = []
section_of (some s) = s

abbrev titled : Text → Section → Section
titled [] s = s
titled (c ∷ cs) s = insert (codes "title") (plain (str (c ∷ cs))) s

-- The branch for JSON.
unfoldable pub tabulate_json : Table → State → State
tabulate_json t st =
    let section = titled t.title (section_of (lookup (section_key t) st.json_data)) in
    record st {
      json_data =
          insert (section_key t)
            (insert (codes "data") (table (table_data t.attributes t.values)) section) st.json_data;
    }

-- One cell in HTML, at column `x` of line `y`.
unfoldable pub html_cell : Table → ℕ → ℕ → Option Text → State → State
html_cell t y x none st = st
html_cell t y x (some text) st =
    let head_cell = if is_horiz t.orientation then y == 0 else x == 0 in
    let name = if head_cell then codes "th" else codes "td" in
    let opened = write (codes "        <" ++ (name ++ codes ">")) st in
    let body =
      if not head_cell && t.pre
      then print_preformatted text false opened
      else write (html_encode text) opened in
    write (codes "</" ++ (name ++ codes ">\n")) body

unfoldable pub html_cells : Table → ℕ → ℕ → List (Option Text) → State → State
html_cells t y x [] st = st
html_cells t y x (c ∷ line) st = html_cells t y (suc x) line (html_cell t y x c st)

unfoldable pub html_lines : Table → ℕ → List (List (Option Text)) → State → State
html_lines t y [] st = st
html_lines t y (line ∷ lines) st =
    let filled = html_cells t y 0 line (write (codes "      <tr>\n") st) in
    let noted =
      if not (is_horiz t.orientation) && is_empty t.values && y == 0
      then write
          (codes "        <td rowspan=\""
            ++ (decimal (length t.attributes) ++ codes "\"><em>none found</em></td>\n"))
          filled
      else filled in
    html_lines t (suc y) lines (write (codes "      </tr>\n") noted)

-- The line for a table without values.
unfoldable pub html_none : Table → State → State
html_none t st =
    if is_horiz t.orientation && is_empty t.values && not (is_empty t.attributes)
    then write
        (codes "      <tr>\n       <td colspan=\""
          ++ (decimal (length t.attributes) ++ codes "\"><em>none found</em></td>\n     </tr>\n"))
        st
    else if is_empty t.values && is_empty t.attributes
    then write (codes "      <tr><td><em>none found</em></td></tr>\n") st
    else st

unfoldable pub tabulate_html : Table → Grid → State → State
tabulate_html t g st =
    let class_name = if is_horiz t.orientation then codes "horiz" else codes "vert" in
    let opened = write (codes "    <table class=\"" ++ (class_name ++ codes "\">\n")) st in
    write (codes "    </table>\n") (html_none t (html_lines t 0 g.cells opened))

abbrev pub spaces : ℕ → Text
spaces n = replicate n b' '

-- `line[:-1]`
unfoldable pub init : Text → Text
init [] = []
init (c ∷ []) = []
init (c ∷ d ∷ cs) = c ∷ init (d ∷ cs)

-- GUTTER_WIDTH is 2. The padding is never negative, but a negative count gives no spaces anyway.
unfoldable pub padded : ℕ → Text → Text
padded width text = text ++ spaces (width + 2 - length text)

unfoldable pub text_cell : Orientation → ℕ → ℕ → Text → Text → Text
text_cell horiz x width text line = line ++ padded width text
text_cell vert zero width text line = init (line ++ padded width text) ++ codes "| "
text_cell vert (suc x) width text line = line ++ padded width text

-- A line of text, from column `x`, behind `line`.
unfoldable pub text_cells : Orientation → ℕ → List ℕ → List (Option Text) → Text → Text
text_cells o x widths [] line = line
text_cells o x widths (none ∷ cells) line = text_cells o (suc x) widths cells line
text_cells o x widths (some text ∷ cells) line =
    text_cells o (suc x) widths cells (text_cell o x (get_or widths x 0) text line)

unfoldable pub sum : List ℕ → ℕ
sum [] = 0
sum (n ∷ ns) = n + sum ns

-- `sum(col_widths) + GUTTER_WIDTH * (len(col_widths) - 1)`; a table with names has a column.
unfoldable pub table_width : List ℕ → ℕ
table_width widths = sum widths + 2 * (length widths - 1)

unfoldable pub text_lines : Table → List ℕ → ℕ → List (List (Option Text)) → State → State
text_lines t widths y [] st = st
text_lines t widths y (cells ∷ lines) st =
    let line = text_cells t.orientation 0 widths cells [] in
    let noted =
      if not (is_horiz t.orientation) && is_empty t.values && y == 0
      then line ++ (spaces 2 ++ codes "none found")
      else line in
    let written = write (noted ++ codes "\n") st in
    let ruled =
      if is_horiz t.orientation && y == 0 && not (is_empty t.attributes)
      then write (replicate (table_width widths) b'=' ++ codes "\n") written
      else written in
    text_lines t widths (suc y) lines ruled

unfoldable pub tabulate_text : Table → Grid → State → State
tabulate_text t g st =
    let listed = text_lines t g.widths 0 g.cells st in
    let noted =
      if (is_horiz t.orientation || is_empty t.attributes) && is_empty t.values
      then write (codes "none found\n") listed
      else listed in
    write (codes "\n") noted

unfoldable pub tabulate : Table → State → State
tabulate t st =
    if is_json st.format
    then tabulate_json t st
    else (let g = build t.orientation t.attributes t.values in
        let headed = print_heading t.title t.table_id false st in
        let body =
          if is_html st.format then tabulate_html t g headed else tabulate_text t g headed in
        if is_nonempty t.table_id then print_footer t.table_id body else body)
