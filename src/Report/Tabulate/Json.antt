-- ===== src/Report/Tabulate/Json.antt =====
-- The JSON form of `tabulate`.
use linuxtools.Base.{
  ℕ, suc, ◌≡◌, ◌≢◌, refl, ◌∙◌, ap, sym, true, List, [], ◌∷◌, ◌++◌, some, arith, if◌then◌else◌,
  append_assoc, append-nil,
}
use linuxtools.Str.{Text, codes, eqb}
use linuxtools.Str.Laws.{eqb_iff}
use linuxtools.Dict.{Dict, keys, lookup, insert, lookup-insert, lookup-insert_self}
use linuxtools.Report.Output.{is_json}
use linuxtools.Report.Table.{Cell, null, Row, attr_value}
use linuxtools.Report.Printer.{table, Section, State}
use linuxtools.Report.Tabulate.{
  Table, row_data, table_data, section_key, section_of, titled, tabulate_json, tabulate,
}

-- The name does not stand in the list.
abbrev pub Absent : Text → List Text → Type 0
Absent k [] = Unit
Absent k (a ∷ as') = (k ≢ a) × Absent k as'

-- No name stands twice.
abbrev pub Distinct : List Text → Type 0
Distinct [] = Unit
Distinct (a ∷ as') = Absent a as' × Distinct as'

-- The value that a row has for the names, from column `j`.
unfoldable pub cell_dict : Row → ℕ → List Text → Dict Cell
cell_dict row j [] = []
cell_dict row j (attr ∷ attrs) = (attr, attr_value null row j attr) ∷ cell_dict row (suc j) attrs

insert_new :
    (k : Text) (v : Cell) (d : Dict Cell) → Absent k (keys d) → insert k v d ≡ d ++ ((k, v) ∷ [])
unfolding insert
insert_new k v [] h = refl
insert_new k v ((j, w) ∷ d) (h, hs) = ground (arith, eqb_iff j k, insert_new k v d hs)

Absent-append : (k a : Text) (as' : List Text) → Absent k as' → k ≢ a → Absent k (as' ++ (a ∷ []))
Absent-append k a [] h ne = (ne, tt)
Absent-append k a (b ∷ bs) (h, hs) ne = (h, Absent-append k a bs hs ne)

keys-append : (d : Dict Cell) (k : Text) (v : Cell) → keys (d ++ ((k, v) ∷ [])) ≡ keys d ++ (k ∷ [])
keys-append [] k v = refl
keys-append ((j, w) ∷ d) k v = ap (◌∷◌ j) (keys-append d k v)

-- None of the names is a key.
abbrev New : Dict Cell → List Text → Type 0
New d [] = Unit
New d (a ∷ as') = Absent a (keys d) × New d as'

New-append :
    (d : Dict Cell) (a : Text) (v : Cell) (as' : List Text)
    → Absent a as'
    → New d as'
    → New (d ++ ((a, v) ∷ [])) as'
New-append d a v [] h n = tt
New-append d a v (b ∷ bs) (h, hs) (n, ns) = (
  rw (keys-append d a v) (Absent-append b a (keys d) n (λ e. h (sym e))),
  New-append d a v bs hs ns,
)

row_data_onto :
    (row : Row) (j : ℕ) (attrs : List Text) (d : Dict Cell)
    → Distinct attrs
    → New d attrs
    → row_data row j attrs d ≡ d ++ cell_dict row j attrs
unfolding row_data cell_dict
row_data_onto row j [] d h n = sym (append-nil d)
row_data_onto row j (attr ∷ attrs) d (h, hs) (n, ns) =
    ap (row_data row (suc j) attrs) (insert_new attr (attr_value null row j attr) d n)
    ∙ row_data_onto row (suc j) attrs _ hs (New-append d attr _ attrs h ns)
    ∙ append_assoc d ((attr, attr_value null row j attr) ∷ []) (cell_dict row (suc j) attrs)

New-nil : (attrs : List Text) → New [] attrs
New-nil [] = tt
New-nil (a ∷ as') = (tt, New-nil as')

unfoldable pub table_dicts : List Text → List Row → List (Dict Cell)
table_dicts attributes [] = []
table_dicts attributes (row ∷ values) = cell_dict row 0 attributes ∷ table_dicts attributes values

table_data-table_dicts :
    (attributes : List Text) (values : List Row)
    → Distinct attributes
    → table_data attributes values ≡ table_dicts attributes values
unfolding table_data table_dicts
table_data-table_dicts attributes [] h = refl
table_data-table_dicts attributes (row ∷ values) h =
    let one = row_data_onto row 0 attributes [] h (New-nil attributes) in
    let rest = table_data-table_dicts attributes values h in cc

-- In JSON, where the names are distinct, the section of a table holds under "data" one dict for each
-- row of values, in order, with exactly the names for keys, in order, and the value of the row for
-- each name, or null; every other section is as it was, and nothing is written.
pub tabulate-data :
    (t : Table) (st : State) (other : Text)
    → is_json st.format ≡ true
    → Distinct t.attributes
    → (s : Section) × (lookup (section_key t) (tabulate t st).json_data ≡ some s)
      × (lookup (codes "data") s ≡ some (table (table_dicts t.attributes t.values)))
      × (lookup other (tabulate t st).json_data
          ≡ (if eqb (section_key t) other then some s else lookup other st.json_data))
      × ((tabulate t st).out ≡ st.out)
unfolding tabulate tabulate_json
tabulate-data t st other j h =
    let before = titled t.title (section_of (lookup (section_key t) st.json_data)) in
    let s : Section = insert (codes "data") (table (table_data t.attributes t.values)) before in
    (
      s,
      rw (j, tabulate) (lookup-insert_self (section_key t) s st.json_data),
      lookup-insert_self (codes "data") (table (table_data t.attributes t.values)) before
          ∙ ap (λ ds. some (table ds)) (table_data-table_dicts t.attributes t.values h),
      rw (j, tabulate) (lookup-insert (section_key t) other s st.json_data),
      rw (j, tabulate),
    )
