-- ===== src/Report/Dump.antt =====
-- `json.dump(self.json_data, self.out_file, indent=2)` of VMM_Hygine_Report.py, on the values that
-- the report holds.
pub mod Strings
pub mod Read
pub mod Hex
pub mod Units
pub mod Lists
pub mod Cells
pub mod RoundTrip
use linuxtools.Base.{
  ℕ, ◌+◌, ◌-◌, ◌/◌, ◌%◌, ◌&&◌, List, [], ◌∷◌, ◌++◌, if◌then◌else◌, leb, ltb, ◌==◌, replicate, map,
}
use linuxtools.Str.{Text, codes, join}
use linuxtools.Str.Number.{decimal, hex}
use linuxtools.Dict.{Dict}
use linuxtools.Report.Table.{Cell, null, str, num}
use linuxtools.Report.Printer.{Entry, plain, object, table, Section}

-- A character of a string, with every one that is not printable ASCII escaped.
unfoldable pub escape : ℕ → Text
escape c =
    if c == b'"'
    then codes "\\\""
    else if c == b'\\'
    then codes "\\\\"
    else if c == 10
    then codes "\\n"
    else if c == 13
    then codes "\\r"
    else if c == 9
    then codes "\\t"
    else if c == 8
    then codes "\\b"
    else if c == 12
    then codes "\\f"
    else if leb 32 c && leb c 126
    then c ∷ []
    else if ltb c 0x10000
    then codes "\\u" ++ hex 4 c
    else codes "\\u"
      ++ (hex 4 (0xd800 + (c - 0x10000) / 1024)
          ++ (codes "\\u" ++ hex 4 (0xdc00 + (c - 0x10000) % 1024)))

unfoldable pub escape_all : Text → Text
escape_all [] = []
escape_all (c ∷ cs) = escape c ++ escape_all cs

unfoldable pub quoted : Text → Text
quoted s = codes "\"" ++ (escape_all s ++ codes "\"")

unfoldable pub dump_cell : Cell → Text
dump_cell null = codes "null"
dump_cell (str s) = quoted s
dump_cell (num n) = decimal n

abbrev pub indent : ℕ → Text
indent n = replicate n b' '

-- A list or dict whose items are printed, at the indentation `n`: its brackets stand alone if it has
-- no item.
unfoldable pub bracket : Text → Text → ℕ → List Text → Text
bracket left right n [] = left ++ right
bracket left right n (i ∷ is) =
    left
    ++ (codes "\n"
        ++ (indent (n + 2)
            ++ (join (codes ",\n" ++ indent (n + 2)) (i ∷ is)
                ++ (codes "\n" ++ (indent n ++ right)))))

abbrev pub pair : Text → Text → Text
pair key value = quoted key ++ (codes ": " ++ value)

unfoldable pub cell_items : Dict Cell → List Text
cell_items [] = []
cell_items ((k, c) ∷ d) = pair k (dump_cell c) ∷ cell_items d

unfoldable pub dump_dict : ℕ → Dict Cell → Text
dump_dict n d = bracket (codes "{") (codes "}") n (cell_items d)

unfoldable pub dump_entry : ℕ → Entry → Text
dump_entry n (plain c) = dump_cell c
dump_entry n (object d) = dump_dict n d
dump_entry n (table ds) = bracket (codes "[") (codes "]") n (map (dump_dict (n + 2)) ds)

unfoldable pub entry_items : ℕ → Section → List Text
entry_items n [] = []
entry_items n ((k, e) ∷ s) = pair k (dump_entry n e) ∷ entry_items n s

unfoldable pub dump_section : ℕ → Section → Text
dump_section n s = bracket (codes "{") (codes "}") n (entry_items (n + 2) s)

unfoldable pub section_items : Dict Section → List Text
section_items [] = []
section_items ((k, s) ∷ d) = pair k (dump_section 2 s) ∷ section_items d

unfoldable pub dump : Dict Section → Text
dump d = bracket (codes "{") (codes "}") 0 (section_items d)
