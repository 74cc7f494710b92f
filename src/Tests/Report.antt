-- ===== src/Tests/Report.antt =====
-- Runs of the parts of VMM_Hygine_Report.py.
use linuxtools.Base.{
  ℕ, ◌+◌, ◌≡◌, refl, true, false, List, [], ◌∷◌, ◌++◌, some, arith, if◌then◌else◌, ok, All, length,
  replicate,
}
use linuxtools.Str.{Text, codes, eqb, replace}
use linuxtools.Str.Lines.{lacks}
use linuxtools.Dict.{lookup}
use linuxtools.Utf8.{decode_ignore, decode_from, step, lead, encode_latin1}
use linuxtools.Report.Pci.{
  PciFunction, new_function, get_vendor_id, get_device_id, get_revision, get_device_class,
  get_subsystem_vendor_id, get_subsystem_id, is_sfc,
}
use linuxtools.Report.Pci.Laws.{word, load, load-ascii, load-xilinx}
use linuxtools.Report.Html.{html_encode}
use linuxtools.Report.Html.Laws.{html_encode-lacks, html_encode-injective}
use linuxtools.Report.Output.{Stamps, file, minimal, json, text, configure}
use linuxtools.Report.Output.Laws.{configure-expected, IsStamped}
use linuxtools.Report.Table.{
  null, str, Row, items, fields, scalar, horiz, vert, build, put_header, put_rows, put_row, place,
  put, put_cell, widen, cell_text, cell_str, attr_value,
}
use linuxtools.Report.Table.Place.{layout, build-layout}
use linuxtools.Report.Table.Fits.{Fits, build-Fits}
use linuxtools.Report.Tabulate.{
  Table, tabulate, tabulate_text, text_lines, text_cells, text_cell, padded, sum, table_width,
  section_key,
}
use linuxtools.Report.Tabulate.Align.{rendered, rendered_aligned}
use linuxtools.Report.Tabulate.Json.{table_dicts, Distinct, tabulate-data}
use linuxtools.Report.Printer.{State, Section, table, print_heading}

abbrev names : List Text
names = codes "id" ∷ codes "state" ∷ []

abbrev rows : List Row
rows =
    items (str (codes "1234") ∷ str (codes "up") ∷ [])
    ∷ fields ((codes "id", null) ∷ [])
    ∷ scalar
    ∷ []

build-layout_example : (build horiz names rows).cells ≡ layout horiz names rows
build-layout_example = build-layout horiz names rows

build-Fits_example : Fits (build vert names rows)
build-Fits_example = build-Fits vert names rows

rendered_aligned_example :
    All
      (λ line.
        length (rendered (build horiz names rows).widths line)
        ≡ table_width (build horiz names rows).widths + 2)
      (build horiz names rows).cells
rendered_aligned_example = rendered_aligned (codes "id") (codes "state" ∷ []) rows

abbrev page : Table
page = record {
  title = codes "Links";
  attributes = names;
  values = rows;
  orientation = horiz;
  pre = false;
  table_id = [];
}

abbrev blank : State
blank = record { format = text; json_data = []; out = [] }

text_table :
    (tabulate page blank).out
    ≡ codes
        "Links\n\nid     state  \n============\n1234   up     \n<N/A>  <N/A>  \n<N/A>  <N/A>  \n\n"
unfolding tabulate tabulate_text text_lines text_cells text_cell padded sum table_width build
    put_header put_rows put_row place put put_cell widen cell_text cell_str attr_value lookup eqb
    print_heading
text_table = refl

names-Distinct : Distinct names
names-Distinct = ((λ e. cc, tt), (tt, tt))

tabulate-data_example :
    (s : Section) × (lookup
        (section_key page)
        (tabulate page (record { format = json; json_data = []; out = [] })).json_data
      ≡ some s)
    × (lookup (codes "data") s ≡ some (table (table_dicts names rows)))
    × (lookup
          (codes "report_info")
          (tabulate page (record { format = json; json_data = []; out = [] })).json_data
        ≡ (if eqb (section_key page) (codes "report_info")
            then some s
            else lookup (codes "report_info") []))
    × ((tabulate page (record { format = json; json_data = []; out = [] })).out ≡ [])
tabulate-data_example =
    tabulate-data page (record { format = json; json_data = []; out = [] }) (codes "report_info")
      refl names-Distinct

html_encode-lacks_example :
    (lacks b'<' (html_encode (codes "<a>")) ≡ true)
    × (lacks b'>' (html_encode (codes "<a>")) ≡ true)
    × (lacks b'"' (html_encode (codes "<a>")) ≡ true)
    × (lacks b'\'' (html_encode (codes "<a>")) ≡ true)
html_encode-lacks_example = html_encode-lacks (codes "<a>")

encoded : html_encode (codes "a<b & 'c'") ≡ codes "a&lt;b &amp; &#39;c&#39;"
unfolding html_encode replace
encoded = refl

html_encode-injective_example : ◌≡◌ {A = Text} (codes "<a>") (codes "<a>")
html_encode-injective_example = html_encode-injective (codes "<a>") (codes "<a>") refl

abbrev stamps : Stamps
stamps = record {
  main_json = codes "1.json";
  main_txt = codes "1.txt";
  setup_json = codes "2.json";
  setup_txt = codes "2.txt";
}

stamps-IsStamped : IsStamped stamps
unfolding eqb
stamps-IsStamped = record { main_json = refl; main_txt = refl }

-- The path that the user gave is not used.
configure-expected_example :
    configure stamps
      (record { minimal = true; json = false; version = false; output_file = codes "out.csv" })
    ≡ (minimal, file (codes "2.txt"))
configure-expected_example =
    configure-expected stamps
      (record { minimal = true; json = false; version = false; output_file = codes "out.csv" })
      stamps-IsStamped

-- 1924:0803, revision 1, class 0200, subsystem 1924:7005.
abbrev pub config : List ℕ
config =
    0x24
    ∷ 0x19
    ∷ 0x03
    ∷ 0x08
    ∷ 0
    ∷ 0
    ∷ 0
    ∷ 0
    ∷ 1
    ∷ 0
    ∷ 0
    ∷ 2
    ∷ (replicate 32 0 ++ (0x24 ∷ 0x19 ∷ 0x05 ∷ 0x70 ∷ []))

load-ascii_example :
    (f : PciFunction) × (load (codes "0000:01:00.0") config ≡ ok f)
    × (get_vendor_id f ≡ word config 0x00)
    × (get_device_id f ≡ word config 0x02)
    × (get_revision f ≡ 1)
    × (get_device_class f ≡ word config 0x0a)
    × (get_subsystem_vendor_id f ≡ word config 0x2c)
    × (get_subsystem_id f ≡ word config 0x2e)
load-ascii_example = load-ascii (codes "0000:01:00.0") config (omega arith) (omega arith)

abbrev shifted : PciFunction
shifted = record { address = codes "0000:02:00.0"; config_data = 0x10 ∷ 3 ∷ 0 ∷ [] }

xilinx_loaded : load (codes "0000:02:00.0") (0xee ∷ 0x10 ∷ 3 ∷ 0xc0 ∷ 0 ∷ []) ≡ ok shifted
unfolding new_function decode_ignore decode_from step lead encode_latin1
xilinx_loaded = refl

load-xilinx_example : is_sfc shifted ≡ false
load-xilinx_example = load-xilinx (codes "0000:02:00.0") (3 ∷ 0xc0 ∷ 0 ∷ []) xilinx_loaded
