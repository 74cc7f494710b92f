-- ===== src/Report/Output.antt =====
-- How VMM_Hygine_Report.py chooses its format and its output: first in `main`, then in
-- `_setup_output`.
pub mod Laws
use linuxtools.Base.{ℕ, Bool, true, false, ◌&&◌, ◌||◌, not, List, [], ◌∷◌, ◌++◌, if◌then◌else◌}
use linuxtools.Str.{Text, codes, eqb, ends_with}

-- The constants FORMAT_TEXT, FORMAT_HTML, FORMAT_MINIMAL and FORMAT_JSON.
pub data Format : Type 0 where
  text html minimal json : Format

abbrev pub is_text : Format → Bool
is_text text = true
is_text _ = false

abbrev pub is_minimal : Format → Bool
is_minimal minimal = true
is_minimal _ = false

abbrev pub is_json : Format → Bool
is_json json = true
is_json _ = false

abbrev pub is_html : Format → Bool
is_html html = true
is_html _ = false

-- The parsed command line.
pub record Args : Type 0 where
  pub minimal : Bool
  pub json : Bool
  pub version : Bool
  pub output_file : Text

-- The file names with the host and the time: those that `main` makes, and those of `_setup_output`,
-- which asks for the time again.
pub record Stamps : Type 0 where
  pub main_json : Text
  pub main_txt : Text
  pub setup_json : Text
  pub setup_txt : Text

abbrev pub dash : Text
dash = codes "-"

abbrev pub is_dash : Text → Bool
is_dash path = eqb path dash

abbrev pub is_html_path : Text → Bool
is_html_path path = ends_with path (codes ".html") || ends_with path (codes ".htm")

abbrev pub is_json_path : Text → Bool
is_json_path path = ends_with path (codes ".json")

-- The format and the path that `main` hands to the generator.
unfoldable pub choose : Stamps → Args → Format × Text
choose stamps args =
    if args.json
    then (json, if is_dash args.output_file then stamps.main_json else args.output_file)
    else if args.minimal
    then (minimal, if is_dash args.output_file then stamps.main_txt else args.output_file)
    else if is_dash args.output_file
    then (text, args.output_file)
    else if is_json_path args.output_file
    then (json, args.output_file)
    else if is_html_path args.output_file
    then (html, args.output_file)
    else (text, args.output_file)

-- `out_file`: standard output, or a file that is opened for writing.
pub data Target : Type 0 where
  stdout : Target
  file : Text → Target

-- The format and the path of the file, where the path is not `-`.
unfoldable pub setup_file : Stamps → Format → Text → Format × Text
setup_file stamps format path =
    if not (is_minimal format) && not (is_json format)
    then (if is_html_path path then html else if is_json_path path then json else text, path)
    else if is_minimal format
    then (format, stamps.setup_txt)
    else if is_json format && is_dash path
    then (format, stamps.setup_json)
    else (format, path)

abbrev as_file : Format × Text → Format × Target
as_file (format, path) = (format, file path)

-- `_setup_output`, before the file is opened.
unfoldable pub setup_output : Stamps → Bool → Format → Text → Format × Target
setup_output stamps is_min given path =
    let format = if is_min then minimal else given in
    if is_dash path
    then (if not is_min && not (is_json format) then text else format, stdout)
    else as_file (setup_file stamps format path)

-- `main` and then the constructor.
unfoldable pub configure : Stamps → Args → Format × Target
configure stamps args =
    let (format, path) = choose stamps args in setup_output stamps args.minimal format path
