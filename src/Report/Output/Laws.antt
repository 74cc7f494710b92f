-- ===== src/Report/Output/Laws.antt =====
-- The choice of main and that of _setup_output together.
use linuxtools.Base.{◌≡◌, false, if◌then◌else◌, arith}
use linuxtools.Report.Output.{
  Format, text, html, minimal, json, Args, Stamps, Target, stdout, file, is_dash, is_html_path,
  is_json_path, choose, setup_file, setup_output, configure,
}

-- `-m` goes before all else, then `-j`, then the path `-`, then the ending of the path.
abbrev pub expected : Stamps → Args → Format × Target
expected stamps args =
    if args.minimal
    then (minimal, file stamps.setup_txt)
    else if args.json
    then (json, file (if is_dash args.output_file then stamps.main_json else args.output_file))
    else if is_dash args.output_file
    then (text, stdout)
    else if is_json_path args.output_file
    then (json, file args.output_file)
    else if is_html_path args.output_file
    then (html, file args.output_file)
    else (text, file args.output_file)

-- The stamped names are names of files.
pub record IsStamped (stamps : Stamps) : Type 0 where
  pub main_json : is_dash stamps.main_json ≡ false
  pub main_txt : is_dash stamps.main_txt ≡ false

-- If neither of the stamped names that main makes is `-`, then for every command line: with `-m` the
-- report is minimal, in the file with the stamped .txt name of _setup_output, whatever the path and
-- whether or not `-j` is given; else with `-j` it is JSON, in the file with the stamped .json name of
-- main for the path `-`, and else at the path; else for the path `-` it is text on stdout; else it is at
-- the path, in JSON for the ending .json, in HTML for .html or .htm, and in text for any other path.
pub configure-expected :
    (stamps : Stamps) (args : Args)
    → IsStamped stamps
    → configure stamps args ≡ expected stamps args
unfolding configure choose setup_output setup_file
configure-expected stamps args s = ground arith
