-- ===== src/Report/Generate.antt =====
-- `generate_report` and `main` of VMM_Hygine_Report.py.
pub mod Laws
pub mod Written
use linuxtools.Base.{
  ℕ, Bool, true, not, List, [], ◌∷◌, ◌++◌, if◌then◌else◌, Result, ok, raise, ◌>>=◌,
}
use linuxtools.Str.{Text, codes}
use linuxtools.Dict.{Dict}
use linuxtools.Report.Machine.{Machine, run_command}
use linuxtools.Report.Output.{
  Format, text, html, minimal, json, Args, Stamps, Target, stdout, file, choose, is_dash, configure,
}
use linuxtools.Report.Table.{str}
use linuxtools.Report.Printer.{plain, State, write}
use linuxtools.Report.Dump.{dump}
use linuxtools.Report.Pci.{PciFunction, get_pci_devices}
use linuxtools.Report.Drvinfo.{Drvinfo, get_sfc_drvinfo}
use linuxtools.Report.Sections.{
  version, print_system_summary, print_device_status, print_net_status, print_short_device_status,
}

abbrev pub user_of : Machine → Text
user_of machine = if machine.is_root then codes "ROOT USER" else codes "NON-ROOT USER"

-- The state after the constructor.
unfoldable pub new_state : Machine → Format → State
new_state machine format = record {
  format = format;
  json_data =
      (
        codes "report_info",
        (codes "version", plain (str version))
            ∷ (codes "date", plain (str machine.date))
            ∷ (codes "hostname", plain (str machine.hostname))
            ∷ (codes "user", plain (str (user_of machine)))
            ∷ [],
      )
      ∷ [];
  out = [];
}

abbrev concat : List Text → Text
concat [] = []
concat (s ∷ ss) = s ++ concat ss

unfoldable pub html_header : Machine → Text → Text
html_header machine uptime = concat (
    codes
      "<!DOCTYPE HTML PUBLIC \"-//W3C//DTD HTML 4.01//EN\" \"http://www.w3.org/TR/html4/strict.dtd\">\n"
    ∷ codes "<html>\n"
    ∷ codes "  <head>\n"
    ∷ codes "    <title>AMD Solarflare system report</title>\n"
    ∷ codes "    <meta name=\"generator\" value=\"sfreport.py\">\n"
    ∷ codes "    <style type=\"text/css\">\n"
    ∷ codes "      table { border-collapse: collapse; }\n"
    ∷ codes "      th, td { text-align: left; border: 1px solid black; }\n"
    ∷ codes "      table.vert th { text-align: right; }\n"
    ∷ codes "      .error { background-color: #ff5555 }\n"
    ∷ codes "      .warn { background-color: #ccaa55 }\n"
    ∷ codes "      .perf { background-color: #cc8080 }\n"
    ∷ codes "      .badpkt { background-color: #cc55aa }\n"
    ∷ codes "      td > pre { margin: 0; }\n"
    ∷ codes "    </style>\n"
    ∷ codes "    <script>\n"
    ∷ codes "    function toggle(id) {\n"
    ∷ codes "      var obj = document.getElementById(id+'_c');\n"
    ∷ codes "      var lnk = document.getElementById(id+'_l');\n"
    ∷ codes "      if ( obj ) {\n"
    ∷ codes "        if ( obj.style.display == 'block' ) {\n"
    ∷ codes "          obj.style.display = 'none';\n"
    ∷ codes "          lnk.innerHTML = ' ...Show';\n"
    ∷ codes "        } else {\n"
    ∷ codes "          obj.style.display = 'block';\n"
    ∷ codes "          lnk.innerHTML = ' Hide...';\n"
    ∷ codes "        }\n"
    ∷ codes "      }\n"
    ∷ codes "    }\n"
    ∷ codes "    </script>\n"
    ∷ codes "    </head>\n"
    ∷ codes "  <body>\n"
    ∷ codes "    <h1>AMD Solarflare system report (version "
    ∷ version
    ∷ codes ")</h1>\n"
    ∷ codes "    "
    ∷ machine.date
    ∷ codes " ("
    ∷ user_of machine
    ∷ codes ")\n"
    ∷ codes "    \n"
    ∷ codes "    <hr>\n"
    ∷ codes "    <h2> System Uptime </h2> "
    ∷ uptime
    ∷ codes "\n"
    ∷ [])

-- `_write_html_header`
unfoldable pub write_html_header : Machine → State → Result State
write_html_header machine st = do
  uptime ← run_command machine (codes "uptime 2>&1")
  ok (write (html_header machine uptime) st)

unfoldable pub write_html_footer : State → State
write_html_footer st = write (codes "  </body>\n</html>\n") st

-- The three sections that all but the minimal format have.
unfoldable pub print_sections : Machine → Dict PciFunction → Dict Drvinfo → State → Result State
print_sections machine devices infos st = do
  summed ← print_system_summary machine st
  ok (print_net_status infos (print_device_status devices summed))

abbrev pub body : Machine → Dict PciFunction → Dict Drvinfo → Format → State → Result State
body machine devices infos json st = do
  done ← print_sections machine devices infos st
  ok (write (dump done.json_data) done)
body machine devices infos html st = do
  headed ← write_html_header machine st
  done ← print_sections machine devices infos headed
  ok (write_html_footer done)
body machine devices infos minimal st = ok (print_short_device_status machine infos st)
body machine devices infos text st =
    print_sections machine devices infos
      (write (codes "AMD Solarflare system report (version " ++ (version ++ codes ")\n\n")) st)

-- The state at the end, with all that was written.
unfoldable pub generate_report : Machine → Format → Result State
generate_report machine format = do
  devices ← get_pci_devices machine
  infos ← get_sfc_drvinfo machine
  body machine devices infos format (new_state machine format)

-- How the script ends: with a status before any report, or with the report at its target and the
-- status 0.
pub data Ended : Type 0 where
  exited : ℕ → Ended
  reported : Target → Text → Ended

-- What a run prints on stderr, and its end, or the exception that ends it. The text of the error of
-- `open` is left out.
pub record Run : Type 0 where
  pub stderr : List Text
  pub result : Result Ended

abbrev pub can_open : Machine → Target → Bool
can_open machine stdout = true
can_open machine (file path) = machine.writable path

abbrev pub banner : Text
banner = codes "AMD Solarflare system report (version " ++ (version ++ codes ")")

-- The warning of `main` to a user who is not root, and the banner where `main` has a path.
unfoldable pub notes : Machine → Text → List Text
notes machine path =
    (if machine.is_root
      then []
      else codes "WARNING: This script will not provide a full report"
        ∷ codes "unless you run it as root."
        ∷ [])
    ++ (if is_dash path then [] else banner ∷ [])

-- The last line of `generate_report`, for a file.
abbrev pub finished : Target → List Text
finished stdout = []
finished (file path) = (codes "Finished writing report to " ++ path) ∷ []

abbrev pub no_permission : Text
no_permission = codes "No write permissions on output directory."

-- The message at the end of the report.
abbrev pub ending : List Text → Target → Result State → Run
ending before target (raise e) = record { stderr = before; result = raise e }
ending before target (ok done) = record {
  stderr = before ++ finished target;
  result = ok (reported target done.out);
}

abbrev pub denied : List Text → Run
denied before = record { stderr = before ++ (no_permission ∷ []); result = ok (exited 1) }

-- The constructor opens the file, or the script ends with the status 1; then the report.
unfoldable pub report : Machine → List Text → Format → Target → Run
report machine before format target =
    if can_open machine target
    then ending before target (generate_report machine format)
    else denied before

unfoldable pub main : Machine → Stamps → Args → Run
main machine stamps args =
    let before = notes machine (choose stamps args).1 in
    let (format, target) = configure stamps args in
    if args.version
    then record { stderr = banner ∷ []; result = ok (exited 0) }
    else report machine before format target
