-- ===== src/Report/Generate/Written.antt =====
-- What a run of VMM_Hygine_Report.py in JSON leaves at its target, for a program that reads it.
use linuxtools.Base.{◌≡◌, ap, ◌∙◌, true, false, List, [], ◌∷◌, some, ok, if◌then◌else◌}
use linuxtools.Str.{Text}
use linuxtools.Dict.{keys}
use linuxtools.Report.Machine.{Machine}
use linuxtools.Report.Output.{Format, json, Args, Stamps, Target, choose, configure}
use linuxtools.Report.Printer.{State}
use linuxtools.Report.Dump.Read.{read_report}
use linuxtools.Report.Dump.RoundTrip.{data_scalar, read_report-dump}
use linuxtools.Report.Generate.{
  banner, exited, generate_report, reported, can_open, ending, denied, notes, report, main,
}
use linuxtools.Report.Generate.Laws.{section_names, generate_report-section_names}

report-ok :
    (machine : Machine) (before : List Text) (format : Format) (target : Target) {st : State}
    → can_open machine target ≡ true
    → generate_report machine format ≡ ok st
    → (report machine before format target).result ≡ ok (reported target st.out)
unfolding report
report-ok machine before format target opens made =
    ap
      (λ b.
        (if b then ending before target (generate_report machine format) else denied before).result)
      opens
    ∙ ap (λ r. (ending before target r).result) made

-- If the target of a report in JSON can be opened and the report returns, the script ends with its text
-- at the target. The data has exactly the four sections, and a reader of JSON gets that data back from
-- the text, if every text in the data has Unicode scalar values alone.
pub main-read_report :
    (machine : Machine) (stamps : Stamps) (args : Args) {st : State}
    → (configure stamps args).0 ≡ json
    → args.version ≡ false
    → can_open machine (configure stamps args).1 ≡ true
    → generate_report machine json ≡ ok st
    → data_scalar st.json_data ≡ true
    → ((main machine stamps args).result ≡ ok (reported (configure stamps args).1 st.out))
      × (keys st.json_data ≡ section_names)
      × (read_report st.out ≡ some (st.json_data, []))
unfolding main
main-read_report machine stamps args {st} form asked opens made scalar =
    let before = notes machine (choose stamps args).1 in
    let target = (configure stamps args).1 in
    let (names, out) = generate_report-section_names machine made in
    (
      ap
            (λ b.
              (if b
                then record { stderr = banner ∷ []; result = ok (exited 0) }
                else report machine before (configure stamps args).0 target).result)
            asked
          ∙ ap (λ f. (report machine before f target).result) form
          ∙ report-ok machine before json target opens made,
      names,
      ap read_report out ∙ read_report-dump st.json_data scalar,
    )
