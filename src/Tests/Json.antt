-- ===== src/Tests/Json.antt =====
-- The report of VMM_Hygine_Report.py in JSON, on a system that is not Linux.
use linuxtools.Base.{◌≡◌, refl, true, false, [], some, ok}
use linuxtools.Str.{codes, eqb, replace, lower}
use linuxtools.Regex.{all_of}
use linuxtools.Dict.{keys, lookup, insert}
use linuxtools.Report.Machine.{Machine}
use linuxtools.Report.Output.{json, Args, Stamps, choose, setup_file, setup_output, configure}
use linuxtools.Report.Printer.{State, write}
use linuxtools.Report.Pci.{get_pci_devices}
use linuxtools.Report.Drvinfo.{get_sfc_drvinfo}
use linuxtools.Report.Tabulate.{tabulate, table_data, tabulate_json, section_key}
use linuxtools.Report.Dump.{dump}
use linuxtools.Report.Dump.Read.{read_report}
use linuxtools.Report.Dump.RoundTrip.{data_scalar}
use linuxtools.Report.Sections.{
  print_system_summary, print_device_status, print_net_status, get_facts, system_section,
  summary_base, memory_entry, device_table, net_table, device_rows, interface_rows,
}
use linuxtools.Report.Generate.{
  generate_report, new_state, print_sections, can_open, reported, main,
}
use linuxtools.Report.Generate.Laws.{section_names}
use linuxtools.Report.Generate.Written.{main-read_report}
use linuxtools.Tests.Devices.{machine}

-- A system that is not Linux and has no devices.
abbrev bare : Machine
bare = record machine { sysname = codes "FreeBSD"; exists = λ path. false }

abbrev bare_end : State
bare_end =
    let st = new_state bare json in
    let summed = record st {
      json_data = insert (codes "system_summary") (summary_base bare) st.json_data;
    } in
    let done = print_net_status [] (print_device_status [] summed) in
    write (dump done.json_data) done

bare_reports : generate_report bare json ≡ ok bare_end
unfolding generate_report get_pci_devices get_sfc_drvinfo print_sections print_system_summary
    get_facts system_section memory_entry eqb new_state
bare_reports = refl

abbrev args : Args
args = record { minimal = false; json = true; version = false; output_file = codes "-" }

abbrev stamps : Stamps
stamps = record {
  main_json = codes "sfreport-box.json";
  main_txt = codes "sfreport-box.txt";
  setup_json = codes "sfreport-box.json";
  setup_txt = codes "sfreport-box.txt";
}

configured : (configure stamps args).0 ≡ json
unfolding configure choose setup_output setup_file eqb
configured = refl

opened : can_open bare (configure stamps args).1 ≡ true
unfolding configure choose setup_output setup_file eqb
opened = refl

bare_end-scalar : data_scalar bare_end.json_data ≡ true
unfolding all_of new_state print_net_status print_device_status tabulate tabulate_json insert eqb
    section_key lower replace device_table net_table lookup table_data device_rows interface_rows
bare_end-scalar = refl

main-read_report_example :
    ((main bare stamps args).result ≡ ok (reported (configure stamps args).1 bare_end.out))
    × (keys bare_end.json_data ≡ section_names)
    × (read_report bare_end.out ≡ some (bare_end.json_data, []))
main-read_report_example =
    main-read_report bare stamps args configured refl opened bare_reports bare_end-scalar
