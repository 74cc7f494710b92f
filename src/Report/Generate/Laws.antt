-- ===== src/Report/Generate/Laws.antt =====
-- What the report of VMM_Hygine_Report.py holds in JSON, and when the script reports.
use linuxtools.Base.{◌≡◌, refl, sym, ap, ◌∙◌, List, [], ◌∷◌, ◌++◌, Result, ok, raise, ◌>>=◌}
use linuxtools.Str.{Text, codes, eqb, replace, lower}
use linuxtools.Dict.{Dict, keys, insert, lookup}
use linuxtools.Report.Machine.{Machine}
use linuxtools.Report.Output.{json}
use linuxtools.Report.Printer.{State, Section}
use linuxtools.Report.Dump.{dump}
use linuxtools.Report.Pci.{PciFunction, get_pci_devices}
use linuxtools.Report.Drvinfo.{Drvinfo, get_sfc_drvinfo}
use linuxtools.Report.Tabulate.{tabulate, tabulate_json, section_key}
use linuxtools.Report.Sections.{
  get_facts, system_section, print_system_summary, device_table, print_device_status, net_table,
  print_net_status,
}
use linuxtools.Report.Generate.{body, new_state, print_sections, generate_report}

module _ {ℓ κ} {A : Type ℓ} {B : Type κ} where
  -- What a first step gave, where the block returned.
  bound :
      {b : B} (r : Result A) (f : A → Result B)
      → (r >>= f) ≡ ok b
      → (a : A) × ((r ≡ ok a) × (f a ≡ ok b))
  bound (raise e) f h = cc
  bound (ok a) f h = (a, (refl, h))

returned : {a b : State} → ok a ≡ ok b → a ≡ b
returned e = cc

abbrev pub section_names : List Text
section_names =
    codes "report_info"
    ∷ codes "system_summary"
    ∷ codes "amd_solarflare_pci_devices"
    ∷ codes "network_interfaces_for_amd_solarflare_adapters"
    ∷ []

-- The state behind the summary.
summarised :
    (machine : Machine) {st : State}
    → print_system_summary machine (new_state machine json) ≡ ok st
    → (s : Section) × (st ≡ record (new_state machine json) {
      json_data = insert (codes "system_summary") s (new_state machine json).json_data;
    })
unfolding print_system_summary new_state
summarised machine h =
    let (facts, (_, h')) = bound (get_facts machine) _ h in
    let (section, (_, h'')) = bound (system_section machine facts) _ h' in
    (section, sym (returned h''))

-- The names of the sections, whatever they hold; nothing is written.
names_of :
    (machine : Machine) (s : Section) (devices : Dict PciFunction) (infos : Dict Drvinfo)
    → let st = record (new_state machine json) {
      json_data = insert (codes "system_summary") s (new_state machine json).json_data;
    } in
      (keys (print_net_status infos (print_device_status devices st)).json_data ≡ section_names)
      × ((print_net_status infos (print_device_status devices st)).out ≡ [])
unfolding print_net_status print_device_status new_state tabulate tabulate_json insert eqb
    section_key lower replace device_table net_table lookup
names_of machine s devices infos = (refl, refl)

sections_json :
    (machine : Machine) (devices : Dict PciFunction) (infos : Dict Drvinfo) {done : State}
    → print_sections machine devices infos (new_state machine json) ≡ ok done
    → (keys done.json_data ≡ section_names) × (done.out ≡ [])
unfolding print_sections
sections_json machine devices infos h =
    let (summed, (summary, h')) =
      bound (print_system_summary machine (new_state machine json)) _ h in
    let (s, e) = summarised machine summary in
    let last =
      ap (λ st. print_net_status infos (print_device_status devices st)) (sym e) ∙ returned h' in
    (
      ap (λ st. keys st.json_data) (sym last) ∙ (names_of machine s devices infos).0,
      ap (λ st. st.out) (sym last) ∙ (names_of machine s devices infos).1,
    )

-- What the block after the sections makes of their state.
dumped :
    (machine : Machine) (devices : Dict PciFunction) (infos : Dict Drvinfo) {st : State}
    → body machine devices infos json (new_state machine json) ≡ ok st
    → (keys st.json_data ≡ section_names) × (st.out ≡ dump st.json_data)
dumped machine devices infos h =
    let (done, (sections, h')) =
      bound (print_sections machine devices infos (new_state machine json)) _ h in
    let (names, out) = sections_json machine devices infos sections in
    let last = returned h' in
    (
      ap (λ st. keys st.json_data) (sym last) ∙ names,
      ap (λ st. st.out) (sym last)
          ∙ ap (λ t. t ++ dump done.json_data) out
          ∙ ap (λ st. dump st.json_data) last,
    )

-- Where the report in JSON returns, its data has exactly these four sections, in this order, and what
-- is written is the print of that data and nothing else.
pub generate_report-section_names :
    (machine : Machine) {st : State}
    → generate_report machine json ≡ ok st
    → (keys st.json_data ≡ section_names) × (st.out ≡ dump st.json_data)
unfolding generate_report
generate_report-section_names machine h =
    let (devices, (_, h')) = bound (get_pci_devices machine) _ h in
    let (infos, (_, h'')) = bound (get_sfc_drvinfo machine) _ h' in dumped machine devices infos h''
