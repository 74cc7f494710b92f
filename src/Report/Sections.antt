-- ===== src/Report/Sections.antt =====
-- The sections of the report and `generate_report` of VMM_Hygine_Report.py.
pub mod Csv
use linuxtools.Base.{
  ℕ, ◌/◌, Bool, false, not, List, [], ◌∷◌, ◌++◌, Option, none, some, if◌then◌else◌, Result, ok,
  raise, ◌>>=◌, key_error,
}
use linuxtools.Str.{Text, codes, eqb, strip, join}
use linuxtools.Str.Number.{decimal, hex}
use linuxtools.Dict.{Dict, lookup, insert}
use linuxtools.Report.Machine.{Machine, read_file, truthy}
use linuxtools.Report.Output.{is_json}
use linuxtools.Report.Table.{Cell, str, num, Row, fields, items, horiz, vert}
use linuxtools.Report.Printer.{plain, object, Section, State, write, print_heading}
use linuxtools.Report.Tabulate.{Table, tabulate}
use linuxtools.Report.System.{get_memory_info, get_distribution_info}
use linuxtools.Report.Pci.{
  PciFunction, is_sfc, get_vendor_id, get_device_id, get_revision, get_subsystem_vendor_id,
  get_subsystem_id,
}
use linuxtools.Report.Drvinfo.{Drvinfo, unknown, get_mac_address}

abbrev pub version : Text
version = codes "4.16.1"

abbrev pub is_linux : Machine → Bool
is_linux machine = eqb machine.sysname (codes "Linux")

-- What both forms of the summary ask for, where the system is Linux.
pub record Facts : Type 0 where
  pub cmdline : Option Text
  pub distribution : Option Text
  pub meminfo : Option (Dict ℕ)

abbrev stripped : Option Text → Option Text
stripped none = none
stripped (some s) = some (strip s)

-- `if meminfo:` holds for a dict that is not empty.
abbrev some_entries : Option (Dict ℕ) → Option (Dict ℕ)
some_entries none = none
some_entries (some []) = none
some_entries (some (e ∷ es)) = some (e ∷ es)

unfoldable pub get_facts : Machine → Result Facts
get_facts machine =
    if is_linux machine
    then (do
      distribution ← get_distribution_info machine
      ok (record {
        cmdline = stripped (truthy (read_file machine (codes "/proc/cmdline")));
        distribution = truthy distribution;
        meminfo = some_entries (get_memory_info machine);
      }))
    else ok (record { cmdline = none; distribution = none; meminfo = none })

-- `meminfo[key] // 1024`
unfoldable pub megabytes : Text → Dict ℕ → Result ℕ
megabytes key meminfo = elim (lookup key meminfo) [
  | none ↦ raise key_error
  | some n ↦ ok (n / 1024)
]

abbrev set_plain : Text → Option Text → Section → Section
set_plain key none s = s
set_plain key (some v) s = insert key (plain (str v)) s

unfoldable pub memory_entry : Option (Dict ℕ) → Section → Result Section
memory_entry none s = ok s
memory_entry (some meminfo) s = do
  total ← megabytes (codes "MemTotal") meminfo
  free ← megabytes (codes "MemFree") meminfo
  ok (
      insert (codes "memory")
        (object
          ((codes "total_physical_mb", num total) ∷ (codes "free_physical_mb", num free) ∷ []))
        s)

abbrev pub summary_base : Machine → Section
summary_base machine =
    (codes "os_name", plain (str machine.sysname))
    ∷ (codes "version", plain (str (machine.release ++ (codes " " ++ machine.version))))
    ∷ (codes "architecture", plain (str machine.arch))
    ∷ (codes "system_name", plain (str machine.hostname))
    ∷ []

unfoldable pub system_section : Machine → Facts → Result Section
system_section machine facts = memory_entry facts.meminfo (
    set_plain (codes "distribution") facts.distribution
      (set_plain (codes "kernel_command_line") facts.cmdline (summary_base machine)))

abbrev named : Text → Option Text → List (Text × Text)
named name none = []
named name (some v) = (name, v) ∷ []

unfoldable pub memory_cells : Option (Dict ℕ) → Result (List (Text × Text))
memory_cells none = ok []
memory_cells (some meminfo) = do
  total ← megabytes (codes "MemTotal") meminfo
  free ← megabytes (codes "MemFree") meminfo
  ok (
      (codes "Total Physical Memory", decimal total ++ codes " MB")
      ∷ (codes "Free Physical Memory", decimal free ++ codes " MB")
      ∷ [])

-- The attributes and values of the table, side by side.
unfoldable pub system_cells : Machine → Facts → Result (List (Text × Text))
system_cells machine facts = do
  memory ← memory_cells facts.meminfo
  ok (
      (codes "OS Name", machine.sysname)
      ∷ (codes "Version", machine.release ++ (codes " " ++ machine.version))
      ∷ (codes "Architecture", machine.arch)
      ∷ (named (codes "Kernel Command Line") facts.cmdline
          ++ (named (codes "Distribution") facts.distribution
              ++ ((codes "System Name", machine.hostname) ∷ memory))))

abbrev pub firsts : List (Text × Text) → List Text
firsts [] = []
firsts ((a, b) ∷ ps) = a ∷ firsts ps

abbrev pub seconds : List (Text × Text) → List Cell
seconds [] = []
seconds ((a, b) ∷ ps) = str b ∷ seconds ps

unfoldable pub print_system_summary : Machine → State → Result State
print_system_summary machine st =
    if is_json st.format
    then (do
      facts ← get_facts machine
      section ← system_section machine facts
      ok (record st { json_data = insert (codes "system_summary") section st.json_data }))
    else (do
      facts ← get_facts machine
      cells ← system_cells machine facts
      ok (
          tabulate
            (record {
              title = codes "System Summary";
              attributes = firsts cells;
              values = items (seconds cells) ∷ [];
              orientation = vert;
              pre = false;
              table_id = [];
            })
            st))

unfoldable pub device_row : Text → PciFunction → Row
device_row address device = fields (
    (codes "address", str address)
    ∷ (
      codes "device_id",
      str (hex 4 (get_vendor_id device) ++ (codes ":" ++ hex 4 (get_device_id device))),
    )
    ∷ (codes "revision", str (hex 2 (get_revision device)))
    ∷ (
      codes "subsystem_id",
      str (
          hex 4 (get_subsystem_vendor_id device) ++ (codes ":" ++ hex 4 (get_subsystem_id device))),
    )
    ∷ [])

-- The rows of the devices that pass the test, in the order of the dict.
unfoldable pub device_rows : Dict PciFunction → List Row
device_rows [] = []
device_rows ((address, device) ∷ devices) =
    let rest = device_rows devices in
    if is_sfc device then device_row address device ∷ rest else rest

unfoldable pub device_table : Dict PciFunction → Table
device_table devices = record {
  title = codes "AMD Solarflare PCI devices";
  attributes = codes "address" ∷ codes "device_id" ∷ codes "revision" ∷ codes "subsystem_id" ∷ [];
  values = device_rows devices;
  orientation = vert;
  pre = false;
  table_id = [];
}

unfoldable pub print_device_status : Dict PciFunction → State → State
print_device_status devices st = tabulate (device_table devices) st

unfoldable pub interface_rows : Dict Drvinfo → List Row
interface_rows [] = []
interface_rows ((name, info) ∷ infos) =
    fields (
      (codes "name", str name)
      ∷ (codes "address", str info.bus_info)
      ∷ (codes "driver_version", str info.version)
      ∷ (codes "controller_version", str info.fw_version)
      ∷ [])
    ∷ interface_rows infos

abbrev pub net_title : Text
net_title = codes "Network interfaces for AMD Solarflare adapters"

unfoldable pub net_table : Dict Drvinfo → Table
net_table infos = record {
  title = net_title;
  attributes =
      codes "name" ∷ codes "address" ∷ codes "driver_version" ∷ codes "controller_version" ∷ [];
  values = interface_rows infos;
  orientation = horiz;
  pre = false;
  table_id = [];
}

unfoldable pub print_net_status : Dict Drvinfo → State → State
print_net_status infos st =
    tabulate (net_table infos) (
      if not (is_json st.format) then print_heading net_title (codes "controller") false st else st)

abbrev or_empty : Option Text → Text
or_empty none = []
or_empty (some s) = s

-- One line of the CSV.
unfoldable pub csv_row : Machine → Text → Drvinfo → Text
csv_row machine name info = join (codes ",") (
    name
    ∷ unknown
    ∷ unknown
    ∷ unknown
    ∷ info.driver
    ∷ info.bus_info
    ∷ info.version
    ∷ info.fw_version
    ∷ or_empty (get_mac_address machine name)
    ∷ [])

unfoldable pub csv_rows : Machine → Dict Drvinfo → Text
csv_rows machine [] = []
csv_rows machine ((name, info) ∷ infos) =
    csv_row machine name info ++ (codes "\n" ++ csv_rows machine infos)

abbrev pub headings : List Text
headings =
    codes "name"
    ∷ codes "device_id"
    ∷ codes "revision"
    ∷ codes "subsys_id"
    ∷ codes "driver"
    ∷ codes "pci_address"
    ∷ codes "driver_version"
    ∷ codes "controller_version"
    ∷ codes "mac_address"
    ∷ []

unfoldable pub print_short_device_status : Machine → Dict Drvinfo → State → State
print_short_device_status machine infos st =
    write
      (codes "CSV:AMD Solarflare inventory report\n"
        ++ (join (codes ",") headings ++ (codes "\n" ++ (csv_rows machine infos ++ codes "\n"))))
      st
