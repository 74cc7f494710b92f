-- ===== src/Tests/Devices.antt =====
-- The devices, the CSV and the JSON of VMM_Hygine_Report.py on a small machine.
use linuxtools.Base.{
  ℕ, ◌≡◌, refl, true, List, [], ◌∷◌, ◌++◌, none, some, if◌then◌else◌, map, ok, raise, os_error,
  arith,
}
use linuxtools.Str.{Text, codes, eqb, split}
use linuxtools.Dict.{Dict, keys, lookup, NodupKeys}
use linuxtools.Report.Machine.{Machine, read_file}
use linuxtools.Report.Output.{json, minimal}
use linuxtools.Report.Printer.{Section, table}
use linuxtools.Report.Pci.{PciFunction, pci_devices_path, config_path, get_pci_devices}
use linuxtools.Report.Pci.Listing.{Installed, adapters, print_device_status-adapters}
use linuxtools.Report.Drvinfo.{Drvinfo, get_mac_address}
use linuxtools.Report.Sections.{headings, print_device_status, print_short_device_status}
use linuxtools.Report.Sections.Csv.{
  title, ArePlain, all_fields, print_short_device_status-all_fields,
}
use linuxtools.Tests.Report.{config}

abbrev entries : Dict (List ℕ)
entries = (codes "0000:01:00.0", config) ∷ (codes "other", config) ∷ []

abbrev pub machine : Machine
machine = record {
  read = λ path.
      if eqb path (config_path (codes "0000:01:00.0"))
      then some config
      else if eqb path (config_path (codes "other"))
      then some config
      else none;
  exists = λ path. eqb path pci_devices_path;
  writable = λ path. true;
  listdir = λ path. if eqb path pci_devices_path then ok (keys entries) else raise os_error;
  readlink = λ path. raise os_error;
  glob = λ pattern. [];
  shell = λ command. ok [];
  modinfo = λ module_name. ok (1, []);
  hostname = codes "box";
  sysname = codes "Linux";
  release = codes "6.1";
  version = codes "1";
  arch = codes "x86_64";
  is_root = true;
  date = codes "today";
}

there : machine.exists pci_devices_path ≡ true
unfolding eqb
there = refl

listed : machine.listdir pci_devices_path ≡ ok (keys entries)
unfolding eqb
listed = refl

entries-Installed : Installed machine entries
unfolding eqb
entries-Installed = ((refl, omega arith, omega arith), ((refl, omega arith, omega arith), tt))

entries-NodupKeys : NodupKeys entries
unfolding lookup eqb
entries-NodupKeys = (refl, (refl, tt))

print_device_status-adapters_example :
    (devices : Dict PciFunction) × (get_pci_devices machine ≡ ok devices)
    × (s : Section) × (lookup
          (codes "amd_solarflare_pci_devices")
          (print_device_status devices
            (record { format = json; json_data = []; out = [] })).json_data
        ≡ some s)
    × (lookup (codes "data") s ≡ some (table (adapters entries)))
print_device_status-adapters_example =
    print_device_status-adapters machine entries
      (record { format = json; json_data = []; out = [] }) there listed entries-Installed
      entries-NodupKeys refl

abbrev interfaces : Dict Drvinfo
interfaces =
    (
      codes "eth0",
      record {
        driver = codes "sfc";
        version = codes "5.3";
        fw_version = codes "unknown";
        bus_info = codes "0000:01:00.0";
      },
    )
    ∷ []

interfaces-ArePlain : ArePlain machine interfaces
unfolding get_mac_address read_file eqb
interfaces-ArePlain = (
  (
    (refl, (refl, (refl, (refl, (refl, (refl, (refl, (refl, (refl, tt))))))))),
    (refl, (refl, (refl, (refl, (refl, (refl, (refl, (refl, (refl, tt))))))))),
  ),
  tt,
)

print_short_device_status-all_fields_example :
    (csv : Text) × ((print_short_device_status machine interfaces
        (record { format = minimal; json_data = []; out = [] })).out
      ≡ [] ++ csv)
    × (map (split b',') (split b'\n' csv)
        ≡ (title ∷ []) ∷ headings ∷ (all_fields machine interfaces ++ (([] ∷ []) ∷ ([] ∷ []) ∷ [])))
print_short_device_status-all_fields_example =
    print_short_device_status-all_fields machine interfaces
      (record { format = minimal; json_data = []; out = [] }) interfaces-ArePlain
