-- ===== src/Report/Pci/Listing.antt =====
-- From the directory of PCI devices to the table of adapters of VMM_Hygine_Report.py.
use linuxtools.Base.{
  ℕ, ◌≡◌, ◌≤◌, ◌<◌, ◌∙◌, refl, ap, true, ◌&&◌, List, [], ◌∷◌, ◌++◌, none, some, if◌then◌else◌,
  Bool-cases, inl, inr, arith, ◌==◌, length, get_or, All, ok, ◌>>=◌,
}
use linuxtools.Str.{Text, codes, eqb, replace, lower}
use linuxtools.Str.Number.{hex}
use linuxtools.Dict.{Dict, keys, lookup, insert, NodupKeys}
use linuxtools.Dict.Fresh.{insert_all, insert_all-nil}
use linuxtools.Utf8.Laws.{IsAscii, decode_ignore-ascii, encode_latin1-ascii}
use linuxtools.Report.Machine.{Machine, read_file, truthy}
use linuxtools.Report.Output.{is_json}
use linuxtools.Report.Table.{Cell, str, attr_value}
use linuxtools.Report.Printer.{table, Section, State}
use linuxtools.Report.Tabulate.{section_key}
use linuxtools.Report.Tabulate.Json.{cell_dict, table_dicts, Distinct, tabulate-data}
use linuxtools.Report.Sections.{device_row, device_rows, device_table, print_device_status}
use linuxtools.Report.Pci.{
  PciFunction, new_function, is_address, is_sfc, pci_devices_path, config_path, add_device,
  add_devices, get_pci_devices, get_vendor_id, get_device_id, get_revision, get_subsystem_vendor_id,
  get_subsystem_id,
}
use linuxtools.Report.Pci.Laws.{word, unpack_u16-read_config, unpack_u8-read_config}

-- The file of each entry can be read, and holds at least 48 bytes, all below 128.
abbrev pub Installed : Machine → Dict (List ℕ) → Type 0
Installed machine [] = Unit
Installed machine ((name, bytes) ∷ es) =
    ((machine.read (config_path name) ≡ some bytes) × All IsAscii bytes × (48 ≤ length bytes))
    × Installed machine es

abbrev pub device : Text → List ℕ → PciFunction
device name bytes = record { address = name; config_data = bytes }

-- The entries whose name is an address.
unfoldable pub devices_of : Dict (List ℕ) → Dict PciFunction
devices_of [] = []
devices_of ((name, bytes) ∷ es) =
    let rest = devices_of es in if is_address name then (name, device name bytes) ∷ rest else rest

module _ (machine : Machine) where
  add_device-ascii :
      (name : Text) (bytes : List ℕ) (d : Dict PciFunction)
      → machine.read (config_path name) ≡ some bytes
      → All IsAscii bytes
      → 48 ≤ length bytes
      → add_device name (truthy (read_file machine (config_path name))) d
        ≡ ok (insert name (device name bytes) d)
  unfolding add_device read_file new_function
  add_device-ascii name [] d r h n = ground arith
  add_device-ascii name (b ∷ bs) d r h n =
      rw (r, read_file, decode_ignore-ascii (b ∷ bs) h)
        (ap (λ m. (m >>= λ bytes. ok (device name bytes)) >>= λ f. ok (insert name f d))
          (encode_latin1-ascii (b ∷ bs) h))

  add_devices-devices_of :
      (es : Dict (List ℕ)) (d : Dict PciFunction)
      → Installed machine es
      → add_devices machine (keys es) d ≡ ok (insert_all d (devices_of es))
  unfolding add_devices devices_of insert_all
  add_devices-devices_of [] d h = refl
  add_devices-devices_of ((name, bytes) ∷ es) d ((r, h, n), hs) =
      elim (Bool-cases (is_address name)) [
        | inl e ↦
            rw (e, add_device-ascii name bytes d r h n)
              (add_devices-devices_of es (insert name (device name bytes) d) hs)
        | inr e ↦ rw e (add_devices-devices_of es d hs)
      ]

lookup-devices_of :
    (k : Text) (es : Dict (List ℕ)) → lookup k es ≡ none → lookup k (devices_of es) ≡ none
unfolding lookup devices_of
lookup-devices_of k [] h = refl
lookup-devices_of k ((name, bytes) ∷ es) h = ground (arith, lookup-devices_of k es)

devices_of-NodupKeys : (es : Dict (List ℕ)) → NodupKeys es → NodupKeys (devices_of es)
unfolding devices_of
devices_of-NodupKeys [] u = tt
devices_of-NodupKeys ((name, bytes) ∷ es) (f, u) = elim (Bool-cases (is_address name)) [
  | inl e ↦ rw e (lookup-devices_of name es f, devices_of-NodupKeys es u)
  | inr e ↦ rw e (devices_of-NodupKeys es u)
]

pub get_pci_devices-devices_of :
    (machine : Machine) (es : Dict (List ℕ))
    → machine.exists pci_devices_path ≡ true
    → machine.listdir pci_devices_path ≡ ok (keys es)
    → Installed machine es
    → NodupKeys es
    → get_pci_devices machine ≡ ok (devices_of es)
unfolding get_pci_devices
get_pci_devices-devices_of machine es there listed h u =
    rw (there, get_pci_devices, listed)
      (add_devices-devices_of machine es [] h
        ∙ ap ok (insert_all-nil (devices_of es) (devices_of-NodupKeys es u)))

-- The dict of the table for one adapter, from the bytes of its file.
abbrev pub row_of : Text → List ℕ → Dict Cell
row_of name bytes =
    (codes "address", str name)
    ∷ (codes "device_id", str (hex 4 (word bytes 0x00) ++ (codes ":" ++ hex 4 (word bytes 0x02))))
    ∷ (codes "revision", str (hex 2 (get_or bytes 0x08 0)))
    ∷ (
      codes "subsystem_id",
      str (hex 4 (word bytes 0x2c) ++ (codes ":" ++ hex 4 (word bytes 0x2e))),
    )
    ∷ []

-- One for each entry with an address for a name and 0x1924 for its first word.
unfoldable pub adapters : Dict (List ℕ) → List (Dict Cell)
adapters [] = []
adapters ((name, bytes) ∷ es) =
    let rest = adapters es in
    if is_address name && word bytes 0x00 == 0x1924 then row_of name bytes ∷ rest else rest

abbrev pub column_names : List Text
column_names = codes "address" ∷ codes "device_id" ∷ codes "revision" ∷ codes "subsystem_id" ∷ []

-- The words of the fields are those of the bytes.
fields_of :
    (name : Text) (bytes : List ℕ)
    → 48 ≤ length bytes
    → cell_dict (device_row name (device name bytes)) 0 column_names ≡ row_of name bytes
unfolding device_row cell_dict attr_value lookup eqb get_vendor_id get_device_id get_revision
    get_subsystem_vendor_id get_subsystem_id
fields_of name bytes n =
    let f = device name bytes in
    rw
      (
        unpack_u16-read_config f 0x00 (omega arith),
        unpack_u16-read_config f 0x02 (omega arith),
        unpack_u8-read_config f 0x08 (omega arith),
        unpack_u16-read_config f 0x2c (omega arith),
        unpack_u16-read_config f 0x2e (omega arith),
      )
      refl

first_ascii : (bytes : List ℕ) → All IsAscii bytes → get_or bytes 0 0 < 128
first_ascii [] h = omega arith
first_ascii (b ∷ bs) h = h.0

is_sfc-word :
    (name : Text) (bytes : List ℕ)
    → All IsAscii bytes
    → 48 ≤ length bytes
    → is_sfc (device name bytes) ≡ (word bytes 0x00 == 0x1924)
unfolding is_sfc get_vendor_id
is_sfc-word name bytes h n =
    ground
      (arith, first_ascii bytes h, unpack_u16-read_config (device name bytes) 0x00 (omega arith))

rows-adapters :
    (machine : Machine) (es : Dict (List ℕ))
    → Installed machine es
    → table_dicts column_names (device_rows (devices_of es)) ≡ adapters es
unfolding device_rows devices_of adapters table_dicts
rows-adapters machine [] h = refl
rows-adapters machine ((name, bytes) ∷ es) ((r, h, n), hs) =
    ground (arith, is_sfc-word name bytes h n, fields_of name bytes n, rows-adapters machine es hs)

names-Distinct : Distinct column_names
names-Distinct =
    ((λ e. cc, (λ e. cc, (λ e. cc, tt))), ((λ e. cc, (λ e. cc, tt)), ((λ e. cc, tt), (tt, tt))))

-- Where the directory exists, its entries have different names, and each has a readable configuration
-- of at least 48 bytes, all of them below 128, so that no byte is lost in the decoding: in JSON, the
-- table of devices has one row for each directory entry with an address for a name and Solarflare's
-- vendor id 0x1924 in its first two bytes, in order, with the fields that its configuration file holds,
-- and no other row.
pub print_device_status-adapters :
    (machine : Machine) (es : Dict (List ℕ)) (st : State)
    → machine.exists pci_devices_path ≡ true
    → machine.listdir pci_devices_path ≡ ok (keys es)
    → Installed machine es
    → NodupKeys es
    → is_json st.format ≡ true
    → (devices : Dict PciFunction) × (get_pci_devices machine ≡ ok devices)
      × (s : Section) × (lookup
            (codes "amd_solarflare_pci_devices")
            (print_device_status devices st).json_data
          ≡ some s)
      × (lookup (codes "data") s ≡ some (table (adapters es)))
unfolding print_device_status device_table section_key replace lower
print_device_status-adapters machine es st there listed h u j =
    let devices = devices_of es in
    let (s, here, held, _, _) = tabulate-data (device_table devices) st [] j names-Distinct in
    (
      devices,
      get_pci_devices-devices_of machine es there listed h u,
      s,
      here,
      held ∙ ap (λ rows. some (table rows)) (rows-adapters machine es h),
    )
