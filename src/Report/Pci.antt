-- ===== src/Report/Pci.antt =====
-- `PciFunction` and `get_pci_devices` of VMM_Hygine_Report.py.
pub mod Laws
pub mod Listing
use linuxtools.Base.{
  ℕ, ◌+◌, ◌-◌, ◌*◌, ◌/◌, ◌%◌, Bool, true, false, ◌&&◌, ◌||◌, not, List, [], ◌∷◌, ◌++◌, Option, none,
  some, if◌then◌else◌, leb, ltb, ◌==◌, length, take, drop, Result, ok, raise, ◌>>=◌, get_or,
}
use linuxtools.Str.{Text, codes, join}
use linuxtools.Dict.{Dict, insert}
use linuxtools.Utf8.{encode_latin1}
use linuxtools.Report.Machine.{Machine, read_file, truthy}

pub record PciFunction : Type 0 where
  pub address : Text
  pub config_data : List ℕ

-- The constructor, on a text.
unfoldable pub new_function : Text → Text → Result PciFunction
new_function address config_data = do
  bytes ← encode_latin1 config_data
  ok (record { address = address; config_data = bytes })

-- None where the range does not lie in the data.
unfoldable pub read_config : PciFunction → ℕ → ℕ → Option (List ℕ)
read_config f offset size =
    if leb (offset + size) (length f.config_data)
    then some (take size (drop offset f.config_data))
    else none

-- `struct.unpack('<H', data)[0] if data else 0`; the empty data is false too.
unfoldable pub unpack_u16 : Option (List ℕ) → ℕ
unpack_u16 none = 0
unpack_u16 (some []) = 0
unpack_u16 (some (b ∷ bs)) = b + 256 * get_or bs 0 0

-- `struct.unpack('<B', data)[0] if data else 0`
unfoldable pub unpack_u8 : Option (List ℕ) → ℕ
unpack_u8 none = 0
unpack_u8 (some bs) = get_or bs 0 0

unfoldable pub get_vendor_id : PciFunction → ℕ
get_vendor_id f = unpack_u16 (read_config f 0x00 2)

unfoldable pub get_device_id : PciFunction → ℕ
get_device_id f = unpack_u16 (read_config f 0x02 2)

unfoldable pub get_revision : PciFunction → ℕ
get_revision f = unpack_u8 (read_config f 0x08 1)

unfoldable pub get_device_class : PciFunction → ℕ
get_device_class f = unpack_u16 (read_config f 0x0a 2)

unfoldable pub get_subsystem_vendor_id : PciFunction → ℕ
get_subsystem_vendor_id f = unpack_u16 (read_config f 0x2c 2)

unfoldable pub get_subsystem_id : PciFunction → ℕ
get_subsystem_id f = unpack_u16 (read_config f 0x2e 2)

abbrev pub efx_vendid_sfc : ℕ
efx_vendid_sfc = 0x1924

abbrev pub efx_vendid_xilinx : ℕ
efx_vendid_xilinx = 0x10ee

-- The test of `print_device_status`.
unfoldable pub is_sfc : PciFunction → Bool
is_sfc f =
    get_vendor_id f == efx_vendid_sfc
    || (get_vendor_id f == efx_vendid_xilinx && get_device_class f == 0x200)

abbrev is_hex : ℕ → Bool
is_hex c = (leb b'0' c && leb c b'9') || (leb b'a' c && leb c b'f')

-- `re.match(r'^[0-9a-f]{4}:', address)`
unfoldable pub is_address : Text → Bool
is_address (a ∷ b ∷ c ∷ d ∷ e ∷ rest) = is_hex a && is_hex b && is_hex c && is_hex d && e == b':'
is_address _ = false

abbrev pub pci_devices_path : Text
pci_devices_path = codes "/sys/bus/pci/devices"

-- `os.path.join(pci_devices_path, address, "config")`
abbrev pub config_path : Text → Text
config_path address = pci_devices_path ++ (codes "/" ++ (address ++ codes "/config"))

-- One round of the loop over the directory.
unfoldable pub add_device : Text → Option Text → Dict PciFunction → Result (Dict PciFunction)
add_device address none devices = ok devices
add_device address (some config_data) devices = do
  f ← new_function address config_data
  ok (insert address f devices)

unfoldable pub add_devices : Machine → List Text → Dict PciFunction → Result (Dict PciFunction)
add_devices machine [] devices = ok devices
add_devices machine (address ∷ rest) devices = do
  next ←
      if is_address address
      then add_device address (truthy (read_file machine (config_path address))) devices
      else ok devices
  add_devices machine rest next

unfoldable pub get_pci_devices : Machine → Result (Dict PciFunction)
get_pci_devices machine =
    if machine.exists pci_devices_path
    then (do addresses ← machine.listdir pci_devices_path; add_devices machine addresses [])
    else ok []
