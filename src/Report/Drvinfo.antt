-- ===== src/Report/Drvinfo.antt =====
-- The drivers and interfaces of VMM_Hygine_Report.py: `MockDrvinfo`, `get_sfc_drvinfo` and
-- `_get_mac_address`.
use linuxtools.Base.{
  Bool, ◌||◌, List, [], ◌∷◌, ◌++◌, Option, none, some, if◌then◌else◌, Result, ok, raise, ◌>>=◌,
  os_error, file_not_found, ◌==◌,
}
use linuxtools.Str.{Text, codes, eqb, strip}
use linuxtools.Dict.{Dict, insert}
use linuxtools.Report.Machine.{Machine, read_file, truthy, basename}

pub record Drvinfo : Type 0 where
  pub driver : Text
  pub version : Text
  pub fw_version : Text
  pub bus_info : Text

abbrev pub unknown : Text
unknown = codes "unknown"

-- `except (OSError, IOError)` around a call.
abbrev pub except_os {ℓ} : {A : Type ℓ} → A → Result A → Result A
except_os d (ok a) = ok a
except_os d (raise os_error) = ok d
except_os d (raise file_not_found) = ok d
except_os d (raise e) = raise e

-- `_get_driver_version`: the output is used only if the status is 0.
unfoldable pub get_driver_version : Machine → Text → Result Text
get_driver_version machine driver = do
  (status, out) ← machine.modinfo driver
  ok (if status == 0 then strip out else unknown)

unfoldable pub get_bus_info : Machine → Text → Result Text
get_bus_info machine interface =
    let path = codes "/sys/class/net/" ++ (interface ++ codes "/device") in
    if machine.exists path
    then except_os unknown (do link ← machine.readlink path; ok (basename link))
    else ok unknown

-- The constructor; `_get_fw_version` is the constant "unknown".
unfoldable pub new_drvinfo : Machine → Text → Text → Result Drvinfo
new_drvinfo machine driver interface = do
  version ← get_driver_version machine driver
  bus ← get_bus_info machine interface
  ok (record { driver = driver; version = version; fw_version = unknown; bus_info = bus })

-- `_get_interface_driver`
unfoldable pub get_interface_driver : Machine → Text → Result Text
get_interface_driver machine interface = except_os [] (do
  link ← machine.readlink (codes "/sys/class/net/" ++ (interface ++ codes "/device/driver"))
  ok (basename link))

abbrev pub is_sfc_driver : Text → Bool
is_sfc_driver driver =
    eqb driver (codes "sfc") || eqb driver (codes "sfc_ef100") || eqb driver (codes "xilinx_efct")

-- One interface of the loop.
unfoldable pub add_interface : Machine → Text → Text → Dict Drvinfo → Result (Dict Drvinfo)
add_interface machine name driver d =
    if is_sfc_driver driver
    then (do info ← new_drvinfo machine driver name; ok (insert name info d))
    else ok d

unfoldable pub add_interfaces : Machine → List Text → Dict Drvinfo → Result (Dict Drvinfo)
add_interfaces machine [] d = ok d
add_interfaces machine (name ∷ names) d = do
  driver ← get_interface_driver machine name
  next ← add_interface machine name driver d
  add_interfaces machine names next

abbrev pub net_class_path : Text
net_class_path = codes "/sys/class/net"

unfoldable pub get_sfc_drvinfo : Machine → Result (Dict Drvinfo)
get_sfc_drvinfo machine =
    if machine.exists net_class_path
    then (do names ← machine.listdir net_class_path; add_interfaces machine names [])
    else ok []

-- `mac_addr or ""`: None and the empty text are printed alike.
unfoldable pub get_mac_address : Machine → Text → Option Text
get_mac_address machine interface =
    elim (truthy (read_file machine (codes "/sys/class/net/" ++ (interface ++ codes "/address")))) [
      | none ↦ none
      | some content ↦ some (strip content)
    ]
