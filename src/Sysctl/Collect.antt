-- ===== src/Sysctl/Collect.antt =====
-- `collect_system_info` and `save_to_json` of sysctl.py.
use linuxtools.Base.{Bool, true, false, List, Result, ok, raise, ◌>>=◌, ◌++◌}
use linuxtools.Str.{Text, codes}
use linuxtools.Dict.{Dict}
use linuxtools.Sysctl.{Host, get_sysctl_params}
use linuxtools.Sysctl.Query.{
  Interface, Dns, get_network_interfaces, get_routing_table, get_dns_settings,
}

pub record SystemInfo : Type 0 where
  pub timestamp : Text
  pub sysctl : Dict Text
  pub interfaces : Dict Interface
  pub routing : List Text
  pub dns : Dns

unfoldable pub collect_system_info : Host → Result SystemInfo
collect_system_info host = do
  params ← get_sysctl_params host
  interfaces ← get_network_interfaces host
  routes ← get_routing_table host
  settings ← get_dns_settings host
  ok (record {
    timestamp = host.now;
    sysctl = params;
    interfaces = interfaces;
    routing = routes;
    dns = settings;
  })

-- Opening the file, and `json.dump` into it.
pub record Files {ℓ} (A : Type ℓ) : Type ℓ where
  pub write : Text → A → Result (Unit {0})

abbrev pub succeeded {ℓ} : {A : Type ℓ} → Result A → Bool
succeeded (ok _) = true
succeeded (raise _) = false

unfoldable pub save_to_json {ℓ} : {A : Type ℓ} → Files A → A → Text → Bool
save_to_json files contents filename = succeeded (files.write filename contents)

-- `main`: whether the file was written, or what was raised before.
unfoldable pub main : Host → Files SystemInfo → Text → Result Bool
main host files timestamp = do
  info ← collect_system_info host
  ok (save_to_json files info (codes "system_info_" ++ (timestamp ++ codes ".json")))
