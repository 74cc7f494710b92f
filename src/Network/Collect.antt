-- ===== src/Network/Collect.antt =====
-- network.py: the parameters of the links, the routes, and the whole configuration.
use linuxtools.Base.{ℕ, Bool, List, [], ◌∷◌, ◌++◌, Option, none, some, Result, ok, ◌>>=◌}
use linuxtools.Str.{Text, codes, eqb, split, strip, is_space}
use linuxtools.Str.Number.{is_digit}
use linuxtools.Dict.{Dict, insert}
use linuxtools.Regex.{
  Piece, literal, some_of, times, search, not_space, is_word, is_letter, is_hex_colon,
}
use linuxtools.Network.{
  System, run_command, part, group, get_interfaces, IpInfo, get_ip_info, VlanInfo, get_vlan_info,
}

-- The dict of the parameters: a key that is missing is `none`.
pub record EthernetParams : Type 0 where
  pub speed : Option Text
  pub duplex : Option Text
  pub link_detected : Option Bool
  pub driver : Option Text
  pub driver_version : Option Text
  pub mac_address : Option Text

-- `Speed:\s+([\d]+[A-Za-z]+)`
abbrev pub speed_pattern : List Piece
speed_pattern =
    literal (codes "Speed:") ∷ some_of is_space ∷ some_of is_digit ∷ some_of is_letter ∷ []

-- The group is two parts of the expression.
abbrev pub speed_of : Option (List Text) → Option Text
speed_of none = none
speed_of (some parts) = some (part 2 parts ++ part 3 parts)

-- `label\s+(class+)`
abbrev pub labelled : Text → (ℕ → Bool) → List Piece
labelled label p = literal label ∷ some_of is_space ∷ some_of p ∷ []

-- `link_match.group(1) == "yes"`
abbrev pub detected : Option Text → Option Bool
detected none = none
detected (some word) = some (eqb word (codes "yes"))

-- `link/\S+\s+([0-9a-f:]{17})`
abbrev pub mac_pattern : List Piece
mac_pattern =
    literal (codes "link/") ∷ some_of not_space ∷ some_of is_space ∷ times 17 is_hex_colon ∷ []

-- `if output:`
abbrev pub where_any {ℓ} : {A : Type ℓ} → Text → Option A → Option A
where_any [] found = none
where_any (c ∷ cs) found = found

unfoldable pub get_ethernet_params : System → Text → EthernetParams
get_ethernet_params system interface =
    let link = run_command system (codes "ethtool " ++ (interface ++ codes " 2>/dev/null")) in
    let module_info =
      run_command system (codes "ethtool -i " ++ (interface ++ codes " 2>/dev/null")) in
    let show = run_command system (codes "ip link show " ++ interface) in
    record {
      speed = where_any link (speed_of (search speed_pattern link));
      duplex = where_any link (group 2 (search (labelled (codes "Duplex:") is_word) link));
      link_detected =
          where_any link
            (detected (group 2 (search (labelled (codes "Link detected:") is_word) link)));
      driver =
          where_any module_info
            (group 2 (search (labelled (codes "driver:") not_space) module_info));
      driver_version =
          where_any module_info
            (group 2 (search (labelled (codes "version:") not_space) module_info));
      mac_address = group 3 (search mac_pattern show);
    }

-- The stripped lines that are not empty.
unfoldable pub read_routes : List Text → List Text
read_routes [] = []
read_routes (line ∷ lines) =
    let rest = read_routes lines in elim (strip line) [ [] ↦ rest | c ∷ cs ↦ (c ∷ cs) ∷ rest ]

unfoldable pub get_routes : System → List Text
get_routes system = read_routes (split b'\n' (run_command system (codes "ip route")))

pub record InterfaceInfo : Type 0 where
  pub ip : IpInfo
  pub vlan : VlanInfo
  pub ethernet_params : EthernetParams

pub record NetworkConfig : Type 0 where
  pub timestamp : Text
  pub hostname : Text
  pub interfaces : Dict InterfaceInfo
  pub routes : List Text

unfoldable pub info_of : System → Text → InterfaceInfo
info_of system interface = record {
  ip = get_ip_info system interface;
  vlan = get_vlan_info system interface;
  ethernet_params = get_ethernet_params system interface;
}

-- The loop over the interfaces.
unfoldable pub add_interfaces : System → List Text → Dict InterfaceInfo → Dict InterfaceInfo
add_interfaces system [] d = d
add_interfaces system (interface ∷ rest) d =
    add_interfaces system rest (insert interface (info_of system interface) d)

unfoldable pub get_network_config : System → NetworkConfig
get_network_config system = record {
  timestamp = system.now;
  hostname = system.hostname;
  interfaces = add_interfaces system (get_interfaces system) [];
  routes = get_routes system;
}

-- `main`: what it prints once the configuration is saved; `save` opens and writes the file.
unfoldable pub main : System → (NetworkConfig → Result (Unit {0})) → Result Text
main system save = do
  _ ← save (get_network_config system)
  ok (codes "Network configuration saved to network_config.json")
