-- ===== src/Tests/Network.antt =====
-- Runs of network.py.
use linuxtools.Base.{◌≡◌, refl, true, false, List, [], ◌∷◌, some, if◌then◌else◌, All, map}
use linuxtools.Str.{Text, codes, eqb, strip, join, split, starts_with}
use linuxtools.Str.Number.{digits_onto, decimal, isdigit}
use linuxtools.Str.Replace.{occurs}
use linuxtools.Command.{Ran, finished}
use linuxtools.Regex.{all_of, search, match_at, consume}
use linuxtools.Network.{
  System, run_command, output_of, get_interfaces, get_vlan_info, get_ip_info, read_ipv4,
}
use linuxtools.Network.Collect.{info_of}
use linuxtools.Network.Shape.{IsShaped, info_of-IsShaped}
use linuxtools.Network.Render.{Link, link_line, IsLink, get_interfaces-link_lines}
use linuxtools.Network.Peers.{peer_line, read_ipv4-peer_line}
use linuxtools.Network.Addresses.{
  IsDotted, AddrLine, inet, other, brd, no_brd, addr_line, IsAddrLine, addresses,
  get_ip_info-addr_lines,
}

abbrev lo : Link
lo = record {
  index = 1;
  name = codes "lo";
  ends_with_colon = true;
  tail = codes " <LOOPBACK,UP> mtu 65536";
}

abbrev vlan5 : Link
vlan5 = record {
  index = 12;
  name = codes "eth0.5";
  ends_with_colon = false;
  tail = codes "eth0: <BROADCAST,UP> mtu 1500";
}

abbrev address_lines : List AddrLine
address_lines =
    inet 4 (codes "10.0.0.1") 24 (brd (codes "10.0.0.255") (codes "scope global eth0.5"))
    ∷ other (codes "       valid_lft forever preferred_lft forever")
    ∷ inet 4 (codes "10.0.1.1") 32 (no_brd (codes "scope global eth0.5"))
    ∷ []

abbrev first_line : AddrLine
first_line = other (codes "12: eth0.5@eth0: <BROADCAST,UP> mtu 1500")

abbrev links_out : Text
links_out = join (codes "\n") (map link_line (lo ∷ vlan5 ∷ []))

abbrev addresses_out : Text
addresses_out = join (codes "\n") (map addr_line (first_line ∷ address_lines))

abbrev run : Text → Ran
run command =
    if eqb command (codes "ip -o link show")
    then finished 0 links_out
    else if eqb command (codes "ip -4 addr show eth0.5")
    then finished 0 addresses_out
    else finished 1 []

abbrev system : System
system = record { run = run; now = codes "2024-01-01T00:00:00"; hostname = codes "box" }

links_ran : system.run (codes "ip -o link show") ≡ finished 0 links_out
unfolding eqb
links_ran = refl

links_stripped : strip links_out ≡ links_out
unfolding strip link_line decimal join digits_onto
links_stripped = refl

lo-IsLink : IsLink lo
unfolding strip all_of
lo-IsLink = record {
  named = λ e. cc;
  name_class = refl;
  stripped = refl;
  name_line = refl;
  tail_line = refl;
}

vlan5-IsLink : IsLink vlan5
unfolding strip all_of
vlan5-IsLink = record {
  named = λ e. cc;
  name_class = refl;
  stripped = refl;
  name_line = refl;
  tail_line = refl;
}

get_interfaces-link_lines_example : get_interfaces system ≡ codes "lo" ∷ codes "eth0.5" ∷ []
get_interfaces-link_lines_example =
    get_interfaces-link_lines system 0 links_out lo (vlan5 ∷ []) links_ran links_stripped
      (lo-IsLink, (vlan5-IsLink, tt))

addresses_ran : system.run (codes "ip -4 addr show eth0.5") ≡ finished 0 addresses_out
unfolding eqb
addresses_ran = refl

addresses_stripped : strip addresses_out ≡ addresses_out
unfolding strip decimal join digits_onto
addresses_stripped = refl

lines-IsAddrLine : All IsAddrLine (first_line ∷ address_lines)
unfolding occurs all_of starts_with
lines-IsAddrLine = (
  (refl, refl),
  (
    ((refl, λ e. cc), ((refl, λ e. cc), refl)),
    ((refl, refl), (((refl, λ e. cc), (refl, refl)), tt)),
  ),
)

get_ip_info-addr_lines_example :
    (get_ip_info system (codes "eth0.5")).ipv4 ≡ addresses (first_line ∷ address_lines)
get_ip_info-addr_lines_example =
    get_ip_info-addr_lines system (codes "eth0.5") 0 addresses_out first_line address_lines
      addresses_ran addresses_stripped lines-IsAddrLine

-- The name alone makes it a VLAN.
by_name :
    get_vlan_info system (codes "eth0.5")
    ≡ record { is_vlan = true; vlan_id = some (codes "5"); parent = some (codes "eth0") }
unfolding get_vlan_info search run_command output_of eqb strip match_at consume starts_with split
    isdigit
by_name = refl

info_of-IsShaped_example : IsShaped (info_of system (codes "eth0.5"))
info_of-IsShaped_example = info_of-IsShaped system (codes "eth0.5")

five-IsDotted : IsDotted (codes "10.0.0.5")
unfolding all_of
five-IsDotted = (refl, λ e. cc)

-- The second of two addresses has a peer.
read_ipv4-peer_line_example :
    read_ipv4 (
      codes "inet 10.0.0.1/8 scope global"
      ∷ peer_line 4 (codes "10.0.0.5") (codes "10.0.0.6/32")
      ∷ [])
    ≡ read_ipv4 (codes "inet 10.0.0.1/8 scope global" ∷ [])
read_ipv4-peer_line_example =
    read_ipv4-peer_line (codes "inet 10.0.0.1/8 scope global" ∷ []) [] 4 (codes "10.0.0.5")
      (codes "10.0.0.6/32") five-IsDotted (unfold occurs starts_with in refl)
