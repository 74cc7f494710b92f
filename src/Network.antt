-- ===== src/Network.antt =====
-- network.py: the interfaces, addresses, VLANs, link parameters and routes, read from the outputs of
-- `ip` and `ethtool`.
pub mod Collect
pub mod Shape
pub mod Render
pub mod Addresses
pub mod Peers
pub mod Expressions
use linuxtools.Base.{
  ℕ, Bool, true, false, ◌&&◌, not, List, [], ◌∷◌, ◌++◌, Option, none, some, if◌then◌else◌, ◌==◌,
  length, get_or, Result, ok, raise, ◌>>=◌,
}
use linuxtools.Str.{Text, codes, eqb, split, strip, is_space}
use linuxtools.Str.Number.{is_digit, isdigit}
use linuxtools.Regex.{
  Piece, literal, some_of, times, match_at, search, not_space, is_word, is_letter, is_dotted,
  is_hex_colon, is_name,
}
use linuxtools.Command.{Ran, finished, raised}

-- The output, whatever the status; any exception gives the empty text, after a message.
unfoldable pub output_of : Ran → Text
output_of (finished status out) = strip out
output_of (raised e) = []

-- What the script asks of the system that it runs on.
pub record System : Type 0 where
  pub run : Text → Ran
  pub now : Text
  pub hostname : Text

unfoldable pub run_command : System → Text → Text
run_command system command = output_of (system.run command)

-- `match.group`, where a group is one or two parts of the expression.
abbrev pub part : ℕ → List Text → Text
part i parts = get_or parts i []

abbrev pub group : ℕ → Option (List Text) → Option Text
group i none = none
group i (some parts) = some (part i parts)

-- `^[0-9]+: ([^:@]+)`
abbrev pub link_pattern : List Piece
link_pattern = some_of is_digit ∷ literal (codes ": ") ∷ some_of is_name ∷ []

abbrev pub add_link : Option (List Text) → List Text → List Text
add_link none rest = rest
add_link (some parts) rest = strip (part 2 parts) ∷ rest

-- The loop over the lines; an empty line matches nothing either.
unfoldable pub read_links : List Text → List Text
read_links [] = []
read_links ([] ∷ lines) = read_links lines
read_links ((c ∷ cs) ∷ lines) = add_link (match_at link_pattern (c ∷ cs)) (read_links lines)

unfoldable pub get_interfaces : System → List Text
get_interfaces system = read_links (split b'\n' (run_command system (codes "ip -o link show")))

pub record Ipv4 : Type 0 where
  pub address : Text
  pub prefix : Text
  pub broadcast : Text

pub record Ipv6 : Type 0 where
  pub address : Text
  pub prefix : Text

pub record IpInfo : Type 0 where
  pub ipv4 : List Ipv4
  pub ipv6 : List Ipv6

-- `inet\s+([0-9.]+)/(\d+)`
abbrev pub inet_pattern : List Piece
inet_pattern =
    literal (codes "inet")
    ∷ some_of is_space
    ∷ some_of is_dotted
    ∷ literal (codes "/")
    ∷ some_of is_digit
    ∷ []

-- `brd\s+([0-9.]+)`
abbrev pub brd_pattern : List Piece
brd_pattern = literal (codes "brd") ∷ some_of is_space ∷ some_of is_dotted ∷ []

-- `inet6\s+([0-9a-f:]+)/(\d+)`
abbrev pub inet6_pattern : List Piece
inet6_pattern =
    literal (codes "inet6")
    ∷ some_of is_space
    ∷ some_of is_hex_colon
    ∷ literal (codes "/")
    ∷ some_of is_digit
    ∷ []

-- `broadcast.group(1) if broadcast else ""`
abbrev pub broadcast_of : Option (List Text) → Text
broadcast_of none = []
broadcast_of (some parts) = part 2 parts

abbrev pub add_ipv4 : Option (List Text) → Text → List Ipv4 → List Ipv4
add_ipv4 none line rest = rest
add_ipv4 (some parts) line rest =
    record {
      address = part 2 parts;
      prefix = part 4 parts;
      broadcast = broadcast_of (search brd_pattern line);
    }
    ∷ rest

unfoldable pub read_ipv4 : List Text → List Ipv4
read_ipv4 [] = []
read_ipv4 (line ∷ lines) = add_ipv4 (search inet_pattern line) line (read_ipv4 lines)

abbrev pub add_ipv6 : Option (List Text) → List Ipv6 → List Ipv6
add_ipv6 none rest = rest
add_ipv6 (some parts) rest = record { address = part 2 parts; prefix = part 4 parts } ∷ rest

unfoldable pub read_ipv6 : List Text → List Ipv6
read_ipv6 [] = []
read_ipv6 (line ∷ lines) = add_ipv6 (search inet6_pattern line) (read_ipv6 lines)

unfoldable pub get_ip_info : System → Text → IpInfo
get_ip_info system interface = record {
  ipv4 = read_ipv4 (split b'\n' (run_command system (codes "ip -4 addr show " ++ interface)));
  ipv6 = read_ipv6 (split b'\n' (run_command system (codes "ip -6 addr show " ++ interface)));
}

pub record VlanInfo : Type 0 where
  pub is_vlan : Bool
  pub vlan_id : Option Text
  pub parent : Option Text

abbrev pub no_vlan : VlanInfo
no_vlan = record { is_vlan = false; vlan_id = none; parent = none }

-- `vlan\s+id\s+(\d+)`
abbrev pub vlan_pattern : List Piece
vlan_pattern =
    literal (codes "vlan")
    ∷ some_of is_space
    ∷ literal (codes "id")
    ∷ some_of is_space
    ∷ some_of is_digit
    ∷ []

-- The parts of a name between its dots: exactly two, the second a number. A name without a dot has one.
abbrev pub vlan_of_parts : List Text → VlanInfo
vlan_of_parts (parent ∷ id ∷ []) =
    if isdigit id
    then record { is_vlan = true; vlan_id = some id; parent = some parent }
    else no_vlan
vlan_of_parts _ = no_vlan

-- The answer of `ip` overrides the number that the name has.
abbrev pub vlan_of_link : VlanInfo → Option (List Text) → VlanInfo
vlan_of_link info none = info
vlan_of_link info (some parts) = record info { is_vlan = true; vlan_id = some (part 4 parts) }

unfoldable pub get_vlan_info : System → Text → VlanInfo
get_vlan_info system interface =
    vlan_of_link (vlan_of_parts (split b'.' interface))
      (search vlan_pattern (run_command system (codes "ip -d link show " ++ interface)))
