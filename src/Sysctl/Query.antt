-- ===== src/Sysctl/Query.antt =====
-- The interfaces, the routing table and the DNS settings of sysctl.py.
use linuxtools.Base.{
  List, [], ◌∷◌, ◌++◌, Option, none, some, if◌then◌else◌, get_elem?, Result, ok, raise, ◌>>=◌,
  index_error, map,
}
use linuxtools.Str.{Text, codes, splitlines, starts_with, split_space, strip}
use linuxtools.Dict.{Dict, insert}
use linuxtools.Sysctl.{Host, run_command, truthy}

-- The dict of one interface; a key that is not set is `none`.
pub record Interface : Type 0 where
  pub ip_info : Option Text
  pub rx_bytes : Option Text
  pub tx_bytes : Option Text

abbrev pub option_strip : Option Text → Option Text
option_strip none = none
option_strip (some s) = some (strip s)

-- The two counters, where the statistics directory exists.
unfoldable pub get_counters : Host → Text → Option Text → Result Interface
get_counters host interface ip_info =
    let dir = codes "/sys/class/net/" ++ (interface ++ codes "/statistics") in
    if host.exists dir
    then (do
      rx ← run_command host (codes "cat " ++ (dir ++ codes "/rx_bytes"))
      tx ← run_command host (codes "cat " ++ (dir ++ codes "/tx_bytes"))
      ok (record {
        ip_info = ip_info;
        rx_bytes = option_strip (truthy rx);
        tx_bytes = option_strip (truthy tx);
      }))
    else ok (record { ip_info = ip_info; rx_bytes = none; tx_bytes = none })

unfoldable pub get_interface : Host → Text → Result Interface
get_interface host interface = do
  ip_output ← run_command host (codes "ip addr show " ++ interface)
  get_counters host interface (truthy ip_output)

-- The loop over the lines of `ls`.
unfoldable pub get_interfaces : Host → List Text → Dict Interface → Result (Dict Interface)
get_interfaces host [] d = ok d
get_interfaces host (line ∷ lines) d = do
  i ← get_interface host (strip line)
  get_interfaces host lines (insert (strip line) i d)

abbrev pub lines_of : Option Text → List Text
lines_of none = []
lines_of (some output) = splitlines output

unfoldable pub get_network_interfaces : Host → Result (Dict Interface)
get_network_interfaces host = do
  output ← run_command host (codes "ls /sys/class/net/")
  get_interfaces host (lines_of (truthy output)) []

-- The `route` of each entry.
unfoldable pub get_routing_table : Host → Result (List Text)
get_routing_table host = do
  output ← run_command host (codes "ip route")
  ok (map strip (lines_of (truthy output)))

-- `line.split()[1]`
unfoldable pub second_word : Text → Result Text
second_word line = elim (get_elem? (split_space line) 1) [
  | none ↦ raise index_error
  | some w ↦ ok w
]

abbrev pub nameserver : Text
nameserver = codes "nameserver"

-- The loop over the lines of resolv.conf.
unfoldable pub read_nameservers : List Text → List Text → Result (List Text)
read_nameservers [] found = ok found
read_nameservers (line ∷ lines) found =
    let more = λ (w : Text). read_nameservers lines (found ++ (w ∷ [])) in
    let rest = read_nameservers lines found in
    if starts_with line nameserver then second_word line >>= more else rest

pub record Dns : Type 0 where
  pub nameservers : Option (List Text)
  pub hostname : Option Text
  pub fqdn : Option Text

abbrev pub nameservers_of : Option Text → Result (Option (List Text))
nameservers_of none = ok none
nameservers_of (some output) = do found ← read_nameservers (splitlines output) []; ok (some found)

-- The `try` block: the name is kept if only `getfqdn` raises.
unfoldable pub with_names : Host → Option (List Text) → Dns
with_names host found = elim host.hostname [
  | raise _ ↦ record { nameservers = found; hostname = none; fqdn = none }
  | ok name ↦ elim host.fqdn [
    | raise _ ↦ record { nameservers = found; hostname = some name; fqdn = none }
    | ok full ↦ record { nameservers = found; hostname = some name; fqdn = some full }
  ]
]

unfoldable pub get_dns_settings : Host → Result Dns
get_dns_settings host =
    if host.exists (codes "/etc/resolv.conf")
    then (do
      output ← run_command host (codes "cat /etc/resolv.conf")
      found ← nameservers_of (truthy output)
      ok (with_names host found))
    else ok (with_names host none)
