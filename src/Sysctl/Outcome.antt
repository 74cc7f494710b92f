-- ===== src/Sysctl/Outcome.antt =====
-- When sysctl.py comes to an end, and what its DNS part reads.
use linuxtools.Base.{
  ◌≡◌, refl, ◌∙◌, Bool, false, ◌&&◌, ◌||◌, List, [], ◌∷◌, ◌++◌, Option, none, some, if◌then◌else◌,
  arith, Result, ok, raise, ◌>>=◌, index_error, Exception, map, append_assoc, append-nil,
  Bool-cases, inl, inr, get_elem?, Option-cases,
}
use linuxtools.Str.{Text, codes, splitlines, starts_with, split_space, strip}
use linuxtools.Dict.{Dict, insert}
use linuxtools.Sysctl.{Host, run_command, truthy, get_sysctl_params, params_of}
use linuxtools.Sysctl.Query.{
  Interface, get_counters, get_interface, get_interfaces, get_network_interfaces, get_routing_table,
  nameserver, second_word, read_nameservers, nameservers_of, get_dns_settings, with_names, lines_of,
  option_strip,
}
use linuxtools.Sysctl.Collect.{SystemInfo, Files, collect_system_info, main}

-- A line that begins with `nameserver` and has no second word.
abbrev pub is_bare : Text → Bool
is_bare line = elim (get_elem? (split_space line) 1) [
  | none ↦ starts_with line nameserver
  | some w ↦ false
]

unfoldable pub any_bare : List Text → Bool
any_bare [] = false
any_bare (line ∷ lines) = is_bare line || any_bare lines

-- The second words of the lines that begin with `nameserver`.
unfoldable pub servers : List Text → List Text
servers [] = []
servers (line ∷ lines) =
    (if starts_with line nameserver
      then elim (get_elem? (split_space line) 1) [ none ↦ [] | some w ↦ w ∷ [] ]
      else [])
    ++ servers lines

-- The addresses are the second words of the `nameserver` lines, in order. One such line without a
-- second word makes the whole loop raise an IndexError, wherever it stands.
pub read_nameservers_lem :
    (lines found : List Text)
    → read_nameservers lines found
      ≡ (if any_bare lines then raise index_error else ok (found ++ servers lines))
unfolding any_bare servers read_nameservers second_word
read_nameservers_lem [] found = ground (arith, append-nil found)
read_nameservers_lem (line ∷ lines) found = elim (Option-cases (get_elem? (split_space line) 1)) [
  | inl none_there ↦ rw none_there (ground (arith, none_there, read_nameservers_lem lines found))
  | inr (w, e) ↦ rw e (
      ground (
        arith,
        e,
        read_nameservers_lem lines found,
        read_nameservers_lem lines (found ++ (w ∷ [])),
        append_assoc found (w ∷ []) (servers lines),
      ))
]

-- No command raises an exception other than a SubprocessError.
abbrev pub Contained : Host → Type 0
Contained host = (command : Text) → (o : Option Text) × (run_command host command ≡ ok o)

-- resolv.conf exists and has a `nameserver` line without a second word.
abbrev bare_in : Result (Option Text) → Bool
bare_in (ok o) = any_bare (lines_of (truthy o))
bare_in (raise e) = false

abbrev pub resolv_is_bare : Host → Bool
resolv_is_bare host =
    host.exists (codes "/etc/resolv.conf")
    && bare_in (run_command host (codes "cat /etc/resolv.conf"))

abbrev pub raised_by {ℓ} : {A : Type ℓ} → Result A → Option Exception
raised_by (ok _) = none
raised_by (raise e) = some e

nameservers_of-raised :
    (o : Option Text) (host : Host)
    → raised_by (nameservers_of o >>= λ found. ok (with_names host found))
      ≡ (if any_bare (lines_of o) then some index_error else none)
nameservers_of-raised none host = unfold any_bare in refl
nameservers_of-raised (some output) host =
    rw (read_nameservers_lem (splitlines output) [], nameservers_of)
      (elim (Bool-cases (any_bare (splitlines output))) [ inl b ↦ rw b | inr b ↦ rw b ])

raised_by-bind {ℓ κ} :
    {A : Type ℓ} {B : Type κ} (m : Result A) (f : A → B)
    → raised_by (m >>= λ a. ok (f a)) ≡ raised_by m
raised_by-bind (ok a) f = refl
raised_by-bind (raise e) f = refl

module _ (host : Host) (h : Contained host) where
  get_counters_total :
      (interface : Text) (ip : Option Text)
      → (i : Interface) × (get_counters host interface ip ≡ ok i)
  unfolding get_counters
  get_counters_total interface ip =
      let dir = codes "/sys/class/net/" ++ (interface ++ codes "/statistics") in
      let (rx, e) = h (codes "cat " ++ (dir ++ codes "/rx_bytes")) in
      let (tx, e') = h (codes "cat " ++ (dir ++ codes "/tx_bytes")) in
      elim (Bool-cases (host.exists dir)) [
        | inl there ↦ (
          record {
            ip_info = ip;
            rx_bytes = option_strip (truthy rx);
            tx_bytes = option_strip (truthy tx);
          },
          rw (there, e, e'),
        )
        | inr absent ↦ (record { ip_info = ip; rx_bytes = none; tx_bytes = none }, rw absent)
      ]

  get_interface_total : (interface : Text) → (i : Interface) × (get_interface host interface ≡ ok i)
  unfolding get_interface
  get_interface_total interface =
      let (o, e) = h (codes "ip addr show " ++ interface) in
      let (i, e') = get_counters_total interface (truthy o) in (i, rw e e')

  get_interfaces_total :
      (lines : List Text) (d : Dict Interface)
      → (d' : Dict Interface) × (get_interfaces host lines d ≡ ok d')
  unfolding get_interfaces
  get_interfaces_total [] d = (d, refl)
  get_interfaces_total (line ∷ lines) d =
      let (i, e) = get_interface_total (strip line) in
      let (d', e') = get_interfaces_total lines (insert (strip line) i d) in (d', rw e e')

  get_network_interfaces_total : (d : Dict Interface) × (get_network_interfaces host ≡ ok d)
  unfolding get_network_interfaces
  get_network_interfaces_total =
      let (o, e) = h (codes "ls /sys/class/net/") in
      let (d, e') = get_interfaces_total (lines_of (truthy o)) [] in (d, rw e e')

  get_sysctl_params_total : (d : Dict Text) × (get_sysctl_params host ≡ ok d)
  unfolding get_sysctl_params
  get_sysctl_params_total = let (o, e) = h (codes "sysctl -a") in (params_of (truthy o), rw e)

  get_routing_table_total : (d : List Text) × (get_routing_table host ≡ ok d)
  unfolding get_routing_table
  get_routing_table_total =
      let (o, e) = h (codes "ip route") in (map strip (lines_of (truthy o)), rw e)

  get_dns_settings-raised :
      raised_by (get_dns_settings host) ≡ (if resolv_is_bare host then some index_error else none)
  unfolding get_dns_settings
  get_dns_settings-raised =
      let (o, e) = h (codes "cat /etc/resolv.conf") in
      elim (Bool-cases (host.exists (codes "/etc/resolv.conf"))) [
        | inl there ↦ rw (there, e) (nameservers_of-raised (truthy o) host)
        | inr absent ↦ rw absent
      ]

  collect_system_info-raised :
      raised_by (collect_system_info host) ≡ raised_by (get_dns_settings host)
  unfolding collect_system_info
  collect_system_info-raised =
      let (d, e) = get_sysctl_params_total in
      let (is, e') = get_network_interfaces_total in
      let (rs, e'') = get_routing_table_total in
      rw (e, e', e'')
        (raised_by-bind (get_dns_settings host) (λ settings. record {
          timestamp = host.now;
          sysctl = d;
          interfaces = is;
          routing = rs;
          dns = settings;
        }))

  -- If no command raises an exception other than a SubprocessError, the script ends, whether or not
  -- the file can be written, unless resolv.conf exists and has a line that begins with `nameserver`
  -- and has no second word: then an IndexError ends it.
  pub main-raised :
      (files : Files SystemInfo) (timestamp : Text)
      → raised_by (main host files timestamp)
        ≡ (if resolv_is_bare host then some index_error else none)
  unfolding main
  main-raised files timestamp =
      raised_by-bind (collect_system_info host) _
      ∙ collect_system_info-raised
      ∙ get_dns_settings-raised
