-- ===== src/Network/Shape.antt =====
-- network.py: the form of what is read, whatever the commands print.
use linuxtools.Base.{
  Bool-cases, ◌≡◌, ◌≢◌, ◌⊎◌, inl, inr, refl, Bool, true, false, ◌||◌, List, [], ◌∷◌, Option, none,
  some, arith, if◌then◌else◌, All, length,
}
use linuxtools.Str.{Text, eqb, split}
use linuxtools.Str.Number.{is_digit, all_digits, isdigit}
use linuxtools.Dict.{Dict}
use linuxtools.Regex.{Piece, all_of, search, is_dotted, is_hex_colon}
use linuxtools.Regex.Laws.{search-IsPart}
use linuxtools.Network.{
  System, group, Ipv4, Ipv6, inet_pattern, brd_pattern, inet6_pattern, broadcast_of, read_ipv4,
  read_ipv6, get_ip_info, VlanInfo, no_vlan, vlan_pattern, vlan_of_parts, vlan_of_link,
  get_vlan_info,
}
use linuxtools.Network.Collect.{InterfaceInfo, info_of, mac_pattern, get_ethernet_params}

abbrev pub is_some : Option Text → Bool
is_some none = false
is_some (some _) = true

abbrev pub IsNumber : Option Text → Type 0
IsNumber none = Unit
IsNumber (some id) = isdigit id ≡ true

-- A VLAN has a number, and only a VLAN has a parent.
pub record IsConsistent (info : VlanInfo) : Type 0 where
  pub flag : info.is_vlan ≡ is_some info.vlan_id
  pub number : IsNumber info.vlan_id
  pub child : is_some info.parent ≡ true → info.is_vlan ≡ true

abbrev pub IsMac : Option Text → Type 0
IsMac none = Unit
IsMac (some mac) = (all_of is_hex_colon mac ≡ true) × (length mac ≡ 17)

pub record IsIpv4 (a : Ipv4) : Type 0 where
  pub address_dotted : all_of is_dotted a.address ≡ true
  pub address_nonempty : a.address ≢ []
  pub prefix_number : isdigit a.prefix ≡ true
  pub broadcast_dotted : all_of is_dotted a.broadcast ≡ true

pub record IsIpv6 (a : Ipv6) : Type 0 where
  pub address_hex : all_of is_hex_colon a.address ≡ true
  pub address_nonempty : a.address ≢ []
  pub prefix_number : isdigit a.prefix ≡ true

pub record IsShaped (info : InterfaceInfo) : Type 0 where
  pub v4 : All IsIpv4 info.ip.ipv4
  pub v6 : All IsIpv6 info.ip.ipv6
  pub vlan : IsConsistent info.vlan
  pub mac : IsMac info.ethernet_params.mac_address

search_cases :
    (ps : List Piece) (s : Text)
    → (search ps s ≡ none) ⊎ ((ts : List Text) × (search ps s ≡ some ts))
search_cases ps s =
    elim (search ps s) as (λ found. (found ≡ none) ⊎ ((ts : List Text) × (found ≡ some ts))) [
      | none ↦ inl refl
      | some ts ↦ inr (ts, refl)
    ]

all_of-all_digits : (s : Text) → all_of is_digit s ≡ true → all_digits s ≡ true
unfolding all_of all_digits
all_of-all_digits [] h = refl
all_of-all_digits (c ∷ s) h = ground (arith, all_of-all_digits s)

digits-isdigit : (s : Text) → all_of is_digit s ≡ true → s ≢ [] → isdigit s ≡ true
unfolding isdigit
digits-isdigit [] h ne = elim (ne refl) [ ]
digits-isdigit (c ∷ s) h ne = all_of-all_digits (c ∷ s) h

part-isdigit : (s : Text) → (all_of is_digit s ≡ true) × (s ≢ []) → isdigit s ≡ true
part-isdigit s h = digits-isdigit s h.0 h.1

search-dotted : (line : Text) → all_of is_dotted (broadcast_of (search brd_pattern line)) ≡ true
unfolding all_of
search-dotted line = elim (search_cases brd_pattern line) [
  | inl e ↦ rw e refl
  | inr (ts, e) ↦ rw e (search-IsPart brd_pattern line 2 e refl).0
]

read_ipv4-IsIpv4 : (lines : List Text) → All IsIpv4 (read_ipv4 lines)
unfolding read_ipv4
read_ipv4-IsIpv4 [] = tt
read_ipv4-IsIpv4 (line ∷ lines) = elim (search_cases inet_pattern line) [
  | inl e ↦ rw e (read_ipv4-IsIpv4 lines)
  | inr (ts, e) ↦ rw e (
    record {
      address_dotted = (search-IsPart inet_pattern line 2 e refl).0;
      address_nonempty = (search-IsPart inet_pattern line 2 e refl).1;
      prefix_number = part-isdigit _ (search-IsPart inet_pattern line 4 e refl);
      broadcast_dotted = search-dotted line;
    },
    read_ipv4-IsIpv4 lines,
  )
]

read_ipv6-IsIpv6 : (lines : List Text) → All IsIpv6 (read_ipv6 lines)
unfolding read_ipv6
read_ipv6-IsIpv6 [] = tt
read_ipv6-IsIpv6 (line ∷ lines) = elim (search_cases inet6_pattern line) [
  | inl e ↦ rw e (read_ipv6-IsIpv6 lines)
  | inr (ts, e) ↦ rw e (
    record {
      address_hex = (search-IsPart inet6_pattern line 2 e refl).0;
      address_nonempty = (search-IsPart inet6_pattern line 2 e refl).1;
      prefix_number = part-isdigit _ (search-IsPart inet6_pattern line 4 e refl);
    },
    read_ipv6-IsIpv6 lines,
  )
]

group-IsMac : (out : Text) → IsMac (group 3 (search mac_pattern out))
group-IsMac out = elim (search_cases mac_pattern out) [
  | inl e ↦ rw e tt
  | inr (ts, e) ↦ rw e (search-IsPart mac_pattern out 3 e refl)
]

no_vlan-IsConsistent : IsConsistent no_vlan
no_vlan-IsConsistent = record { flag = refl; number = tt; child = λ h. cc }

vlan_of_parts-IsConsistent : (parts : List Text) → IsConsistent (vlan_of_parts parts)
vlan_of_parts-IsConsistent [] = no_vlan-IsConsistent
vlan_of_parts-IsConsistent (a ∷ []) = no_vlan-IsConsistent
vlan_of_parts-IsConsistent (a ∷ b ∷ c ∷ ps) = no_vlan-IsConsistent
vlan_of_parts-IsConsistent (parent ∷ id ∷ []) = elim (Bool-cases (isdigit id)) [
  | inl e ↦ rw e (record { flag = refl; number = e; child = λ h. refl })
  | inr e ↦ rw e no_vlan-IsConsistent
]

vlan_of_link-IsConsistent :
    (info : VlanInfo) (out : Text)
    → IsConsistent info
    → IsConsistent (vlan_of_link info (search vlan_pattern out))
vlan_of_link-IsConsistent info out h = elim (search_cases vlan_pattern out) [
  | inl e ↦ rw e h
  | inr (ts, e) ↦ rw e (record {
    flag = refl;
    number = part-isdigit _ (search-IsPart vlan_pattern out 4 e refl);
    child = λ h. refl;
  })
]

-- Whatever the commands print: each IPv4 address and broadcast has digits and dots only, each IPv6
-- address hexadecimal digits and colons, each prefix is a number, a MAC has 17 characters, an
-- interface is a VLAN exactly if it has a VLAN number, which is digits, and only a VLAN has a parent.
pub info_of-IsShaped : (system : System) (interface : Text) → IsShaped (info_of system interface)
unfolding info_of get_ip_info get_vlan_info get_ethernet_params
info_of-IsShaped system interface = record {
  v4 = read_ipv4-IsIpv4 _;
  v6 = read_ipv6-IsIpv6 _;
  vlan = vlan_of_link-IsConsistent _ _ (vlan_of_parts-IsConsistent (split b'.' interface));
  mac = group-IsMac _;
}

-- Whether a name is in the list.
abbrev pub elem : Text → List Text → Bool
elem k [] = false
elem k (name ∷ names) = eqb name k || elem k names

abbrev entry_of : System → Text → List Text → Option InterfaceInfo → Option InterfaceInfo
entry_of system k names old = if elem k names then some (info_of system k) else old
